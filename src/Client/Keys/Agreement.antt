-- ===== src/Client/Keys/Agreement.antt =====
-- Two clients that agree on a key.
use qchat.Prelude.{suc, ℕ, List, nat_eq, list_eq}
use qchat.Value.{Text}
use qchat.Messages.{Json, Message}
use qchat.Protocols.Bb84.Execute.Whole.{Rounds}
use qchat.Device.{Cqc, Relay}
use qchat.Device.Runs.{Works, EncodesRequests}
use qchat.Core.{Node}
use qchat.Client.Keys.{World}
use qchat.Client.Keys.Runs.{Knows}

-- A party of a key agreement: its library, its numbers, and the messages that come.
abbrev pub party_of : Cqc → ℕ → (List ℕ → List ℕ) → ℕ → List Message → List ℕ → World
party_of cqc tries iterate_set fuel coming randoms = record {
  coming = coming;
  randoms = randoms;
  cqc = cqc;
  attempts = suc tries;
  iterate_set = iterate_set;
  fuel = fuel;
}

module _ (json : Json) (cqc : Cqc) (works : Works cqc) (encodes : EncodesRequests json) (tries : ℕ)
    (iterate_set : List ℕ → List ℕ) (Ready : ℕ → ℕ → List ℕ → List ℕ → Type 0)
    (numbers : Rounds Ready) where
  -- A device that the party's object makes.
  abbrev relay_of : {s : Node} {peer : Text} → Knows s peer → Relay
  relay_of k = record { relay_host = k.relay_host; relay_port = k.relay_port; attempts = suc tries }

  abbrev party : ℕ → List Message → List ℕ → World
  party = party_of cqc tries iterate_set
