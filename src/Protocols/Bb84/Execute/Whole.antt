-- ===== src/Protocols/Bb84/Execute/Whole.antt =====
-- `execute` of `BB84_Purified`, run by both parties.
use qchat.Prelude.{ℕ, suc, ◌+◌, ◌≤◌, ◌<◌, ◌≡◌, List, ◌∷◌, ◌++◌, length}
use qchat.Protocols.Bb84.{round_size}
use qchat.Protocols.Bb84.Execute.Devices.{Measured, Devices}
use qchat.Device.Runs.{draws, outcomes, thetas}

-- The numbers of both parties. `Ready n e l f` says of the leader's and the follower's that they do for
-- `n` steps more, in which `e` of the sifted bits differ in all: they begin with the bases and outcomes
-- of a round and the leader's 25 indices of its test, and the leader's with a byte for the hash.
pub record Rounds (Ready : ℕ → ℕ → List ℕ → List ℕ → Type 0) : Type 0 where
  pub rounds :
      (n e : ℕ) (l f : List ℕ)
      → Ready (suc n) e l f
      → (ps : List (ℕ × ℕ)) × (qs : List (ℕ × ℕ)) × (is : List ℕ) × (ns : List ℕ) × (ms : List ℕ)
        × (d : ℕ) × (e' : ℕ) × (length ps ≡ round_size)
        × (length qs ≡ round_size)
        × (l ≡ draws ps (is ++ ns))
        × (f ≡ draws qs ms)
        × Measured (outcomes ps, thetas ps) (outcomes qs, thetas qs) d is
        × (d + e' ≤ e)
        × Ready n e' ns ms
  pub seeds :
      (n e : ℕ) (l f : List ℕ)
      → Ready (suc n) e l f
      → (y : ℕ) × (ns : List ℕ) × (l ≡ y ∷ ns) × (y < 256) × Ready n e ns f
