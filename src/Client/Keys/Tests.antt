-- ===== src/Client/Keys/Tests.antt =====
-- Alice and Bob agree on a key of one byte.
use qchat.Prelude.{◌<◌, All, ℕ, ◌+◌, ◌*◌, ◌≤◌, List, [], ◌∷◌, ◌++◌, nat_eq, list_eq}
use qchat.Value.{Text, pos, int, str, dict, Fields, end, field, codes}
use qchat.Messages.{Message}
use qchat.Ecc.Correct.{ecc_golay}
use qchat.Db.{UserDb, connection}
use qchat.Protocols.Bb84.Execute.Samples.{json, simulator, lead_numbers, follow_numbers}
use qchat.Core.{Node, host_key, port_key}
use qchat.Core.Samples.{alice_name, bob_name, node}
use qchat.Client.{Protocols}
use qchat.Client.Keys.{World, key_protocols}
use qchat.Client.Keys.Agreement.{party_of}

abbrev place : ℕ → Fields
place port = field host_key (str (codes "localhost")) (field port_key (int (pos port)) end)

abbrev alice : Node
alice = record (node alice_name ((bob_name, field connection (dict (place 8002)) end) ∷ [])) {
  root_config = dict (place 8000);
}

abbrev bob : Node
bob = record (node bob_name ((alice_name, field connection (dict (place 8001)) end) ∷ [])) {
  root_config = dict (place 8000);
}

abbrev in_order : List ℕ → List ℕ
in_order l = l

abbrev bob_meets : List Message → World
bob_meets to_follow = party_of simulator 59 in_order 27 to_follow follow_numbers

abbrev alice_meets : List Message → World
alice_meets to_lead = party_of simulator 59 in_order 27 to_lead lead_numbers

abbrev none_else : Protocols
none_else = key_protocols json ecc_golay (alice_meets [])
