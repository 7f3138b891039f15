-- ===== src/Core/Startup.antt =====
-- qchat/core.py: the constructor of `QChatCore`, with the configuration that it reads and the
-- registration that it sends. The threads that it starts are in Core/Threads.
pub mod Registered
mod Tests
use qchat.Prelude.{
  ℕ, Bool, true, false, ◌&&◌, List, [], ◌∷◌, Option, none, some, Result, ok, err, Error, type_error,
  attribute_error, nat_eq, list_eq, ◌==◌, if◌then◌else◌,
}
use qchat.Prelude
use qchat.Value.{
  Text, Bytes, Value, ℤ, pos, negsuc, null, bool, int, str, bytes, arr, dict, Fields, end, field,
  codes, get, update,
}
use qchat.Messages.{Json}
use qchat.Mailbox.{new_mailbox}
use qchat.Cryptobox.{Crypto, get_pub}
use qchat.Db.{UserDb, connection, pub_key, add_user}
use qchat.Core.{
  Node, Environment, Handler, return, lift, ◌>>=◌, ◌>>◌, skip, get_node, item, host_key, port_key,
}
use qchat.Core.Users.{own_connection_info}
use qchat.Core.Requests.{send_registration}

-- `base_config.get(name)`: a name that is no text is no key of the file.
unfoldable pub lookup_name : Value → Value → Result Value
unfolding get
lookup_name (dict d) (str name) = elim (get name d) [ none ↦ ok null | some v ↦ ok v ]
lookup_name (dict d) (arr vs) = err type_error
lookup_name (dict d) (dict e) = err type_error
lookup_name (dict d) v = ok null
lookup_name base v = err attribute_error

-- `config.get("root")`
unfoldable pub root_of : Value → Result Value
unfolding get
root_of (dict d) = elim (get (codes "root") d) [ none ↦ ok null | some v ↦ ok v ]
root_of v = err attribute_error

abbrev pub default_path : Text
default_path = codes "config.json"

-- `_load_server_config`, where `read` opens a file and parses it
unfoldable pub load_server_config : (Text → Result Value) → Option Text → Value → Result Value
unfolding lookup_name
load_server_config read config_file name =
    let path : Text = elim config_file [
      | none ↦ default_path
      | some p ↦ if p == [] then default_path else p
    ] in
    Prelude.◌>>=◌ (read path) (λ base_config. lookup_name base_config name)

abbrev number_of : Bool → ℕ
number_of true = 1
number_of false = 0

-- `a == b` of hosts and ports; a list or a dict, which no socket takes, is not told equal to another.
unfoldable pub same_place : Value → Value → Bool
same_place null null = true
same_place (bool a) (bool b) = number_of a == number_of b
same_place (bool a) (int (pos n)) = number_of a == n
same_place (int (pos n)) (int (pos k)) = n == k
same_place (int (pos n)) (bool b) = n == number_of b
same_place (int (negsuc n)) (int (negsuc k)) = n == k
same_place (str s) (str t) = s == t
same_place (bytes s) (bytes t) = s == t
same_place v w = false

-- The host and the port that a connection takes from its configuration.
unfoldable pub new_connection : Value → Result (Value × Value)
unfolding item
new_connection config =
    Prelude.◌>>=◌ (item host_key config)
      (λ host. Prelude.◌>>=◌ (item port_key config) (λ port. ok (host, port)))

-- The state of a new node, with the key that the signer generates.
unfoldable pub new_node :
    Crypto → (Text → Result Value) → Option Text → Text → Bool → Bytes → Result Node
unfolding load_server_config root_of new_connection get_pub add_user own_connection_info update
new_node crypto read config_file name allow_invalid_signatures key =
    Prelude.◌>>=◌ (load_server_config read config_file (str name)) (λ config.
      Prelude.◌>>=◌ (root_of config) (λ root.
        Prelude.◌>>=◌ (load_server_config read config_file root) (λ root_config.
          Prelude.◌>>=◌ (new_connection config) (λ place.
            let node : Node = record {
              name = name;
              signer = key;
              host = place.0;
              port = place.1;
              root_config = root_config;
              allow_invalid_signatures = allow_invalid_signatures;
              user_db = [];
              control_message_queue = [];
              wire = [];
              mailbox = new_mailbox;
              outbound_queue = [];
            } in
            let info : Fields =
              update (field pub_key (bytes (get_pub crypto key)) end) (own_connection_info node) in
            ok (record node { user_db = add_user name info [] })))))

module _ (json : Json) (crypto : Crypto) (env : Environment) where
  -- The body of the `try` of `_register_with_root_server`.
  unfoldable pub try_to_register : Handler (Unit {0})
  unfolding item same_place send_registration
  try_to_register = do
    node ← get_node
    root_host ← lift (item host_key node.root_config)
    root_port ← lift (item port_key node.root_config)
    let am_root = same_place node.host root_host && same_place node.port root_port
    if am_root then skip else send_registration json crypto env root_host root_port

  -- `_register_with_root_server`: any exception is passed over.
  unfoldable pub register_with_root_server : Handler (Unit {0})
  unfolding try_to_register
  register_with_root_server s = (ok tt, (try_to_register s).1)

-- The constructor: the node, or the exception.
unfoldable pub new_core :
    Json
    → Crypto
    → Environment
    → (Text → Result Value)
    → Option Text
    → Text
    → Bool
    → Bytes
    → Result Node
unfolding new_node register_with_root_server
new_core json crypto env read config_file name allow_invalid_signatures key =
    Prelude.◌>>=◌ (new_node crypto read config_file name allow_invalid_signatures key)
      (λ node. ok (register_with_root_server json crypto env node).1)
