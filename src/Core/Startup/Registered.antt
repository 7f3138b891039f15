-- ===== src/Core/Startup/Registered.antt =====
-- A new node and its registration at the root server.
use mathlib.Core.Path.{subst}
use qchat.Prelude.{
  ℕ, ◌≤◌, ◌<◌, ◌≡◌, ◌≢◌, refl, ap, sym, ◌∙◌, Bool, true, false, ◌&&◌, List, [], ◌∷◌, ◌++◌, All,
  length, Option, none, some, Result, ok, err, ok-injective, >>=-eq-ok, nat_eq, list_eq, ◌==◌,
  ==_self, le→ltb, if◌then◌else◌,
}
use qchat.Value.{Text, Bytes, Value, str, bytes, dict, Fields, end, field, get, put, update}
use qchat.Messages.{Json, rgst, init_message, unpack_message_data, encode_message}
use qchat.Cryptobox.{Crypto, get_pub}
use qchat.Db.{
  connection, pub_key, user_key, everyone, get_user, has_user, known_info, get_or_null,
  get_public_key, get_public_user_info, info_or_new, add_user,
}
use qchat.Db.Invariant.{IsWellFormed}
use qchat.Core.{Node, Environment, item, host_key, port_key}
use qchat.Core.Users.{own_connection_info, get_registration_data}
use qchat.Core.Requests.{own_message, send_bytes, send_registration}
use qchat.Core.Signed.{with_data}
use qchat.Core.Startup.{
  load_server_config, root_of, new_connection, same_place, new_node, try_to_register,
  register_with_root_server,
}
use qchat.Server.{handle_registration}
use qchat.Server.Registration.{registration_answers}

-- What a new node is: its name and key, and itself alone as a user.
record IsNew (crypto : Crypto) (name : Text) (key : Bytes) (node : Node) : Type 0 where
  named : node.name ≡ name
  unsent : node.wire ≡ []
  own : get_public_key name node.user_db ≡ ok (bytes (get_pub crypto key))
  well_formed : IsWellFormed node.user_db

new_node-IsNew :
    (crypto : Crypto) (read : Text → Result Value) (config_file : Option Text) (name : Text)
    (allow : Bool) (key : Bytes) (node : Node)
    → new_node crypto read config_file name allow key ≡ ok node
    → IsNew crypto name key node
unfolding new_node get_public_key get_or_null known_info get_user get add_user info_or_new update
    put own_connection_info qchat.Prelude.Dict.lookup qchat.Prelude.Dict.insert
new_node-IsNew crypto read config_file name allow key node h =
    let (config, _, h1) = >>=-eq-ok (load_server_config read config_file (str name)) _ h in
    let (root, _, h2) = >>=-eq-ok (root_of config) _ h1 in
    let (root_config, _, h3) = >>=-eq-ok (load_server_config read config_file root) _ h2 in
    let (place, _, h5) = >>=-eq-ok (new_connection config) _ h3 in
    subst (IsNew crypto name key) (ok-injective h5) (record {
      named = refl;
      unsent = refl;
      own = rw (==_self name) refl;
      well_formed = (refl, (refl, (refl, tt)), tt);
    })

-- A node that starts: if its configuration can be read, and has a root server at another place, which
-- can be reached, with a name of at most 16 characters, not `*`, that the server does not know: the node
-- sends the encoding of a registration to the root server, and nothing else, and raises nothing; and a
-- server that handles the data of that message answers about the name with the node's own place and
-- public key.
pub new_node_registers :
    (json : Json) (crypto : Crypto) (env : Environment) (read : Text → Result Value)
    (config_file : Option Text) (name : Text) (allow : Bool) (key bs : Bytes) (node server : Node)
    (root_host root_port : Value)
    → new_node crypto read config_file name allow key ≡ ok node
    → name ≢ everyone
    → length name ≤ 16
    → All (λ b. b < 256) (get_pub crypto key)
    → has_user name server.user_db ≡ false
    → item host_key node.root_config ≡ ok root_host
    → item port_key node.root_config ≡ ok root_port
    → (same_place node.host root_host && same_place node.port root_port) ≡ false
    → env.connect root_host root_port ≡ ok tt
    → ((d : Fields)
        → get_registration_data node ≡ ok d
        → encode_message json (with_data rgst name d) ≡ ok bs)
    → (d : Fields) × (server' : Node) × (register_with_root_server json crypto env node
        ≡ (ok tt, record node { wire = (root_host, root_port, bs) ∷ [] }))
      × (encode_message json (with_data rgst name d) ≡ ok bs)
      × (handle_registration (dict d) server ≡ (ok tt, server'))
      × (get_public_user_info name server'.user_db
          ≡ ok (
              field connection
                (dict (field host_key node.host (field port_key node.port end)))
                (field pub_key (str (get_pub crypto key)) (field user_key (str name) end))))
unfolding register_with_root_server try_to_register send_registration own_message send_bytes
    init_message unpack_message_data
new_node_registers json crypto env read config_file name allow key bs node server root_host
      root_port made ne short small new hosted ported away reached coded =
    let n = new_node-IsNew crypto read config_file name allow key node made in
    let own : get_public_key node.name node.user_db ≡ ok (bytes (get_pub crypto key)) =
      rw n.named n.own in
    let (d, server', collected, handled, answered) =
      registration_answers node server (get_pub crypto key) (rw n.named ne) own small
        (rw n.named new) in
    let coded' : encode_message json (with_data rgst node.name d) ≡ ok bs =
      rw n.named (coded d collected) in
    (
      d,
      server',
      rw (hosted, ported, away, collected, le→ltb 16 (length node.name) (rw n.named short))
          (rw (coded', reached, n.unsent) refl),
      coded d collected,
      handled,
      rw n.named at answered,
    )
