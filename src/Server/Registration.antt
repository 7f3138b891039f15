-- ===== src/Server/Registration.antt =====
-- A registration, from the node that registers to the answer about it; and what an update that nobody
-- signed does.
use qchat.Prelude.{
  ◌<◌, ◌≡◌, ◌≢◌, refl, ap, ◌∙◌, false, All, none, some, ok, err, attribute_error, arith, nat_eq,
  list_eq, ==_self, ==_ne,
}
use qchat.Value.{
  Text, Bytes, Value, null, dict, str, bytes, Fields, end, field, get, update, put, remove, get-put,
}
use qchat.Messages.{Json, putu, verify, strip}
use qchat.Cryptobox.{Crypto}
use qchat.Db.{
  UserDb, everyone, user_key, pub_key, connection, get_user, has_user, known_info, get_or_null,
  get_public_key, get_connection_info, get_public_user_info, public_info, info_or_new, add_user,
  decode_latin,
}
use qchat.Db.Records.{get_user-add_user}
use qchat.Core.{
  take_keyword, no_more_keywords, Node, Environment, encode_latin, encode_value, pop_item, name_of,
  host_key, port_key, sig_key,
}
use qchat.Core.Users.{
  keywords, add_user_to_db, add_user_info, handle_user_info, own_connection_info,
  get_registration_data,
}
use qchat.Core.Signed.{encode_latin-bytes, with_data}
use qchat.Core.Signature.{strip_signature}
use qchat.Core.Process.{handle, process_stripped, process_message}
use qchat.Server.{EprSource, register_user, handle_registration, server_proc_map}

-- The dict that a node registers with, and the record that the registry makes of it.
abbrev place_of : Node → Value
place_of node = dict (field host_key node.host (field port_key node.port end))

abbrev registered : Node → Bytes → Fields
registered node key = field pub_key (bytes key) (field connection (place_of node) end)

new_user :
    (user : Text) (s : Node) → has_user user s.user_db ≡ false → info_or_new user s.user_db ≡ end
unfolding has_user info_or_new
new_user user s new = ground arith

register_lem :
    (node server : Node) (key : Bytes)
    → node.name ≢ everyone
    → All (λ b. b < 256) key
    → has_user node.name server.user_db ≡ false
    → register_user node.name (place_of node) (str key) server
      ≡ (ok tt, record server { user_db = add_user node.name (registered node key) server.user_db })
unfolding register_user encode_value add_user_info add_user_to_db keywords get
register_lem node server key ne small new =
    rw (new, encode_latin-bytes key small, ==_ne node.name everyone ne) refl

public_info_lem :
    (user : Text) (key : Bytes) (place : Value) (db : UserDb)
    → user ≢ everyone
    → get_user user db ≡ some (field pub_key (bytes key) (field connection place end))
    → get_public_user_info user db
      ≡ ok (field connection place (field pub_key (str key) (field user_key (str user) end)))
unfolding get_public_user_info public_info get_connection_info get_public_key known_info get_or_null
    get decode_latin
public_info_lem user key place db ne stored = rw (==_ne user everyone ne, stored) refl

-- Registration: the data with which a node registers are accepted by a server that does not know the
-- node's name, which is not `*`; and what the server then answers about that name is the node's own
-- connection and public key.
pub registration_answers :
    (node server : Node) (key : Bytes)
    → node.name ≢ everyone
    → get_public_key node.name node.user_db ≡ ok (bytes key)
    → All (λ b. b < 256) key
    → has_user node.name server.user_db ≡ false
    → (d : Fields) × (server' : Node) × (get_registration_data node ≡ ok d)
      × (handle_registration (dict d) server ≡ (ok tt, server'))
      × (get_public_user_info node.name server'.user_db
          ≡ ok (
              field connection
                (place_of node)
                (field pub_key (str key) (field user_key (str node.name) end))))
unfolding get_registration_data own_connection_info decode_latin update put handle_registration
    take_keyword no_more_keywords name_of get remove
registration_answers node server key ne own small new =
    let server' : Node = record server {
      user_db = add_user node.name (registered node key) server.user_db;
    } in
    let stored : get_user node.name server'.user_db ≡ some (registered node key) =
      get_user-add_user node.name node.name (registered node key) server.user_db
      ∙ rw (==_self, new_user node.name server new) refl in
    (
      field user_key (str node.name)
          (field pub_key (str key) (field connection (place_of node) end)),
      server',
      rw own refl,
      register_lem node server key ne small new,
      public_info_lem node.name key (place_of node) server'.user_db ne stored,
    )

known_info-put :
    (k : Text) (v : Value) (d : Fields) → known_info (some (put k v d)) ≡ ok (put k v d)
unfolding known_info put
known_info-put k v end = refl
known_info-put k v (field j w d) = ground arith

get_connection_info-put :
    (user : Text) (k : Text) (v : Value) (d : Fields) (db : UserDb)
    → get_user user db ≡ some (put k v d)
    → get_connection_info user db ≡ ok (get_or_null connection (put k v d))
unfolding get_connection_info
get_connection_info-put user k v d db stored = rw stored (rw (known_info-put k v d) refl)

get_public_key-put :
    (user : Text) (v : Value) (d : Fields) (db : UserDb)
    → get_user user db ≡ some (put pub_key v d)
    → get_public_key user db ≡ ok v
unfolding get_public_key get_or_null
get_public_key-put user v d db stored = rw stored (
    rw (known_info-put pub_key v d)
      (ap (λ o. ok (elim o [ none ↦ null | some w ↦ w ])) (get-put pub_key pub_key v d)))

-- Updates are not verified: whoever sends it, and whatever Latin-1 text it holds as a signature, a PUTU
-- message about a user other than `*` makes the server store the public key that the message gives,
-- over the one that it had.
pub unsigned_update :
    (json : Json) (crypto : Crypto) (env : Environment) (source : EprSource)
    (sender victim key sig : Text) (sig_bytes : Bytes) (s : Node)
    → victim ≢ everyone
    → encode_latin sig ≡ ok sig_bytes
    → (s' : Node) × (process_message json crypto env
          (server_proc_map json crypto env source)
          (with_data putu sender
            (field user_key (str victim) (field pub_key (str key) (field sig_key (str sig) end))))
          s
        ≡ (ok tt, s'))
      × (get_public_key victim s'.user_db ≡ ok (str key))
unfolding process_message process_stripped strip_signature pop_item encode_value handle
    server_proc_map handle_user_info add_user_info add_user_to_db keywords name_of get remove verify
    strip
unsigned_update json crypto env source sender victim key sig sig_bytes s ne latin =
    let s' : Node = record s {
      user_db = add_user victim (field pub_key (str key) end) s.user_db;
    } in
    (
      s',
      rw (latin, ==_ne victim everyone ne) refl,
      get_public_key-put victim (str key) (info_or_new victim s.user_db) s'.user_db (
          get_user-add_user victim victim (field pub_key (str key) end) s.user_db
          ∙ rw ==_self refl),
    )

-- The server has no answer about a user whose key came in an update: once it has handled a PUTU message
-- with a key for a user other than `*`, from any sender and with any Latin-1 text as a signature, asking
-- it for the public information of that user raises `AttributeError`, since the key is stored as the
-- text of the message, not as bytes.
pub updated_user_unanswerable :
    (json : Json) (crypto : Crypto) (env : Environment) (source : EprSource)
    (sender victim key sig : Text) (sig_bytes : Bytes) (s : Node)
    → victim ≢ everyone
    → encode_latin sig ≡ ok sig_bytes
    → (s' : Node) × (process_message json crypto env
          (server_proc_map json crypto env source)
          (with_data putu sender
            (field user_key (str victim) (field pub_key (str key) (field sig_key (str sig) end))))
          s
        ≡ (ok tt, s'))
      × (get_public_user_info victim s'.user_db ≡ err attribute_error)
unfolding process_message process_stripped strip_signature pop_item encode_value handle
    server_proc_map handle_user_info add_user_info add_user_to_db keywords name_of get remove verify
    strip get_public_user_info public_info decode_latin
updated_user_unanswerable json crypto env source sender victim key sig sig_bytes s ne latin =
    let s' : Node = record s {
      user_db = add_user victim (field pub_key (str key) end) s.user_db;
    } in
    let info = info_or_new victim s.user_db in
    let stored : get_user victim s'.user_db ≡ some (put pub_key (str key) info) =
      get_user-add_user victim victim (field pub_key (str key) end) s.user_db ∙ rw ==_self refl in
    (
      s',
      rw (latin, ==_ne victim everyone ne) refl,
      rw
          (
            ==_ne victim everyone ne,
            get_connection_info-put victim pub_key (str key) info s'.user_db stored,
            get_public_key-put victim (str key) info s'.user_db stored,
          )
          refl,
    )
