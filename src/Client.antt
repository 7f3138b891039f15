-- ===== src/Client.antt =====
-- qchat/client.py: chat messages, protocols on behalf of the user, and the message history. What a
-- protocol object does when it is made and run is an interface, which the client takes.
pub mod Chat
pub mod History
pub mod RoundTrip
pub mod Keys
mod Tests
use qchat.Prelude.{
  Bool, true, false, List, [], ◌∷◌, ◌++◌, Option, none, some, Result, ok, err, type_error,
  attribute_error, exception, nat_eq, list_eq, if◌then◌else◌,
}
use qchat.Prelude.Dict.{Dict, insert}
use qchat.Value.{
  Text, Bytes, Value, ℤ, null, bool, int, str, bytes, arr, dict, nil, Fields, end, field, codes,
  update,
}
use qchat.Messages.{Json, Kind, qcht, spds, getu, putu, ptcl, Message, fields, init_message}
use qchat.Mailbox.{store_message, pop_messages, new_mailbox}
use qchat.Cryptobox.{Crypto, encrypt, decrypt}
use qchat.Db.{
  user_key, message_key, has_user, get_connection_info, get_message_key, change_user_info,
}
use qchat.Protocols.{Role, leader, follower, truthy}
use qchat.Protocols.Factory.{
  ProtocolClass, bb84_purified, diqkd, super_dense_coding, create_protocol,
}
use qchat.Core.{
  Node, Environment, Handler, return, lift, raise, ◌>>=◌, ◌>>◌, skip, get_node, set_user_db, item,
  pop_item, encode_latin, encode_value,
}
use qchat.Core.Users.{handle_user_info}
use qchat.Core.Requests.{ensure_user, handle_info_request, own_message, send_message}
use qchat.Core.Process.{ProcMap, queue_of}

-- A protocol object: made for a role, the keywords of its class and the peer's information, which
-- runs the handshake; then run.
pub record Protocols : Type 1 where
  pub Protocol : Type 0
  pub start : ProtocolClass → Role → Fields → Fields → Handler Protocol
  pub execute : Protocol → Handler Bytes
  pub send_message : Protocol → Bytes → Handler (Unit {0})
  pub receive_message : Protocol → Handler Bytes

-- `isinstance(p, QChatKeyProtocol)`
unfoldable pub is_key_protocol : ProtocolClass → Bool
is_key_protocol super_dense_coding = false
is_key_protocol c = true

-- `peer_info = {"user": user}; peer_info.update(info)`
unfoldable pub peer_info : Text → Value → Result Fields
unfolding update
peer_info user (dict info) = ok (update (field user_key (str user) end) info)
peer_info user (arr nil) = ok (field user_key (str user) end)
peer_info user v = err type_error

-- `ProtocolFactory().createProtocol(name)`, of which the caller uses the name at once.
unfoldable pub protocol_class : Value → Result ProtocolClass
unfolding create_protocol
protocol_class (str name) = elim (create_protocol name) [
  | none ↦ err attribute_error
  | some c ↦ ok c
]
protocol_class (arr vs) = err type_error
protocol_class (dict d) = err type_error
protocol_class v = err attribute_error

-- `self.userDB.changeUserInfo(user, message_key=key)`
unfoldable pub store_key : Text → Bytes → Handler (Unit {0})
unfolding change_user_info
store_key user key = do
  node ← get_node
  set_user_db (change_user_info user (field message_key (bytes key) end) node.user_db)

unfoldable pub store_in_mailbox : Message → Handler (Unit {0})
unfolding store_message
store_in_mailbox message s = (ok tt, record s { mailbox = store_message message s.mailbox })

abbrev pub plaintext_key : Text
plaintext_key = codes "plaintext"

abbrev pub nonce_key : Text
nonce_key = codes "nonce"

abbrev pub ciphertext_key : Text
ciphertext_key = codes "ciphertext"

abbrev pub tag_key : Text
tag_key = codes "tag"

-- The peer's information for a protocol.
unfoldable pub info_of_peer : Text → Handler Fields
unfolding get_connection_info peer_info
info_of_peer user = do
  node ← get_node
  info ← lift (get_connection_info user node.user_db)
  lift (peer_info user info)

module _ (json : Json) (protocols : Protocols) where
  -- The two ways to go on with a protocol that a peer leads.
  unfoldable pub follow : Text → ProtocolClass → protocols.Protocol → Handler (Unit {0})
  unfolding is_key_protocol store_key init_message store_in_mailbox
  follow sender c p =
      let derive : Handler (Unit {0}) = do key ← protocols.execute p; store_key sender key
      in let receive : Handler (Unit {0}) = do
        received ← protocols.receive_message p
        message ←
            lift (init_message json spds sender (fields (field plaintext_key (bytes received) end)))
        store_in_mailbox message
        in if is_key_protocol c then derive else receive

  -- `_follow_protocol`
  unfoldable pub follow_protocol : Message → Handler (Unit {0})
  unfolding info_of_peer pop_item protocol_class follow
  follow_protocol message = do
    info ← info_of_peer message.sender
    (name, kwargs) ← lift (pop_item (codes "name") message.message_data)
    c ← lift (protocol_class name)
    p ← protocols.start c follower kwargs info
    follow message.sender c p

  -- `_establish_key`
  unfoldable pub establish_key : Text → ℤ → ProtocolClass → Handler (Unit {0})
  unfolding has_user info_of_peer store_key
  establish_key user key_size c = do
    node ← get_node
    let known : Handler (Unit {0}) = do
      info ← info_of_peer user
      p ← protocols.start c leader (field (codes "key_size") (int key_size) end) info
      key ← protocols.execute p
      store_key user key
    if has_user user node.user_db then known else raise exception
