-- ===== src/Core/Requests.antt =====
-- qchat/core.py: what a node sends to others.
use qchat.Prelude.{
  [], ◌∷◌, ◌++◌, ok, err, type_error, exception, nat_eq, list_eq, ◌==◌, if◌then◌else◌,
}
use qchat.Value.{Text, Bytes, Value, str, dict, Fields, end, field, update}
use qchat.Messages.{Json, Kind, rgst, getu, putu, Message, fields, init_message, encode_message}
use qchat.Cryptobox.{Crypto}
use qchat.Db.{connection, everyone, user_key, has_user, get_public_user_info, get_connection_info}
use qchat.Core.{
  take_keyword, no_more_keywords, name_of, Environment, Handler, lift, raise, ◌>>=◌, ◌>>◌, skip,
  get_node, item, host_key, port_key,
}
use qchat.Core.Signature.{sign_message}
use qchat.Core.Users.{own_connection_info, get_registration_data}

module _ (env : Environment) where
  -- `self.connection.send_message`
  unfoldable pub send_bytes : Value → Value → Bytes → Handler (Unit {0})
  send_bytes host port message = do
    lift (env.connect host port)
    λ s. (ok tt, record s { wire = s.wire ++ (host, port, message) ∷ [] })

  -- The loop that waits for the registry's answer.
  unfoldable pub wait_for_user : Text → Handler (Unit {0})
  unfolding has_user
  wait_for_user user s =
      let s' = env.meanwhile s in
      if has_user user s.user_db
      then (ok tt, s)
      else if has_user user s'.user_db
      then (ok tt, s')
      else (err exception, s')

module _ (json : Json) (crypto : Crypto) (env : Environment) where
  -- A message of the node itself.
  unfoldable pub own_message : Kind → Fields → Handler Message
  unfolding init_message
  own_message kind message_data = do
    node ← get_node
    lift (init_message json kind node.name (fields message_data))

  -- `self._sign_message(message)`
  unfoldable pub signed : Message → Handler Message
  unfolding sign_message
  signed message = do node ← get_node; lift (sign_message json crypto node.signer message)

  -- `send_message(place["host"], place["port"], message.encode_message())`
  unfoldable pub send_encoded : Value → Message → Handler (Unit {0})
  unfolding item encode_message send_bytes
  send_encoded place message = do
    host ← lift (item host_key place)
    port ← lift (item port_key place)
    bs ← lift (encode_message json message)
    send_bytes env host port bs

  -- `sendRegistration`
  unfoldable pub send_registration : Value → Value → Handler (Unit {0})
  unfolding own_message get_registration_data encode_message send_bytes
  send_registration host port = do
    node ← get_node
    reg_data ← lift (get_registration_data node)
    message ← own_message rgst reg_data
    bs ← lift (encode_message json message)
    send_bytes env host port bs

  -- `requestUserInfo`
  unfoldable pub request_user_info : Text → Handler (Unit {0})
  unfolding own_connection_info own_message signed send_encoded wait_for_user update
  request_user_info user = do
    node ← get_node
    m ← own_message getu (update (field user_key (str user) end) (own_connection_info node))
    m' ← signed m
    send_encoded node.root_config m'
    if user == everyone then skip else wait_for_user env user

  -- `sendUserInfo`
  unfoldable pub send_user_info : Text → Value → Handler (Unit {0})
  unfolding get_public_user_info own_message signed send_encoded
  send_user_info user place = do
    node ← get_node
    info ← lift (get_public_user_info user node.user_db)
    message ← own_message putu info
    message' ← signed message
    send_encoded place message'

  -- `if not self.userDB.hasUser(user): self.requestUserInfo(user)`
  unfoldable pub ensure_user : Text → Handler (Unit {0})
  unfolding has_user request_user_info
  ensure_user user = do
    node ← get_node
    if has_user user node.user_db then skip else request_user_info user

  -- `sendMessage`
  unfoldable pub send_message : Text → Message → Handler (Unit {0})
  unfolding ensure_user get_connection_info item signed encode_message send_bytes
  send_message user message = do
    ensure_user user
    node ← get_node
    connection_info ← lift (get_connection_info user node.user_db)
    host ← lift (item host_key connection_info)
    port ← lift (item port_key connection_info)
    message' ← signed message
    bs ← lift (encode_message json message')
    send_bytes env host port bs

  -- `handler=self.sendUserInfo` of `_pass_message_data`
  unfoldable pub handle_info_request : Value → Handler (Unit {0})
  unfolding send_user_info take_keyword no_more_keywords name_of
  handle_info_request (dict d) = do
    (user, d_1) ← lift (take_keyword user_key d)
    (conn, d_2) ← lift (take_keyword connection d_1)
    lift (no_more_keywords d_2)
    user_name ← lift (name_of user)
    send_user_info user_name conn
  handle_info_request v = raise type_error
