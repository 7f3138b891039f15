-- ===== src/Server.antt =====
-- qchat/server.py: registration, the distribution of qubits, and the server's table of handlers.
pub mod Registry
pub mod Registration
mod Tests
use qchat.Prelude.{
  Bool, true, false, List, [], ◌∷◌, Option, none, some, Result, ok, err, type_error,
  attribute_error, exception, if◌then◌else◌,
}
use qchat.Value.{Text, Bytes, Value, str, bytes, dict, Fields, end, field, codes, get, remove}
use qchat.Messages.{Json, Kind, rgst, getu, putu, rqqb, Message}
use qchat.Cryptobox.{Crypto}
use qchat.Db.{user_key, pub_key, connection, has_user}
use qchat.Core.{
  take_keyword, no_more_keywords, Node, Environment, Handler, return, lift, raise, ◌>>=◌, ◌>>◌,
  skip, get_node, item, encode_value, name_of,
}
use qchat.Core.Users.{add_user_info, handle_user_info}
use qchat.Core.Requests.{handle_info_request}
use qchat.Core.Process.{ProcMap, process_message}

-- What the server calls of the CQC library: `createEPR` and `sendQubit`.
pub record EprSource : Type 1 where
  pub Qubit : Type 0
  pub create_epr : Text → Handler Qubit
  pub send_qubit : Qubit → Value → Handler (Unit {0})

-- `_distribute_qubits`. `random.random()` is never below 0, so that the branch of the attack, which
-- `p < 0` guards, is not taken.
unfoldable pub distribute_qubits : EprSource → Message → Handler (Unit {0})
unfolding item
distribute_qubits source message = do
  q ← source.create_epr message.sender
  peer ← lift (item user_key message.message_data)
  source.send_qubit q peer

-- `registerUser`
unfoldable pub register_user : Text → Value → Value → Handler (Unit {0})
unfolding has_user encode_value add_user_info
register_user user conn pub_ = do
  node ← get_node
  let fresh : Handler (Unit {0}) = do
    encoded ← lift (encode_value pub_)
    add_user_info user (field pub_key (bytes encoded) (field connection conn end))
  if has_user user node.user_db then raise exception else fresh

-- `handler=self.registerUser` of `_pass_message_data`
unfoldable pub handle_registration : Value → Handler (Unit {0})
unfolding register_user take_keyword no_more_keywords name_of
handle_registration (dict d) = do
  (user, d_1) ← lift (take_keyword user_key d)
  (conn, d_2) ← lift (take_keyword connection d_1)
  (pub_, d_3) ← lift (take_keyword pub_key d_2)
  lift (no_more_keywords d_3)
  user_name ← lift (name_of user)
  register_user user_name conn pub_
handle_registration v = raise type_error

module _ (json : Json) (crypto : Crypto) (env : Environment) where
  unfoldable pub server_proc_map : EprSource → ProcMap
  unfolding distribute_qubits handle_registration handle_info_request handle_user_info
  server_proc_map source rgst = some (λ m. handle_registration m.message_data)
  server_proc_map source getu = some (λ m. handle_info_request json crypto env m.message_data)
  server_proc_map source putu = some (λ m. handle_user_info m.message_data)
  server_proc_map source rqqb = some (distribute_qubits source)
  server_proc_map source k = none
