-- ===== src/Rpc.antt =====
-- qchat/rpc.py, `QChatRPCServer`: the clients by their users, and the two calls. The XML-RPC library
-- hands a call on to the server.
pub mod Cli
pub mod Loss
mod Tests
use qchat.Prelude.{
  Bool, true, false, List, [], ◌∷◌, Option, none, some, Result, ok, err, type_error, ◌>>=◌, nat_eq,
  list_eq, if◌then◌else◌,
}
use qchat.Prelude.Dict.{Dict, lookup, insert}
use qchat.Value.{Text, Bytes, Value, codes}
use qchat.Messages.{Json}
use qchat.Cryptobox.{Crypto}
use qchat.Core.{Node, Environment}
use qchat.Core.Startup.{new_core}
use qchat.Client.{Protocols}
use qchat.Client.Chat.{send_qchat_message, get_message_history}

-- `QChatRPCServer.clients`
abbrev pub Clients : Type 0
Clients = Dict Text Node

-- Python's binding of positional arguments to the parameters of a function, where a parameter without
-- a default is required.
unfoldable pub bind_arguments : {A : Type 0} → List (Text × Bool) → List A → Result (Dict Text A)
bind_arguments [] [] = ok []
bind_arguments [] (argument ∷ arguments) = err type_error
bind_arguments ((parameter, required) ∷ parameters) [] =
    let rest = bind_arguments parameters [] in if required then err type_error else rest
bind_arguments ((parameter, required) ∷ parameters) (argument ∷ arguments) =
    elim (bind_arguments parameters arguments) [
      | err e ↦ err e
      | ok bound ↦ ok ((parameter, argument) ∷ bound)
    ]

-- The parameters of `QChatClient.__init__`, and which of them have no default.
abbrev pub client_parameters : List (Text × Bool)
client_parameters =
    (codes "name", true)
    ∷ (codes "cqc_connection", true)
    ∷ (codes "configFile", false)
    ∷ (codes "allow_invalid_signatures", false)
    ∷ []

-- What the constructor of a client takes from outside: how a file is read, and the signer's new key.
pub record Outside : Type 0 where
  pub read : Text → Result Value
  pub new_key : Bytes

module _ (json : Json) (crypto : Crypto) (env : Environment) (outside : Outside) where
  -- `QChatClient(user)`: the arguments are bound, and the constructor runs with the defaults.
  unfoldable pub new_client : Text → Result Node
  unfolding bind_arguments new_core
  new_client user = do
    bound ← bind_arguments client_parameters (user ∷ [])
    new_core json crypto env outside.read none user false outside.new_key

  -- `_ensure_client_for`, then `self.clients[user]`: the client, and the table with it.
  unfoldable pub ensure_client_for : Text → Clients → Result (Node × Clients)
  unfolding lookup insert new_client
  ensure_client_for user clients = elim (lookup user clients) [
    | none ↦ do client ← new_client user; ok (client, insert user client clients)
    | some client ↦ ok (client, clients)
  ]

  -- The constructor: the client is the user's in the table that all servers share.
  unfoldable pub new_rpc_server : Text → Node → Clients → Result Clients
  unfolding ensure_client_for insert
  new_rpc_server user client clients = do
    (c, clients') ← ensure_client_for user (insert user client clients)
    ok clients'

module _ (json : Json) (crypto : Crypto) (env : Environment) (outside : Outside)
    (protocols : Protocols) where
  -- `send_message`: whether the client has sent it; the client's exceptions are swallowed.
  unfoldable pub rpc_send_message : Text → Text → Text → Bytes → Clients → Result (Bool × Clients)
  unfolding ensure_client_for send_qchat_message insert
  rpc_send_message user destination message nonce clients = do
    (client, clients') ← ensure_client_for json crypto env outside user clients
    let (r, client') = send_qchat_message json crypto env protocols destination message nonce client
    ok (elim r [ ok u ↦ true | err e ↦ false ], insert user client' clients')

  -- `get_messages`: an exception of the client shows no message at all.
  unfoldable pub rpc_get_messages : Text → Clients → Result (Dict Text (List Value) × Clients)
  unfolding ensure_client_for get_message_history insert
  rpc_get_messages user clients = do
    (client, clients') ← ensure_client_for json crypto env outside user clients
    let (r, client') = get_message_history crypto client
    ok (elim r [ ok messages ↦ messages | err e ↦ [] ], insert user client' clients')
