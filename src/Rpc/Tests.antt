-- ===== src/Rpc/Tests.antt =====
-- A server with one client, whose mailbox holds a message that the history cannot show.
use qchat.Prelude.{◌≡◌, refl, [], ◌∷◌, some, ok, err, exception, nat_eq, list_eq}
use qchat.Prelude.Dict.{lookup}
use qchat.Value.{bytes, end}
use qchat.Messages.{mssg, Message}
use qchat.Core.{Node, raise}
use qchat.Core.Signed.{with_data}
use qchat.Core.Samples.{alice_name, bob_name, toy_crypto, toy_json, still, bob}
use qchat.Client.{Protocols}
use qchat.Client.Chat.{read_message}
use qchat.Rpc.{Clients, Outside, rpc_get_messages}
use qchat.Rpc.Loss.{rpc_get_messages_loses}

abbrev no_protocols : Protocols
no_protocols = record {
  Protocol = Unit;
  start = λ c role kwargs info. raise exception;
  execute = λ p. raise exception;
  send_message = λ p message. raise exception;
  receive_message = λ p. raise exception;
}

abbrev outside : Outside
outside = record { read = λ path. err exception; new_key = 1 ∷ [] }

abbrev odd : Message
odd = with_data mssg alice_name end

abbrev holding : Node
holding = record bob { mailbox = record { messages = odd ∷ [] } }

abbrev clients : Clients
clients = (bob_name, holding) ∷ []

there : lookup bob_name clients ≡ some holding
unfolding lookup
there = refl

unreadable : read_message toy_crypto holding.user_db odd ≡ err exception
unfolding read_message
unreadable = refl

rpc_get_messages_loses_example :
    (clients' : Clients) × (rpc_get_messages toy_json toy_crypto still outside no_protocols bob_name
        clients
      ≡ ok ([], clients'))
    × (lookup bob_name clients' ≡ some bob)
    × ((after : Clients) × (rpc_get_messages toy_json toy_crypto still outside no_protocols bob_name
            clients'
          ≡ ok ([], after)))
rpc_get_messages_loses_example =
    rpc_get_messages_loses toy_json toy_crypto still outside no_protocols bob_name clients holding
      (λ m. bytes []) [] [] odd exception there refl tt unreadable
