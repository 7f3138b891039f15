-- ===== src/Rpc/Loss.antt =====
-- What a call for the messages returns when one of them cannot be read.
use qchat.Prelude.{
  ◌≡◌, refl, ap, ◌∙◌, ==_self, List, [], ◌∷◌, ◌++◌, All, some, Result, ok, err, Error, ◌>>=◌,
  nat_eq, list_eq,
}
use qchat.Prelude.Dict.{Dict, lookup, insert, lookup-insert}
use qchat.Value.{Text, Value}
use qchat.Messages.{Json, Message}
use qchat.Mailbox.{new_mailbox, pop_messages}
use qchat.Cryptobox.{Crypto}
use qchat.Core.{Node, Environment}
use qchat.Client.{Protocols}
use qchat.Client.Chat.{read_message, collect_messages, get_message_history}
use qchat.Client.History.{IsReadable, get_message_history_loses}
use qchat.Rpc.{Clients, Outside, ensure_client_for, rpc_get_messages}

module _ (json : Json) (crypto : Crypto) (env : Environment) (outside : Outside)
    (protocols : Protocols) (user : Text) where
  abbrev shown : Result (Dict Text (List Value)) → Dict Text (List Value)
  shown (ok messages) = messages
  shown (err e) = []

  abbrev call_result : Clients → Node → Dict Text (List Value) × Clients
  call_result clients client = (
    shown (get_message_history crypto client).0,
    insert user (get_message_history crypto client).1 clients,
  )

  ensure_client_for-known :
      (clients : Clients) (client : Node)
      → lookup user clients ≡ some client
      → ensure_client_for json crypto env outside user clients ≡ ok (client, clients)
  unfolding ensure_client_for
  ensure_client_for-known clients client there = rw (there, ensure_client_for) refl

  call_known :
      (clients : Clients) (client client' : Node) (r : Result (Dict Text (List Value)))
      → lookup user clients ≡ some client
      → get_message_history crypto client ≡ (r, client')
      → rpc_get_messages json crypto env outside protocols user clients
        ≡ ok (shown r, insert user client' clients)
  unfolding rpc_get_messages
  call_known clients client client' r there run =
      ap (λ o. (o >>= λ c. ok (call_result c.1 c.0))) (ensure_client_for-known clients client there)
      ∙ ap (λ q. ok (shown q.0, insert user q.1 clients)) run

  no_messages :
      (client : Node)
      → get_message_history crypto (record client { mailbox = new_mailbox })
        ≡ (ok [], record client { mailbox = new_mailbox })
  unfolding get_message_history collect_messages pop_messages
  no_messages client = refl

-- One message in a user's mailbox that cannot be read, after others that can: the call returns no
-- message at all and no error, the user's client has an empty mailbox, and the next call returns no
-- message either.
pub rpc_get_messages_loses :
    (json : Json) (crypto : Crypto) (env : Environment) (outside : Outside) (protocols : Protocols)
    (user : Text) (clients : Clients) (client : Node) (value : Message → Value)
    (before after : List Message) (bad : Message) (e : Error)
    → lookup user clients ≡ some client
    → client.mailbox.messages ≡ before ++ bad ∷ after
    → All (IsReadable crypto client.user_db value) before
    → read_message crypto client.user_db bad ≡ err e
    → (clients' : Clients) × (rpc_get_messages json crypto env outside protocols user clients
        ≡ ok ([], clients'))
      × (lookup user clients' ≡ some (record client { mailbox = new_mailbox }))
      × ((after : Clients) × (rpc_get_messages json crypto env outside protocols user clients'
            ≡ ok ([], after)))
rpc_get_messages_loses json crypto env outside protocols user clients client value before after bad
      e there held h raised =
    let empty : Node = record client { mailbox = new_mailbox } in
    let stored : lookup user (insert user empty clients) ≡ some empty =
      lookup-insert user user empty clients ∙ rw ==_self refl in
    (
      insert user empty clients,
      call_known json crypto env outside protocols user clients client empty (err e) there (
          get_message_history_loses crypto client.user_db value client before after bad e refl held
            h raised),
      stored,
      (
        insert user empty (insert user empty clients),
        call_known json crypto env outside protocols user (insert user empty clients) empty empty
            (ok []) stored (no_messages json crypto env outside protocols user client),
      ),
    )
