-- ===== src/Client/Chat.antt =====
-- qchat/client.py: chat messages, superdense messages, the message history, and the client's table
-- of handlers.
use qchat.Prelude.{
  Bool, true, false, not, List, [], ◌∷◌, ◌++◌, Option, none, some, Result, ok, err, exception,
  nat_eq, list_eq, if◌then◌else◌,
}
use qchat.Prelude.Dict.{Dict, lookup, insert}
use qchat.Value.{Text, Bytes, Value, str, bytes, pos, Fields, end, field}
use qchat.Messages.{Json, qcht, spds, getu, putu, ptcl, Message}
use qchat.Mailbox.{pop_messages}
use qchat.Cryptobox.{Crypto, encrypt, decrypt}
use qchat.Db.{UserDb, get_message_key}
use qchat.Protocols.{leader, truthy}
use qchat.Protocols.Factory.{bb84_purified, super_dense_coding}
use qchat.Core.{
  Environment, Handler, lift, ◌>>=◌, ◌>>◌, skip, get_node, item, encode_latin, encode_value,
}
use qchat.Core.Users.{handle_user_info}
use qchat.Core.Requests.{ensure_user, handle_info_request, own_message, send_message}
use qchat.Core.Process.{ProcMap}
use qchat.Client.{
  Protocols, plaintext_key, nonce_key, ciphertext_key, tag_key, info_of_peer, store_in_mailbox,
  follow_protocol, establish_key,
}
use qchat.Prelude

-- The data of a chat message.
abbrev pub chat_data : Bytes × Bytes × Bytes → Fields
chat_data (nonce, ciphertext, tag) =
    field nonce_key (str nonce)
      (field ciphertext_key (str ciphertext) (field tag_key (str tag) end))

-- `qm.data[k].encode("ISO-8859-1")`
unfoldable pub latin_item : Text → Message → Result Bytes
unfolding item encode_value
latin_item k qm = Prelude.◌>>=◌ (item k qm.message_data) encode_value

-- `messages[sender]`, a `defaultdict(list)`, and its `append`
unfoldable pub entries_of : Text → Dict Text (List Value) → List Value
unfolding lookup
entries_of sender messages = elim (lookup sender messages) [ none ↦ [] | some vs ↦ vs ]

unfoldable pub append_to : Text → Value → Dict Text (List Value) → Dict Text (List Value)
unfolding entries_of insert
append_to sender v messages = insert sender (entries_of sender messages ++ v ∷ []) messages

module _ (json : Json) (crypto : Crypto) (env : Environment) (protocols : Protocols) where
  -- `createQChatMessage`, with the nonce that the cipher draws
  unfoldable pub create_qchat_message : Text → Text → Bytes → Handler Message
  unfolding get_message_key establish_key encode_latin encrypt own_message truthy
  create_qchat_message user plaintext nonce = do
    node ← get_node
    user_key ← lift (get_message_key user node.user_db)
    if truthy user_key then skip else establish_key json protocols user (pos 16) bb84_purified
    node' ← get_node
    key ← lift (get_message_key user node'.user_db)
    plain ← lift (encode_latin plaintext)
    encrypted ← lift (encrypt crypto key nonce plain)
    own_message json crypto env qcht (chat_data encrypted)

  -- `sendQChatMessage`
  unfoldable pub send_qchat_message : Text → Text → Bytes → Handler (Unit {0})
  unfolding ensure_user create_qchat_message send_message
  send_qchat_message user plaintext nonce = do
    ensure_user json crypto env user
    message ← create_qchat_message user plaintext nonce
    send_message json crypto env user message

  -- `sendSuperDenseMessage`
  unfoldable pub send_super_dense_message : Text → Text → Handler (Unit {0})
  unfolding ensure_user info_of_peer encode_latin
  send_super_dense_message user plaintext = do
    ensure_user json crypto env user
    info ← info_of_peer user
    p ← protocols.start super_dense_coding leader end info
    message ← lift (encode_latin plaintext)
    protocols.send_message p message

  unfoldable pub client_proc_map : ProcMap
  unfolding store_in_mailbox handle_info_request handle_user_info follow_protocol
  client_proc_map qcht = some store_in_mailbox
  client_proc_map getu = some (λ m. handle_info_request json crypto env m.message_data)
  client_proc_map putu = some (λ m. handle_user_info m.message_data)
  client_proc_map ptcl = some (follow_protocol json protocols)
  client_proc_map k = none

module _ (crypto : Crypto) where
  -- A chat message, decrypted with the key of its sender.
  unfoldable pub read_chat : UserDb → Message → Result Value
  unfolding get_message_key item encode_value decrypt
  read_chat db qm = Prelude.◌>>=◌ (get_message_key qm.sender db) (λ user_key.
      Prelude.◌>>=◌ (latin_item nonce_key qm) (λ nonce.
        Prelude.◌>>=◌ (latin_item ciphertext_key qm) (λ ciphertext.
          Prelude.◌>>=◌ (latin_item tag_key qm) (λ tag.
            Prelude.◌>>=◌ (decrypt crypto user_key (nonce, ciphertext, tag))
              (λ message. ok (bytes message))))))

  -- What the history shows of a message in the mailbox.
  unfoldable pub read_message : UserDb → Message → Result Value
  unfolding read_chat item
  read_message db qm = elim qm.kind [
    | qcht ↦ read_chat db qm
    | spds ↦ item plaintext_key qm.message_data
    | _ ↦ err exception
  ]

  -- The loop over the messages, on `messages` so far.
  unfoldable pub collect_messages :
      UserDb → List Message → Dict Text (List Value) → Result (Dict Text (List Value))
  unfolding read_message append_to
  collect_messages db [] messages = ok messages
  collect_messages db (qm ∷ qms) messages = elim (read_message db qm) [
    | err e ↦ err e
    | ok message ↦ collect_messages db qms (append_to qm.sender message messages)
  ]

  -- `getMessageHistory`: the mailbox is emptied before a message is read.
  unfoldable pub get_message_history : Handler (Dict Text (List Value))
  unfolding collect_messages pop_messages
  get_message_history s =
      let (out, box) = pop_messages s.mailbox in
      (collect_messages s.user_db out [], record s { mailbox = box })
