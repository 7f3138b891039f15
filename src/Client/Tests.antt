-- ===== src/Client/Tests.antt =====
-- Two clients with a common key.
use qchat.Prelude.{
  ℕ, ◌≤◌, ◌<◌, ◌≡◌, refl, true, false, List, [], ◌∷◌, All, length, none, some, Result, ok, err,
  exception, arith, nat_eq, list_eq,
}
use qchat.Prelude.Dict.{Dict}
use qchat.Value.{Text, Value, str, bytes, dict, end, field, codes, subscript, get}
use qchat.Messages.{mssg, spds, Message}
use qchat.Mailbox.{new_mailbox}
use qchat.Db.{UserDb, message_key, get_message_key}
use qchat.Core.{Node, Handler, raise, encode_latin}
use qchat.Core.Process.{handle}
use qchat.Core.Signed.{with_data}
use qchat.Core.Samples.{alice_name, bob_name, toy_crypto, toy_json, still, node, bob}
use qchat.Client.{Protocols, plaintext_key}
use qchat.Client.Chat.{
  create_qchat_message, client_proc_map, read_message, entries_of, get_message_history,
}
use qchat.Client.History.{values_from, get_message_history-readable, get_message_history_loses}
use qchat.Client.RoundTrip.{IsCipher, chat_round_trip}

-- Protocols that fail at once.
abbrev no_protocols : Protocols
no_protocols = record {
  Protocol = Unit;
  start = λ c role kwargs info. raise exception;
  execute = λ p. raise exception;
  send_message = λ p message. raise exception;
  receive_message = λ p. raise exception;
}

cipher : IsCipher toy_crypto (9 ∷ []) (5 ∷ [])
cipher = record {
  aes = 5 ∷ [];
  opens = refl;
  nonce_bytes = (omega arith, tt);
  ciphertext_bytes = λ plain small. small;
  tag_bytes = λ plain small. (omega arith, tt);
  decrypts = λ plain small. refl;
  authentic = λ plain small. refl;
}

abbrev alice : Node
alice = node alice_name ((bob_name, field message_key (bytes (9 ∷ [])) end) ∷ [])

sends : get_message_key bob_name alice.user_db ≡ ok (bytes (9 ∷ []))
unfolding get_message_key qchat.Db.known_info qchat.Db.get_or_null qchat.Db.get_user
    qchat.Prelude.Dict.lookup get
sends = refl

receives : get_message_key alice_name bob.user_db ≡ ok (bytes (9 ∷ []))
unfolding get_message_key qchat.Db.known_info qchat.Db.get_or_null qchat.Db.get_user
    qchat.Prelude.Dict.lookup get
receives = refl

latin : encode_latin (codes "hi") ≡ ok (codes "hi")
unfolding encode_latin
latin = refl

chat_round_trip_example :
    (m : Message) × (bob' : Node) × (create_qchat_message toy_json toy_crypto still no_protocols
        bob_name
        (codes "hi")
        (5 ∷ [])
        alice
      ≡ (ok m, alice))
    × (handle toy_json toy_crypto still
          (client_proc_map toy_json toy_crypto still no_protocols)
          m
          bob
        ≡ (ok tt, bob'))
    × (get_message_history toy_crypto bob' ≡ (ok ((alice_name, bytes (codes "hi") ∷ []) ∷ []), bob))
chat_round_trip_example =
    chat_round_trip toy_json toy_crypto still no_protocols (9 ∷ []) (5 ∷ []) cipher alice bob
      bob_name (codes "hi") (codes "hi") sends receives (omega arith) (omega arith) latin refl

-- Two superdense messages, and one of a class that the history cannot show between them.
abbrev dense : Text → Message
dense t = with_data spds alice_name (field plaintext_key (str t) end)

abbrev odd : Message
odd = with_data mssg alice_name end

abbrev plaintext_of : Value → Value
plaintext_of (dict (field k v d)) = v
plaintext_of v = str []

abbrev value : Message → Value
value m = plaintext_of m.message_data

abbrev holding : List Message → Node
holding ms = record bob { mailbox = record { messages = ms } }

readable : (t : Text) → read_message toy_crypto bob.user_db (dense t) ≡ ok (value (dense t))
unfolding read_message qchat.Core.item subscript get
readable t = refl

get_message_history-readable_example :
    (out : Dict Text (List Value)) × (get_message_history toy_crypto
        (holding (dense (codes "one") ∷ dense (codes "two") ∷ []))
      ≡ (
        ok out,
        record (holding (dense (codes "one") ∷ dense (codes "two") ∷ [])) { mailbox = new_mailbox },
      ))
    × (entries_of alice_name out
        ≡ values_from value alice_name (dense (codes "one") ∷ dense (codes "two") ∷ []))
get_message_history-readable_example =
    get_message_history-readable toy_crypto bob.user_db value
      (holding (dense (codes "one") ∷ dense (codes "two") ∷ [])) alice_name refl
      (readable (codes "one"), (readable (codes "two"), tt))

unreadable : read_message toy_crypto bob.user_db odd ≡ err exception
unfolding read_message
unreadable = refl

get_message_history_loses_example :
    get_message_history toy_crypto (holding (dense (codes "one") ∷ odd ∷ dense (codes "two") ∷ []))
    ≡ (err exception, bob)
get_message_history_loses_example =
    get_message_history_loses toy_crypto bob.user_db value
      (holding (dense (codes "one") ∷ odd ∷ dense (codes "two") ∷ [])) (dense (codes "one") ∷ [])
      (dense (codes "two") ∷ []) odd exception refl refl (readable (codes "one"), tt) unreadable
