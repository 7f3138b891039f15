-- ===== src/Client/RoundTrip.antt =====
-- A chat message from the client that writes it to the history of the client that reads it.
use mathlib.Core.Path.{subst}
use qchat.Prelude.{
  ◌≤◌, ◌<◌, ◌≡◌, refl, ap, sym, ◌∙◌, true, [], ◌∷◌, All, length, ok, arith, nat_eq, list_eq, le→ltb,
  ltb, ltb→lt, ok-injective, ok≢err, Result-cases, Bool-cases, inl, inr,
}
use qchat.Prelude.Dict.{lookup, insert}
use qchat.Value.{Text, Bytes, Value, bytes, get, subscript}
use qchat.Messages.{Json, qcht, Message, init_message, unpack_message_data}
use qchat.Mailbox.{new_mailbox, store_message, pop_messages}
use qchat.Cryptobox.{Crypto, encrypt, decrypt}
use qchat.Db.{UserDb, get_message_key}
use qchat.Protocols.{truthy}
use qchat.Core.{Node, Environment, resume, item, encode_latin, encode_value}
use qchat.Core.Requests.{own_message}
use qchat.Core.Process.{handle}
use qchat.Core.Signed.{encode_latin-bytes, with_data}
use qchat.Client.{Protocols, store_in_mailbox}
use qchat.Client.Chat.{
  chat_data, create_qchat_message, client_proc_map, latin_item, read_chat, read_message, entries_of,
  append_to, collect_messages, get_message_history,
}

-- What the package documents of AES in GCM mode, for one key and nonce.
pub record IsCipher (crypto : Crypto) (key nonce : Bytes) : Type 0 where
  pub aes : Bytes
  pub opens : crypto.aes_new (bytes key) nonce ≡ ok aes
  pub nonce_bytes : All (λ b. b < 256) nonce
  pub ciphertext_bytes :
      (plain : Bytes)
      → All (λ b. b < 256) plain
      → All (λ b. b < 256) (crypto.gcm_encrypt aes nonce plain).0
  pub tag_bytes :
      (plain : Bytes)
      → All (λ b. b < 256) plain
      → All (λ b. b < 256) (crypto.gcm_encrypt aes nonce plain).1
  pub decrypts :
      (plain : Bytes)
      → All (λ b. b < 256) plain
      → crypto.gcm_decrypt aes nonce (crypto.gcm_encrypt aes nonce plain).0 ≡ plain
  pub authentic :
      (plain : Bytes)
      → All (λ b. b < 256) plain
      → crypto.gcm_verify aes nonce
          (crypto.gcm_encrypt aes nonce plain).0
          (crypto.gcm_encrypt aes nonce plain).1
        ≡ ok tt

truthy-key : (key : Bytes) → 0 < length key → truthy (bytes key) ≡ true
unfolding truthy
truthy-key [] h = absurd (omega arith)
truthy-key (b ∷ key) h = refl

encode_latin-IsBytes : (t : Text) (bs : Bytes) → encode_latin t ≡ ok bs → All (λ b. b < 256) bs
unfolding encode_latin
encode_latin-IsBytes [] bs h = subst (All (λ b. b < 256)) (ok-injective h) tt
encode_latin-IsBytes (c ∷ t) bs h = elim (Result-cases (encode_latin t)) [
  | inl (e, raised) ↦ absurd (ok≢err (sym (rw raised at h)))
  | inr (rest, fine) ↦ elim (Bool-cases (ltb c 256)) [
    | inl small ↦
        subst (All (λ b. b < 256)) (ok-injective (rw (fine, small) at h))
          (ltb→lt c 256 small, encode_latin-IsBytes t rest fine)
    | inr big ↦ absurd (ok≢err (sym (rw (fine, big) at h)))
  ]
]

module _ (json : Json) (crypto : Crypto) (env : Environment) (protocols : Protocols)
    (key nonce : Bytes) (cipher : IsCipher crypto key nonce) where
  abbrev sealed : Bytes → Bytes × Bytes × Bytes
  sealed plain = (
    nonce,
    (crypto.gcm_encrypt cipher.aes nonce plain).0,
    (crypto.gcm_encrypt cipher.aes nonce plain).1,
  )

  create_lem :
      (alice : Node) (user plaintext : Text) (plain : Bytes)
      → get_message_key user alice.user_db ≡ ok (bytes key)
      → 0 < length key
      → length alice.name ≤ 16
      → encode_latin plaintext ≡ ok plain
      → create_qchat_message json crypto env protocols user plaintext nonce alice
        ≡ (ok (with_data qcht alice.name (chat_data (sealed plain))), alice)
  unfolding create_qchat_message encrypt own_message init_message unpack_message_data truthy
  create_lem alice user plaintext plain has_key some_key short latin =
      rw (has_key, resume)
        (rw (truthy-key key some_key) (
          rw (has_key, latin)
            (rw cipher.opens (rw (le→ltb 16 (length alice.name) short, init_message) refl))))

  read_lem :
      (db : UserDb) (sender : Text) (plain : Bytes)
      → All (λ b. b < 256) plain
      → get_message_key sender db ≡ ok (bytes key)
      → read_message crypto db (with_data qcht sender (chat_data (sealed plain))) ≡ ok (bytes plain)
  unfolding read_message read_chat latin_item item subscript get encode_value decrypt
  read_lem db sender plain small has_key =
      rw
        (
          has_key,
          encode_latin-bytes nonce cipher.nonce_bytes,
          encode_latin-bytes _ (cipher.ciphertext_bytes plain small),
          encode_latin-bytes _ (cipher.tag_bytes plain small),
        )
        (rw cipher.opens (rw (cipher.authentic plain small, cipher.decrypts plain small) refl))

  one_message :
      (db : UserDb) (m : Message) (v : Value)
      → read_message crypto db m ≡ ok v
      → collect_messages crypto db (m ∷ []) [] ≡ ok ((m.sender, v ∷ []) ∷ [])
  unfolding collect_messages append_to entries_of insert lookup
  one_message db m v read = rw (read, collect_messages) refl

  -- A chat message of a text that has a Latin-1 encoding, between two clients that store one key for
  -- each other, which is not empty, and the sender's name has at most 16 characters; the cipher opens
  -- with this key and a nonce, gives and takes bytes, and decrypts and accepts what it has encrypted:
  -- the sender's client creates it without raising and without a change of its state,
  -- and when the receiver's client handles it with an empty mailbox, the history is that message
  -- alone, under the sender's name. What it shows are the bytes of the text, not the text.
  pub chat_round_trip :
      (alice bob : Node) (user plaintext : Text) (plain : Bytes)
      → get_message_key user alice.user_db ≡ ok (bytes key)
      → get_message_key alice.name bob.user_db ≡ ok (bytes key)
      → 0 < length key
      → length alice.name ≤ 16
      → encode_latin plaintext ≡ ok plain
      → bob.mailbox ≡ new_mailbox
      → (m : Message) × (bob' : Node) × (create_qchat_message json crypto env protocols user
            plaintext nonce alice
          ≡ (ok m, alice))
        × (handle json crypto env (client_proc_map json crypto env protocols) m bob ≡ (ok tt, bob'))
        × (get_message_history crypto bob' ≡ (ok ((alice.name, bytes plain ∷ []) ∷ []), bob))
  unfolding handle client_proc_map store_in_mailbox store_message get_message_history pop_messages
  chat_round_trip alice bob user plaintext plain sends receives some_key short latin empty =
      let m : Message = with_data qcht alice.name (chat_data (sealed plain)) in
      let read =
        read_lem bob.user_db alice.name plain (encode_latin-IsBytes plaintext plain latin)
          receives in
      (
        m,
        record bob { mailbox = store_message m bob.mailbox },
        create_lem alice user plaintext plain sends some_key short latin,
        refl,
        ap (λ box. get_message_history crypto (record bob { mailbox = store_message m box })) empty
            ∙ ap (λ r. (r, record bob { mailbox = new_mailbox }))
                (one_message bob.user_db m (bytes plain) read)
            ∙ (ap (λ box. (ok ((alice.name, bytes plain ∷ []) ∷ []), record bob { mailbox = box }))
                (sym empty)),
      )
