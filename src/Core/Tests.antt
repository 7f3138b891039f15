-- ===== src/Core/Tests.antt =====
-- A signed message from Alice to Bob.
use qchat.Prelude.{
  ℕ, ◌+◌, ◌≤◌, ◌<◌, ◌≡◌, refl, ◌⊎◌, true, false, List, [], ◌∷◌, ◌++◌, All, take, drop, length,
  replicate, none, some, Result, ok, err, Error, arith, nat_eq, list_eq,
}
use qchat.Value.{Text, Bytes, Value, bytes, dict, Fields, end, field, codes, get}
use qchat.Messages.{qcht, verify, Message, encode_message}
use qchat.Messages.Encoding.{IsSendable}
use qchat.Connection.{pending, handle_connection}
use qchat.Cryptobox.{sign, new_verifier, verify_signature}
use qchat.Db.{UserDb, get_user, has_user, get_public_key}
use qchat.Core.{Node, Handler, sig_key}
use qchat.Core.Signature.{strip_signature, sign_message}
use qchat.Core.Process.{ProcMap, handle, process_message}
use qchat.Core.Signed.{with_data, process_message_checks}
use qchat.Core.Delivery.{IsKeyPair, signed_message_delivered}
use qchat.Core.Samples.{alice_name, toy_crypto, toy_json, signature, still, bob}

-- A table without handlers: every message is queued as a control message.
abbrev no_handlers : ProcMap
no_handlers k = none

abbrev plain : Message
plain = with_data qcht alice_name end

abbrev carried : Message
carried = with_data qcht alice_name signature

abbrev plain_wire : Bytes
plain_wire = codes "QCHT" ++ (replicate 11 0 ++ codes "alice" ++ (0 ∷ 0 ∷ 0 ∷ 2 ∷ codes "{}"))

encoded : encode_message toy_json carried ≡ ok plain_wire
unfolding encode_message qchat.Value.Utf8.utf8_encode qchat.Value.Words.to_bytes
encoded = refl

signed_by_alice : sign_message toy_json toy_crypto (codes "key") plain ≡ ok carried
unfolding sign_message encode_message qchat.Value.Utf8.utf8_encode qchat.Value.Words.to_bytes sign
    qchat.Core.Signature.set_item qchat.Value.put
signed_by_alice = refl

one_byte : (digest : Bytes) → All (λ b. b < 256) (toy_crypto.pkcs_sign (codes "key") digest)
one_byte digest = omega arith

unsigned : get sig_key end ≡ none
unfolding get
unsigned = refl

is_checked : verify qcht ≡ true
unfolding verify
is_checked = refl

known : has_user alice_name bob.user_db ≡ true
unfolding has_user get_user qchat.Prelude.Dict.lookup
known = refl

found : get_public_key alice_name bob.user_db ≡ ok (bytes (codes "key"))
unfolding get_public_key qchat.Db.known_info qchat.Db.get_or_null get_user qchat.Prelude.Dict.lookup
    get
found = refl

pair : IsKeyPair toy_crypto (codes "key") (codes "key")
pair = record { signature_bytes = one_byte; verifies = λ digest. refl }

carried-IsSendable : IsSendable toy_json carried
unfolding qchat.Value.Utf8.utf8_encode
carried-IsSendable = record {
  name = codes "alice";
  content = codes "{}";
  sender_text = ground arith;
  sender_plain = omega arith;
  sender_some = omega arith;
  named = refl;
  short = omega arith;
  written = refl;
  content_text = ground arith;
  read_back = refl;
}

arrived : pending (take 25 plain_wire ∷ drop 25 plain_wire ∷ []) ≡ plain_wire
unfolding pending
arrived = refl

signed_message_delivered_example :
    (handle_connection toy_json (take 25 plain_wire ∷ drop 25 plain_wire ∷ []) []
      ≡ ok (carried ∷ []))
    × (process_message toy_json toy_crypto still no_handlers carried bob
        ≡ handle toy_json toy_crypto still no_handlers plain bob)
signed_message_delivered_example =
    signed_message_delivered toy_json toy_crypto still no_handlers (codes "key") (codes "key") pair
      bob qcht alice_name end carried (bytes (codes "key")) plain_wire (take 25 plain_wire)
      (drop 25 plain_wire ∷ []) [] is_checked unsigned known found refl signed_by_alice
      carried-IsSendable encoded arrived (omega arith)

process_message_checks_example :
    ((e : Error) × (process_message toy_json toy_crypto still no_handlers carried bob
        ≡ (err e, bob)))
    ⊎ ((m' : Message) × (sig : Bytes) × (bs : Bytes) × (pub_ : Value) × (key : Bytes)
        × (strip_signature carried ≡ ok (m', sig))
        × ((encode_message toy_json m' ≡ ok bs)
            × (get_public_key m'.sender bob.user_db ≡ ok pub_)
            × (new_verifier toy_crypto pub_ ≡ ok key)
            × (verify_signature toy_crypto key bs sig ≡ true))
        × (process_message toy_json toy_crypto still no_handlers carried bob
            ≡ handle toy_json toy_crypto still no_handlers m' bob))
process_message_checks_example =
    process_message_checks toy_json toy_crypto still no_handlers carried bob is_checked known refl
