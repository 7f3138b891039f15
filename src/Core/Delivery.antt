-- ===== src/Core/Delivery.antt =====
-- From one node's signer to another node's handler.
use qchat.Prelude.{
  ◌≤◌, ◌<◌, ◌≡◌, refl, ap, ◌∙◌, true, List, [], ◌∷◌, ◌++◌, All, length, none, ok, raise_if,
  Bool-cases, inl, inr,
}
use qchat.Value.{Text, Bytes, Value, Fields, get}
use qchat.Messages.{Json, Kind, Message, encode_message, verify}
use qchat.Messages.Encoding.{IsSendable}
use qchat.Connection.{Socket, pending, handle_connection}
use qchat.Connection.RoundTrip.{handle_connection-encode_message}
use qchat.Cryptobox.{Crypto, sign, new_verifier, verify_signature}
use qchat.Db.{has_user, get_public_key}
use qchat.Core.{Node, Environment, sig_key}
use qchat.Core.Signature.{sign_message, verify_message}
use qchat.Core.Process.{ProcMap, handle, check_and_handle, process_message}
use qchat.Core.Signed.{with_data, strip_signature-sign_message, process_message_known}

-- A signing key and a public key that belong together, as the package documents them.
pub record IsKeyPair (crypto : Crypto) (key pubkey : Bytes) : Type 0 where
  pub signature_bytes : (digest : Bytes) → All (λ b. b < 256) (crypto.pkcs_sign key digest)
  pub verifies :
      (digest : Bytes) → crypto.pkcs_verify pubkey digest (crypto.pkcs_sign key digest) ≡ ok tt

module _ (json : Json) (crypto : Crypto) (env : Environment) (proc_map : ProcMap)
    (key pubkey : Bytes) (pair : IsKeyPair crypto key pubkey) (s : Node) where
  verify_message-sign :
      (m : Message) (bs : Bytes) (pub_ : Value)
      → encode_message json m ≡ ok bs
      → get_public_key m.sender s.user_db ≡ ok pub_
      → crypto.import_key pub_ ≡ ok pubkey
      → verify_message json crypto s.user_db m (sign crypto key bs) ≡ ok tt
  unfolding verify_message sign new_verifier verify_signature
  verify_message-sign m bs pub_ coded found imported =
      rw (coded, found) (rw imported (rw (pair.verifies (crypto.sha384 bs), raise_if) refl))

  accepted :
      (m : Message) (sig : Bytes)
      → verify_message json crypto s.user_db m sig ≡ ok tt
      → check_and_handle json crypto env proc_map (m, sig) s ≡ handle json crypto env proc_map m s
  unfolding check_and_handle
  accepted m sig good = elim (Bool-cases s.allow_invalid_signatures) [
    | inl lax ↦ rw lax refl
    | inr strict ↦ rw (strict, good) refl
  ]

  -- End to end: a message of a class that is verified, signed with a key of which the receiver stores
  -- the public key, and carried by the wire format in segments of which the first holds the 24 bytes
  -- before the data, is queued as it was sent; and processing it is handling the message as it was
  -- before it was signed.
  pub signed_message_delivered :
      (kind : Kind) (sender : Text) (d : Fields) (m' : Message) (pub_ : Value) (bytes seg : Bytes)
      (segments : Socket) (queue : List Message)
      → verify kind ≡ true
      → get sig_key d ≡ none
      → has_user sender s.user_db ≡ true
      → get_public_key sender s.user_db ≡ ok pub_
      → crypto.import_key pub_ ≡ ok pubkey
      → sign_message json crypto key (with_data kind sender d) ≡ ok m'
      → IsSendable json m'
      → encode_message json m' ≡ ok bytes
      → pending (seg ∷ segments) ≡ bytes
      → 24 ≤ length seg
      → (handle_connection json (seg ∷ segments) queue ≡ ok (queue ++ m' ∷ []))
        × (process_message json crypto env proc_map m' s
            ≡ handle json crypto env proc_map (with_data kind sender d) s)
  signed_message_delivered kind sender d m' pub_ bytes seg segments queue checked unsigned known
        found imported signed sendable coded arrives fits =
      let (bs, plain, same, stripped) =
        strip_signature-sign_message json crypto key kind sender d m' unsigned pair.signature_bytes
          signed in
      let m : Message = with_data kind sender d in
      (
        handle_connection-encode_message json m' bytes seg segments queue sendable coded arrives
            fits,
        process_message_known json crypto env proc_map m' s (ap verify same.0 ∙ checked)
              (ap (λ u. has_user u s.user_db) same.1 ∙ known)
            ∙ rw stripped (
                accepted m (sign crypto key bs)
                  (verify_message-sign m bs pub_ plain found imported)),
      )
