-- ===== src/Core/Signed.antt =====
-- Signing, stripping and checking: what a signature does for a message on its way.
use qchat.Prelude.{
  ◌<◌, ◌≡◌, refl, ap, sym, ◌∙◌, ◌⊎◌, inl, inr, Bool, true, false, not, [], ◌∷◌, All, none, some, ok,
  err, Error, arith, lt→ltb, >>=-eq-ok, ok-injective, Result-cases, raise_if, exception, nat_eq,
  list_eq, list_beq_iff, ==_self,
}
use qchat.Value.{Text, Bytes, Value, dict, str, Fields, end, field, get, put, remove, get-put}
use qchat.Messages.{Json, Kind, Message, encode_message, verify}
use qchat.Cryptobox.{Crypto, sign, new_verifier, verify_signature}
use qchat.Db.{UserDb, has_user, get_public_key}
use qchat.Core.{
  Node, Environment, ◌>>=◌, >>=-returns, lift, encode_latin, encode_value, pop_item, sig_key,
}
use qchat.Core.Signature.{set_item, strip_signature, sign_message, verify_message}
use qchat.Core.Requests.{ensure_user}
use qchat.Core.Process.{ProcMap, handle, check_and_handle, process_verified, process_message}

pub encode_latin-bytes : (bs : Bytes) → All (λ b. b < 256) bs → encode_latin bs ≡ ok bs
unfolding encode_latin
encode_latin-bytes [] h = refl
encode_latin-bytes (b ∷ bs) h = rw (encode_latin-bytes bs h.1, lt→ltb b 256 h.0) refl

remove-put : (k : Text) (v : Value) (d : Fields) → get k d ≡ none → remove k (put k v d) ≡ d
unfolding get put remove
remove-put k v end h = rw (==_self k) refl
remove-put k v (field j w d) h = ground (arith, list_beq_iff k j, remove-put k v d)

-- A message whose data is a dict.
abbrev pub with_data : Kind → Text → Fields → Message
with_data kind sender d = record { kind = kind; sender = sender; message_data = dict d }

module _ (json : Json) (crypto : Crypto) (key : Bytes) (kind : Kind) (sender : Text)
    (d : Fields) where
  strip_signature-put :
      (sig : Bytes)
      → get sig_key d ≡ none
      → All (λ b. b < 256) sig
      → strip_signature (with_data kind sender (put sig_key (str sig) d))
        ≡ ok (with_data kind sender d, sig)
  unfolding strip_signature pop_item encode_value
  strip_signature-put sig unsigned small =
      let back : get sig_key (put sig_key (str sig) d) ≡ some (str sig) =
        get-put sig_key sig_key (str sig) d in
      rw (back, pop_item)
        (rw (encode_latin-bytes sig small, remove-put sig_key (str sig) d unsigned) refl)

  -- A signed message carries the signature of the message's own encoding, and stripping gives back
  -- the message and that signature.
  pub strip_signature-sign_message :
      (m' : Message)
      → get sig_key d ≡ none
      → ((digest : Bytes) → All (λ b. b < 256) (crypto.pkcs_sign key digest))
      → sign_message json crypto key (with_data kind sender d) ≡ ok m'
      → (bs : Bytes) × (encode_message json (with_data kind sender d) ≡ ok bs)
        × ((m'.kind ≡ kind) × (m'.sender ≡ sender))
        × (strip_signature m' ≡ ok (with_data kind sender d, sign crypto key bs))
  unfolding sign_message set_item sign
  strip_signature-sign_message m' unsigned small h =
      let (bs, coded, rest) = >>=-eq-ok (encode_message json (with_data kind sender d)) _ h in
      let same : record {
        kind = kind;
        sender = sender;
        message_data = dict (put sig_key (str (sign crypto key bs)) d);
      }
          ≡ m' =
        ok-injective rest in
      (
        bs,
        coded,
        (sym (ap (λ m. m.kind) same), sym (ap (λ m. m.sender) same)),
        ap strip_signature (sym same)
            ∙ strip_signature-put (sign crypto key bs) unsigned (small (crypto.sha384 bs)),
      )

verify_message-eq-ok :
    (json : Json) (crypto : Crypto) (db : UserDb) (m : Message) (sig : Bytes)
    → verify_message json crypto db m sig ≡ ok tt
    → (bs : Bytes) × (pub_ : Value) × (key : Bytes) × (encode_message json m ≡ ok bs)
      × (get_public_key m.sender db ≡ ok pub_)
      × (new_verifier crypto pub_ ≡ ok key)
      × (verify_signature crypto key bs sig ≡ true)
unfolding verify_message
verify_message-eq-ok json crypto db m sig h =
    let (bs, coded, h1) = >>=-eq-ok (encode_message json m) _ h in
    let (pub_, found, h2) = >>=-eq-ok (get_public_key m.sender db) _ h1 in
    let (key, imported, h3) = >>=-eq-ok (new_verifier crypto pub_) _ h2 in
    (bs, pub_, key, coded, found, imported, passed (verify_signature crypto key bs sig) h3)
  where
    passed : (b : Bool) → raise_if (not b) exception ≡ ok tt → b ≡ true
    passed true e = refl
    passed false e = cc

pub ensure_user-known :
    (json : Json) (crypto : Crypto) (env : Environment) (user : Text) (s : Node)
    → has_user user s.user_db ≡ true
    → ensure_user json crypto env user s ≡ (ok tt, s)
unfolding ensure_user
ensure_user-known json crypto env user s known = rw known refl

module _ (json : Json) (crypto : Crypto) (env : Environment) (proc_map : ProcMap) (m : Message)
    (s : Node) (checked : verify m.kind ≡ true) (known : has_user m.sender s.user_db ≡ true) where
  pub process_message_known :
      process_message json crypto env proc_map m s
      ≡ (lift (strip_signature m) >>= check_and_handle json crypto env proc_map) s
  unfolding process_message process_verified
  process_message_known = rw checked (
      >>=-returns (ensure_user json crypto env m.sender) _ s
        (ensure_user-known json crypto env m.sender s known))

-- A message of a class that is verified, from a known sender, on a node that does not allow invalid
-- signatures: either the node is left as it was and an exception is raised, or the message carries a
-- signature of its own encoding without the signature, which fits the sender's stored key, and the
-- handler gets the message without the signature.
pub process_message_checks :
    (json : Json) (crypto : Crypto) (env : Environment) (proc_map : ProcMap) (m : Message)
    (s : Node)
    → verify m.kind ≡ true
    → has_user m.sender s.user_db ≡ true
    → s.allow_invalid_signatures ≡ false
    → ((e : Error) × (process_message json crypto env proc_map m s ≡ (err e, s)))
      ⊎ ((m' : Message) × (sig : Bytes) × (bs : Bytes) × (pub_ : Value) × (key : Bytes)
          × (strip_signature m ≡ ok (m', sig))
          × ((encode_message json m' ≡ ok bs)
              × (get_public_key m'.sender s.user_db ≡ ok pub_)
              × (new_verifier crypto pub_ ≡ ok key)
              × (verify_signature crypto key bs sig ≡ true))
          × (process_message json crypto env proc_map m s ≡ handle json crypto env proc_map m' s))
unfolding check_and_handle
process_message_checks json crypto env proc_map m s checked known strict =
    let start = process_message_known json crypto env proc_map m s checked known in
    elim (Result-cases (strip_signature m)) [
      | inl (e, raised) ↦ inl (e, start ∙ rw raised refl)
      | inr ((m', sig), stripped) ↦
          elim (Result-cases (verify_message json crypto s.user_db m' sig)) [
            | inl (e, raised) ↦ inl (e, start ∙ rw (stripped, strict, raised) refl)
            | inr (u, good) ↦
                let (bs, pub_, key, coded, found, imported, fits) =
                  verify_message-eq-ok json crypto s.user_db m' sig good in
                inr (
                  m',
                  sig,
                  bs,
                  pub_,
                  key,
                  stripped,
                  (coded, found, imported, fits),
                  start ∙ rw (stripped, strict, good) refl,
                )
          ]
    ]
