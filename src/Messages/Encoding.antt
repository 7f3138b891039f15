-- ===== src/Messages/Encoding.antt =====
-- The layout of an encoded message: header, padded sender, size, data.
use qchat.Prelude.{
  ℕ, zero, suc, ◌-◌, ◌≤◌, ◌<◌, ◌≡◌, refl, ap, sym, ◌∙◌, ◌++◌, All, length, drop, replicate, some,
  Result, ok, err, arith, ok-injective, >>=-eq-ok, nat_eq, list_eq,
}
use qchat.Prelude.Dict.{lookup}
use qchat.Value.{Text, Bytes}
use qchat.Value.Utf8.{utf8_encode, IsText}
use qchat.Value.Words.{to_bytes}
use qchat.Messages.{
  Json, Message, Kind, header, message_mapping, padded_sender, encode_message, or_malformed,
}

-- A message that the wire format can carry: the sender's name is a text without U+0000 that is
-- written in one to sixteen bytes, and its data is what the `json` module reads from what it wrote.
pub record IsSendable (json : Json) (m : Message) : Type 0 where
  pub name : Bytes
  pub content : Text
  pub sender_text : IsText m.sender
  pub sender_plain : All (λ c. 0 < c) m.sender
  pub sender_some : 0 < length m.sender
  pub named : utf8_encode m.sender ≡ ok name
  pub short : length name ≤ 16
  pub written : json.dumps m.message_data ≡ ok content
  pub content_text : IsText content
  pub read_back : json.loads content ≡ ok m.message_data

drop-replicate :
    (k n : ℕ) (bs : Bytes) → k ≤ n → drop k (replicate n 0 ++ bs) ≡ replicate (n - k) 0 ++ bs
drop-replicate zero n bs h = (let e : n ≡ n - 0 = omega arith in ap (λ j. replicate j 0 ++ bs) e)
drop-replicate (suc k) zero bs h = absurd (omega arith)
drop-replicate (suc k) (suc n) bs h =
    let e : n - k ≡ suc n - suc k = omega arith in
    drop-replicate k n bs (omega arith) ∙ ap (λ j. replicate j 0 ++ bs) e

pub padded_sender_lem :
    (sender : Text) (name : Bytes)
    → utf8_encode sender ≡ ok name
    → length name ≤ 16
    → padded_sender sender ≡ ok (replicate (16 - length name) 0 ++ name)
unfolding padded_sender
padded_sender_lem sender name e h =
    let size : length (replicate 16 0 ++ name) - 16 ≡ length name = omega arith in
    rw (e, size) (ap ok (drop-replicate (length name) 16 name h))

-- Every class is found again by its header, which is four bytes long.
pub lookup-header : (k : Kind) → lookup (header k) message_mapping ≡ some k
unfolding lookup message_mapping header
lookup-header Kind.mssg = refl
lookup-header _ = refl

pub length-header : (k : Kind) → length (header k) ≡ 4
unfolding header
length-header Kind.mssg = refl
length-header _ = refl

pub or_malformed-eq-ok {ℓ} : {A : Type ℓ} {a : A} (r : Result A) → or_malformed r ≡ ok a → r ≡ ok a
or_malformed-eq-ok (ok b) h = h
or_malformed-eq-ok (err e) h = cc

-- An encoded message, part by part.
pub encode_message-eq-ok :
    (json : Json) (m : Message) (bs : Bytes) (s : IsSendable json m)
    → encode_message json m ≡ ok bs
    → (size : Bytes) × (content : Bytes) × (utf8_encode s.content ≡ ok content)
      × (to_bytes 4 (length content) ≡ ok size)
      × (bs ≡ header m.kind ++ ((replicate (16 - length s.name) 0 ++ s.name) ++ (size ++ content)))
unfolding encode_message
encode_message-eq-ok json m bs s e =
    let start : Bytes = replicate (16 - length s.name) 0 ++ s.name in
    let e' = rw (padded_sender_lem m.sender s.name s.named s.short, s.written) at e in
    let (content, coded, rest) = >>=-eq-ok (or_malformed (utf8_encode s.content)) _ e' in
    let (size, sized, same) = >>=-eq-ok (to_bytes 4 (length content)) _ rest in
    (
      size,
      content,
      or_malformed-eq-ok (utf8_encode s.content) coded,
      sized,
      sym (ok-injective same),
    )
