-- ===== src/Messages/Bounds.antt =====
-- qchat/messages.py: the length and the bytes of an encoded message.
use qchat.Prelude.{
  ℕ, ◌+◌, ◌-◌, ◌≤◌, ◌<◌, ◌≡◌, refl, ◌⊎◌, inl, inr, ◌++◌, All, All-append, length, replicate, ok,
  err, overflow_error, zero, suc, arith, length-append, length-replicate,
}
use qchat.Value.{Bytes}
use qchat.Value.Utf8.{utf8_encode, utf8_encode-IsBytes}
use qchat.Value.Words.{length-to_bytes, to_bytes-IsBytes, to_bytes_four}
use qchat.Messages.{Json, Message, Kind, header, encode_message, or_malformed}
use qchat.Messages.Encoding.{IsSendable, padded_sender_lem, length-header}

header-IsBytes : (k : Kind) → All (λ b. b < 256) (header k)
unfolding header
header-IsBytes Kind.mssg = omega arith
header-IsBytes _ = omega arith

zeros-IsBytes : (n : ℕ) → All (λ b. b < 256) (replicate n 0)
zeros-IsBytes zero = tt
zeros-IsBytes (suc n) = (omega arith, zeros-IsBytes n)

-- A message that the format can carry is encoded as 24 bytes and its data if the data has less than
-- 2^32 bytes; with more data, encoding raises `OverflowError`.
pub encode_message_bounds :
    (json : Json) (m : Message) (s : IsSendable json m) (content : Bytes)
    → utf8_encode s.content ≡ ok content
    → ((length content < 4294967296)
        × (bs : Bytes) × (encode_message json m ≡ ok bs)
        × (length bs ≡ 24 + length content)
        × All (λ b. b < 256) bs)
      ⊎ ((4294967296 ≤ length content) × (encode_message json m ≡ err overflow_error))
unfolding encode_message
encode_message_bounds json m s content coded =
    let start : Bytes = replicate (16 - length s.name) 0 ++ s.name in
    let first = padded_sender_lem m.sender s.name s.named s.short in
    elim (to_bytes_four (length content)) [
      | inl (fits, size, sized) ↦
          let four = length-to_bytes 4 (length content) size sized in
          let sixteen : length start ≡ 16 = omega (
            arith,
            length-append (replicate (16 - length s.name) 0) s.name,
            length-replicate {A = ℕ} (16 - length s.name) 0,
            s.short,
          ) in
          inl (
            fits,
            header m.kind ++ (start ++ (size ++ content)),
            rw (first, s.written) (rw (coded, or_malformed) (rw sized refl)),
            omega (
              arith,
              length-append (header m.kind) (start ++ (size ++ content)),
              length-append start (size ++ content),
              length-append size content,
              length-header m.kind,
              four,
              sixteen,
            ),
            All-append _ (header m.kind) _ (header-IsBytes m.kind) (
                All-append _ start _
                  (All-append _ (replicate (16 - length s.name) 0) s.name
                    (zeros-IsBytes (16 - length s.name))
                    (utf8_encode-IsBytes m.sender s.name s.sender_text s.named))
                  (All-append _ size content (to_bytes-IsBytes 4 (length content) size sized)
                    (utf8_encode-IsBytes s.content content s.content_text coded))),
          )
      | inr (long, raised) ↦
          inr (long, rw (first, s.written) (rw (coded, or_malformed) (rw raised refl)))
    ]
