-- ===== src/Connection/RoundTrip.antt =====
-- A message that one host encodes and sends is the message that the other host queues.
use qchat.Prelude.{
  ℕ, zero, suc, ◌-◌, ◌≤◌, ◌<◌, ◌≡◌, refl, ap, sym, ◌∙◌, List, [], ◌∷◌, ◌++◌, All, length, take,
  drop, replicate, ok, arith, length-append, length-replicate, append-nil, length-eq-zero,
  length-drop, nat_beq_ne, ◌≢◌, le→ltb,
}
use qchat.Value.{Bytes}
use qchat.Value.Utf8.{utf8_encode, utf8_decode-encode, utf8_encode-nonzero, length-le-utf8_encode}
use qchat.Value.Words.{to_bytes, length-to_bytes, from_bytes-to_bytes}
use qchat.Messages.{
  Json, Message, raw, header, encode_message, create_message, init_message, unpack_message_data,
}
use qchat.Messages.Encoding.{IsSendable, lookup-header, length-header, encode_message-eq-ok}
use qchat.Connection.{Socket, recv, pending, recv_data, remove_zeros, receive, handle_connection}
use qchat.Connection.Stream.{recv_within, recv-end, recv_data_lem}

-- Two ways to cut one list: the shorter front is a front of the longer one.
cut :
    (xs ys fs rs : Bytes)
    → length fs ≤ length xs
    → xs ++ ys ≡ fs ++ rs
    → (take (length fs) xs ≡ fs) × (drop (length fs) xs ++ ys ≡ rs)
cut xs ys [] rs h e = (refl, e)
cut [] ys (f ∷ fs) rs h e = absurd (omega arith)
cut (x ∷ xs) ys (f ∷ fs) rs h e =
    let (front, back) = cut xs ys fs rs (omega arith) (cc) in (cc, back)

-- A field that lies within the first segment is read whole.
recv_field :
    (n : ℕ) (seg : Bytes) (segments : Socket) (fs rs : Bytes)
    → length fs ≡ n
    → 0 < n
    → n ≤ length seg
    → seg ++ pending segments ≡ fs ++ rs
    → (recv n (seg ∷ segments) ≡ (fs, drop n seg ∷ segments))
      × (drop n seg ++ pending segments ≡ rs)
recv_field n seg segments fs rs len pos h e =
    let (front, back) = cut seg (pending segments) fs rs (omega arith) e in
    (
      recv_within n seg segments (omega arith)
          ∙ ap (λ x. (x, drop n seg ∷ segments)) (rw len at front),
      rw len at back,
    )

remove_zeros-padding :
    (n : ℕ) (name : Bytes) → All (λ b. 0 < b) name → remove_zeros (replicate n 0 ++ name) ≡ name
unfolding remove_zeros
remove_zeros-padding zero [] h = refl
remove_zeros-padding zero (b ∷ name) h = ground (arith, remove_zeros-padding zero name h.1)
remove_zeros-padding (suc n) name h = remove_zeros-padding n name h

-- The data loop, when exactly the asked bytes are left.
recv_data_exact :
    (body : Bytes) (conn : Socket)
    → pending conn ≡ body
    → (conn' : Socket) × (recv_data (suc (length (pending conn))) (length body) [] conn
        ≡ ok (body, conn'))
      × (pending conn' ≡ [])
recv_data_exact body conn e =
    let (got, conn', run, split, long) =
      recv_data_lem (suc (length (pending conn))) (length body) [] conn (omega arith)
        (omega (arith, ap length e)) in
    let done : pending conn' ≡ [] =
      length-eq-zero (pending conn')
        (omega (arith, ap length e, ap length split, length-append got (pending conn'))) in
    (
      conn',
      run
          ∙ ap (λ x. ok (x, conn'))
              (sym (append-nil got) ∙ ap (λ x. got ++ x) (sym done) ∙ split ∙ e),
      done,
    )

module _ (json : Json) (m : Message) (s : IsSendable json m) where
  create_message-header :
      (content : Bytes)
      → utf8_encode s.content ≡ ok content
      → create_message json (header m.kind) m.sender (raw content) ≡ ok m
  unfolding create_message init_message unpack_message_data
  create_message-header content e =
      let fits : length m.sender ≤ 16 =
        omega (arith, length-le-utf8_encode m.sender s.name s.named, s.short) in
      rw (lookup-header m.kind, create_message)
        (rw (
          le→ltb 16 (length m.sender) fits,
          utf8_decode-encode s.content content s.content_text e,
          s.read_back,
        ))

  -- What `receive` reads when the fields before the data lie in the first segment.
  receive_lem :
      (seg : Bytes) (segments : Socket) (size content : Bytes)
      → 24 ≤ length seg
      → utf8_encode s.content ≡ ok content
      → to_bytes 4 (length content) ≡ ok size
      → seg ++ pending segments
        ≡ header m.kind ++ ((replicate (16 - length s.name) 0 ++ s.name) ++ (size ++ content))
      → receive json (seg ∷ segments) ≡ ok m
  unfolding receive pending
  receive_lem seg segments size content fits coded sized e =
      let padded : Bytes = replicate (16 - length s.name) 0 ++ s.name in
      let padded_len : length padded ≡ 16 = omega (
        arith,
        length-append (replicate (16 - length s.name) 0) s.name,
        length-replicate {A = ℕ} (16 - length s.name) 0,
        s.short,
      ) in
      let size_len : length size ≡ 4 = length-to_bytes 4 (length content) size sized in
      let sender_ne : length m.sender ≢ 0 = omega (arith, s.sender_some) in
      let (r1, e1) =
        recv_field 4 seg segments (header m.kind) (padded ++ (size ++ content))
          (length-header m.kind) (omega arith) (omega arith) e in
      let (r2, e2) =
        recv_field 16 (drop 4 seg) segments padded (size ++ content) padded_len (omega arith)
          (omega (arith, length-drop 4 seg)) e1 in
      let (r3, e3) =
        recv_field 4 (drop 16 (drop 4 seg)) segments size content size_len (omega arith)
          (omega (arith, length-drop 4 seg, length-drop 16 (drop 4 seg))) e2 in
      let (conn', r4, end) =
        recv_data_exact content (drop 4 (drop 16 (drop 4 seg)) ∷ segments) e3 in
      rw
        (
          r1,
          lookup-header m.kind,
          r2,
          padded_len,
          remove_zeros-padding (16 - length s.name) s.name
              (utf8_encode-nonzero m.sender s.name s.sender_text s.sender_plain s.named),
          utf8_decode-encode m.sender s.name s.sender_text s.named,
          r3,
        )
        (rw
          (
            nat_beq_ne (length m.sender) 0 sender_ne,
            size_len,
            from_bytes-to_bytes (length content) size sized,
            r4,
            le→ltb (length content) (length content) (omega arith),
            recv-end 1 conn' end,
          )
          (create_message-header content coded))

-- The wire format round trip: whatever a host encodes of a message that the format can carry,
-- another host that receives those bytes appends that very message to its queue. The bytes may
-- arrive in segments of any size, as long as the first holds the 24 bytes before the data.
pub handle_connection-encode_message :
    (json : Json) (m : Message) (bytes : Bytes) (seg : Bytes) (segments : Socket)
    (message_queue : List Message)
    → IsSendable json m
    → encode_message json m ≡ ok bytes
    → pending (seg ∷ segments) ≡ bytes
    → 24 ≤ length seg
    → handle_connection json (seg ∷ segments) message_queue ≡ ok (message_queue ++ m ∷ [])
unfolding handle_connection pending
handle_connection-encode_message json m bytes seg segments message_queue s e arrives fits =
    let (size, content, coded, sized, same) = encode_message-eq-ok json m bytes s e in
    rw (receive_lem json m s seg segments size content fits coded sized (arrives ∙ same))
