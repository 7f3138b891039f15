-- ===== src/Connection/Delivered.antt =====
-- The other direction: whatever reaches the queue came as a whole and well-formed message; and
-- what happens to a header that arrives in two segments.
use qchat.Prelude.{
  ℕ, suc, ◌≤◌, ◌<◌, ◌≡◌, ◌≢◌, refl, ap, ap₂, sym, ◌∙◌, false, not, ◌||◌, List, [], ◌∷◌, ◌++◌,
  length, length-take, take, some, ok, err, connection_error, malformed, ok≢err, arith, append-nil,
  nat_beq, nat_beq_iff, nat_eq, list_eq, raise_if-eq-ok, >>=-eq-ok, ok-injective, ltb, ltb→ge,
  Option-cases, inl, inr,
}
use mathlib.Core.Bool.{false≢true}
use qchat.Prelude.Dict.{lookup, lookup-All}
use qchat.Value.{Text, Bytes}
use qchat.Value.Utf8.{utf8_decode}
use qchat.Value.Words.{from_bytes}
use qchat.Messages.{
  Json, Message, Kind, raw, header, message_mapping, create_message, init_message,
  unpack_message_data,
}
use qchat.Messages.Encoding.{length-header}
use qchat.Connection.{
  Socket, recv, pending, recv_data, remove_zeros, is_empty, is_none, receive, handle_connection,
}
use qchat.Connection.Stream.{recv_within, recv-pending, recv-empty, recv_data-eq-ok}

-- A header that the factory knows is the header of the class that it names.
lookup-message_mapping :
    (head : Bytes) (k : Kind) → lookup head message_mapping ≡ some k → head ≡ header k
unfolding message_mapping header
lookup-message_mapping head k found =
    lookup-All (λ h k'. h ≡ header k') head k message_mapping
      (refl, (refl, (refl, (refl, (refl, (refl, (refl, (refl, (refl, (refl, (refl, tt)))))))))))
      found

-- The parts of a stream that carries the message `m` and nothing else.
pub record Carries (json : Json) (stream : Bytes) (m : Message) : Type 0 where
  pub padded : Bytes
  pub size : Bytes
  pub content : Bytes
  pub whole : stream ≡ header m.kind ++ (padded ++ (size ++ content))
  pub padded_length : length padded ≡ 16
  pub size_length : length size ≡ 4
  pub content_length : length content ≡ from_bytes size
  pub named : utf8_decode (remove_zeros padded) ≡ ok m.sender
  pub sender_some : length m.sender ≢ 0
  pub sender_short : length m.sender ≤ 16
  pub unpacked : unpack_message_data json (raw content) ≡ ok m.message_data

create_message-eq-ok :
    (json : Json) (head : Bytes) (sender : Text) (content : Bytes) (m : Message)
    → create_message json head sender (raw content) ≡ ok m
    → (head ≡ header m.kind)
      × (m.sender ≡ sender)
      × (length sender ≤ 16)
      × (unpack_message_data json (raw content) ≡ ok m.message_data)
unfolding create_message init_message
create_message-eq-ok json head sender content m h =
    elim (Option-cases (lookup head message_mapping)) [
      | inl missing ↦ absurd (ok≢err (sym (rw (missing, create_message) at h)))
      | inr (k, found) ↦
          let (short, rest) =
            raise_if-eq-ok (ltb 16 (length sender)) malformed _ (rw (found, create_message) at h) in
          let (d, unpacked, same) = >>=-eq-ok (unpack_message_data json (raw content)) _ rest in
          let built = ok-injective same in
          (
            lookup-message_mapping head k found ∙ ap (λ x. header x.kind) built,
            sym (ap (λ x. x.sender) built),
            ltb→ge 16 (length sender) short,
            unpacked ∙ ap (λ x. ok x.message_data) built,
          )
    ]

same_number : (a b : ℕ) → not (nat_beq a b) ≡ false → a ≡ b
same_number a b h = ground arith

-- The last check of the handler: no byte too many, and none left.
ended :
    (n : ℕ) (read : Bytes × Socket)
    → (ltb n (length read.0) || not (is_empty (recv 1 read.1).0)) ≡ false
    → (length read.0 ≤ n) × (pending read.1 ≡ [])
ended n read h = (ground arith, recv-empty 1 read.1 (omega arith) (ground arith))

receive-Carries :
    (json : Json) (conn : Socket) (m : Message)
    → receive json conn ≡ ok m
    → Carries json (pending conn) m
unfolding receive
receive-Carries json conn m h =
    let head : Bytes = (recv 4 conn).0 in
    let conn_1 : Socket = (recv 4 conn).1 in
    let padded : Bytes = (recv 16 conn_1).0 in
    let conn_2 : Socket = (recv 16 conn_1).1 in
    let size : Bytes = (recv 4 conn_2).0 in
    let conn_3 : Socket = (recv 4 conn_2).1 in
    let n : ℕ = from_bytes size in
    let (_, h1) = raise_if-eq-ok (is_none (lookup head message_mapping)) connection_error _ h in
    let (wide, h2) = raise_if-eq-ok (not (nat_beq (length padded) 16)) connection_error _ h1 in
    let (sender, decoded, h3) = >>=-eq-ok (utf8_decode (remove_zeros padded)) _ h2 in
    let (some_name, h4) = raise_if-eq-ok (nat_beq (length sender) 0) connection_error _ h3 in
    let (four, h5) = raise_if-eq-ok (not (nat_beq (length size) 4)) connection_error _ h4 in
    let (read, looped, h6) =
      >>=-eq-ok (recv_data (suc (length (pending conn_3))) n [] conn_3) _ h5 in
    let (exact, h7) =
      raise_if-eq-ok (ltb n (length read.0) || not (is_empty (recv 1 read.1).0)) connection_error _
        h6 in
    let (body_read, long) = recv_data-eq-ok n conn_3 read looped in
    let (fits, closed) = ended n read exact in
    let (known, named, short, unpacked) = create_message-eq-ok json head sender read.0 m h7 in
    record {
      padded = padded;
      size = size;
      content = read.0;
      whole =
          sym (recv-pending 4 conn)
          ∙ ap₂ (λ a b. a ++ b) known
              (sym (recv-pending 16 conn_1)
                ∙ ap (λ b. padded ++ b)
                    (sym (recv-pending 4 conn_2)
                      ∙ ap (λ b. size ++ b)
                          (sym body_read ∙ ap (λ b. read.0 ++ b) closed ∙ append-nil read.0)));
      padded_length = same_number _ _ wide;
      size_length = same_number _ _ four;
      content_length = omega arith;
      named = decoded ∙ ap ok (sym named);
      sender_some = λ e.
          false≢true
            (sym some_name ∙ (nat_beq_iff (length sender) 0).1 (ap length (sym named) ∙ e));
      sender_short = omega (arith, ap length named);
      unpacked = unpacked;
    }

-- Soundness of the handler: when it returns, the queue has grown by one message at its end, and
-- the stream was exactly this: the header of the message's class, sixteen bytes that hold a name
-- of one to sixteen characters, the size, and as many bytes of data as the size says, which the
-- class unpacks to the message's data.
pub handle_connection_sound :
    (json : Json) (conn : Socket) (message_queue queue' : List Message)
    → handle_connection json conn message_queue ≡ ok queue'
    → (m : Message) × (queue' ≡ message_queue ++ m ∷ []) × Carries json (pending conn) m
unfolding handle_connection
handle_connection_sound json conn message_queue queue' h =
    let (m, got, same) = >>=-eq-ok (receive json conn) _ h in
    (m, sym (ok-injective same), receive-Carries json conn m got)

-- A header whose first segment holds one to three bytes is taken for a wrong one, whatever follows: `recv` returns
-- its first part alone.
pub handle_connection_split_header :
    (json : Json) (seg : Bytes) (segments : Socket) (message_queue : List Message)
    → 0 < length seg
    → length seg < 4
    → handle_connection json (seg ∷ segments) message_queue ≡ err connection_error
unfolding handle_connection receive
handle_connection_split_header json seg segments message_queue some_bytes few =
    elim (Option-cases (lookup (take 4 seg) message_mapping)) [
      | inl missing ↦ rw (recv_within 4 seg segments some_bytes, missing)
      | inr (k, found) ↦ absurd (
          omega (
            arith,
            length-take 4 seg,
            ap length (lookup-message_mapping (take 4 seg) k found),
            length-header k,
          ))
    ]
