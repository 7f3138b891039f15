-- ===== src/Protocols/SuperDense/Runs.antt =====
-- qchat/protocols.py, `SuperDenseCoding`: one party's bytes on its peer's acknowledgements.
use qchat.Prelude.{
  ℕ, suc, ◌+◌, ◌*◌, ◌^◌, ◌≤◌, ◌<◌, ◌≡◌, refl, ap, sym, ◌∙◌, true, List, [], ◌∷◌, ◌++◌, All, map,
  length, arith, ok, append-nil, append_assoc,
}
use qchat.Value.{Text, Bytes, bool, int, pos, Fields, end, field, codes}
use qchat.Value.Words.{to_bytes_one}
use qchat.Messages.{Json, spds, Message}
use qchat.Protocols.{Session, return, ◌>>=◌, ◌>>◌, >>=-ok, item, truthy, wait_for_control_message}
use qchat.Protocols.Messaging.{control, expects, sent, send_lem, wait_lem, exchange_lem}
use qchat.Protocols.Messaging.{sent_all}
use qchat.Protocols.SuperDense.{
  bit, positions, Pair, Qubits, next_pair, encode_pair, check_ack, exchange_acks, send_pair,
  send_byte, send_all, receive_byte, receive_all,
}
use qchat.Protocols.SuperDense.Bits.{
  BellLaws, decode_pair-encode_pair, pairs_at, pairs_of, join_bits, join_bits-byte,
}

abbrev pub ack : Fields
ack = field (codes "ack") (bool true) end

abbrev pub fin : Fields
fin = field (codes "FIN") (bool true) end

abbrev pub length_of : Bytes → Fields
length_of message = field (codes "message_length") (int (pos (length message))) end

abbrev pub acked : Text → Message
acked name = control spds name ack

-- Two acknowledgements of the sender for each pair, and three of the receiver.
unfoldable pub two_each : Text → List Pair → List Message
two_each name [] = []
two_each name (p ∷ ps) = acked name ∷ acked name ∷ two_each name ps

unfoldable pub three_each : Text → List Pair → List Message
three_each name [] = []
three_each name (p ∷ ps) = acked name ∷ acked name ∷ acked name ∷ three_each name ps

two_each-append :
    (name : Text) (ps qs : List Pair) (rest : List Message)
    → two_each name (ps ++ qs) ++ rest ≡ two_each name ps ++ (two_each name qs ++ rest)
unfolding two_each
two_each-append name [] qs rest = refl
two_each-append name (p ∷ ps) qs rest =
    ap (λ ms. acked name ∷ acked name ∷ ms) (two_each-append name ps qs rest)

three_each-append :
    (name : Text) (ps qs : List Pair) (rest : List Message)
    → three_each name (ps ++ qs) ++ rest ≡ three_each name ps ++ (three_each name qs ++ rest)
unfolding three_each
three_each-append name [] qs rest = refl
three_each-append name (p ∷ ps) qs rest =
    ap (λ ms. acked name ∷ acked name ∷ acked name ∷ ms) (three_each-append name ps qs rest)

pub sent_all-append :
    (s : Session) (ms ns : List Message) → sent_all s (ms ++ ns) ≡ sent_all (sent_all s ms) ns
unfolding sent_all
sent_all-append s [] ns = refl
sent_all-append s (m ∷ ms) ns = sent_all-append (sent s m) ms ns

pub sent_all-name : (s : Session) (ms : List Message) → (sent_all s ms).name ≡ s.name
unfolding sent_all
sent_all-name s [] = refl
sent_all-name s (m ∷ ms) = sent_all-name (sent s m) ms

abbrev pub qubits_of : (qubits : Qubits) → List Pair → List qubits.Register
qubits_of qubits ps = map (λ p. encode_pair qubits p.0 p.1 qubits.create_epr) ps

qubits_of-append :
    (qubits : Qubits) (ps qs : List Pair)
    → qubits_of qubits (ps ++ qs) ≡ qubits_of qubits ps ++ qubits_of qubits qs
qubits_of-append qubits [] qs = refl
qubits_of-append qubits (p ∷ ps) qs =
    ap (λ l. encode_pair qubits p.0 p.1 qubits.create_epr ∷ l) (qubits_of-append qubits ps qs)

bit-small : (b k : ℕ) → bit b k < 2
bit-small b k = omega arith

module _ (json : Json) (qubits : Qubits) (name : Text) where
  exchange_acks_lem :
      (s : Session) (rest : List Message)
      → length s.name ≤ 16
      → exchange_acks json (expects s (acked name ∷ rest))
        ≡ ok (tt, expects (sent s (acked s.name)) rest)
  unfolding exchange_acks check_ack item truthy
  exchange_acks_lem s rest short = rw (exchange_lem json spds ack ack s name rest short, ◌>>=◌) refl

  send_pair_lem :
      (b p : ℕ) (s : Session) (rest : List Message)
      → length s.name ≤ 16
      → send_pair json qubits b p (expects s (acked name ∷ acked name ∷ acked name ∷ rest))
        ≡ ok (
          encode_pair qubits (bit b (2 * p + 1)) (bit b (2 * p)) qubits.create_epr,
          expects (sent (sent s (acked s.name)) (acked s.name)) rest,
        )
  unfolding send_pair check_ack item truthy
  send_pair_lem b p s rest short =
      rw (exchange_acks_lem s (acked name ∷ acked name ∷ rest) short, ◌>>=◌)
        (rw (exchange_acks_lem (sent s (acked s.name)) (acked name ∷ rest) short, ◌>>=◌)
          (>>=-ok (wait_for_control_message spds)
            (λ m.
              check_ack json m
              >> return (encode_pair qubits (bit b (2 * p + 1)) (bit b (2 * p)) qubits.create_epr))
            (expects (sent (sent s (acked s.name)) (acked s.name)) (acked name ∷ rest))
            (wait_lem json spds ack (sent (sent s (acked s.name)) (acked s.name)) name rest)))

  send_byte_lem :
      (b : ℕ) (ps : List ℕ) (s : Session) (rest : List Message)
      → length s.name ≤ 16
      → send_byte json qubits b ps (expects s (three_each name (pairs_at b ps) ++ rest))
        ≡ ok (
          qubits_of qubits (pairs_at b ps),
          expects (sent_all s (two_each s.name (pairs_at b ps))) rest,
        )
  unfolding send_byte three_each two_each pairs_at sent_all
  send_byte_lem b [] s rest short = refl
  send_byte_lem b (p ∷ ps) s rest short =
      rw (send_pair_lem b p s (three_each name (pairs_at b ps) ++ rest) short, ◌>>=◌)
        (rw (send_byte_lem b ps (sent (sent s (acked s.name)) (acked s.name)) rest short, ◌>>=◌)
          refl)

  pub send_all_lem :
      (message : Bytes) (s : Session) (rest : List Message)
      → length s.name ≤ 16
      → send_all json qubits message (expects s (three_each name (pairs_of message) ++ rest))
        ≡ ok (
          qubits_of qubits (pairs_of message),
          expects (sent_all s (two_each s.name (pairs_of message))) rest,
        )
  unfolding send_all three_each two_each pairs_of sent_all
  send_all_lem [] s rest short = refl
  send_all_lem (b ∷ message) s rest short =
      let here = pairs_at b positions in
      let next = sent_all s (two_each s.name here) in
      let same : next.name ≡ s.name = sent_all-name s (two_each s.name here) in
      ap (λ q. send_all json qubits (b ∷ message) (expects s q))
        (three_each-append name here (pairs_of message) rest)
      ∙ rw (send_byte_lem b positions s (three_each name (pairs_of message) ++ rest) short, ◌>>=◌)
          (rw (send_all_lem message next rest (rw same short), ◌>>=◌) refl)

  receive_byte_lem :
      BellLaws qubits
      → (b : ℕ) (ps : List ℕ) (n : ℕ) (outcomes : List qubits.Register) (s : Session)
        (rest : List Message)
      → length s.name ≤ 16
      → receive_byte json qubits ps n
          (qubits_of qubits (pairs_at b ps) ++ outcomes)
          (expects s (two_each name (pairs_at b ps) ++ rest))
        ≡ ok (
          (join_bits b ps n, outcomes),
          expects (sent_all s (three_each s.name (pairs_at b ps))) rest,
        )
  unfolding receive_byte three_each two_each pairs_at sent_all join_bits next_pair
  receive_byte_lem laws b [] n outcomes s rest short = refl
  receive_byte_lem laws b (p ∷ ps) n outcomes s rest short =
      let m = n + bit b (2 * p) * 2 ^ (2 * p) + bit b (2 * p + 1) * 2 ^ (2 * p + 1) in
      let s_1 = sent s (acked s.name) in
      let s_2 = sent s_1 (acked s.name) in
      let later = two_each name (pairs_at b ps) ++ rest in
      rw (exchange_acks_lem s (acked name ∷ later) short, ◌>>=◌)
        (rw (exchange_acks_lem s_1 later short, ◌>>=◌)
          (rw (send_lem json spds ack (expects s_2 later) short, ◌>>=◌)
            (ap
                (λ q.
                  receive_byte json qubits ps (n + q.1 * 2 ^ (2 * p) + q.0 * 2 ^ (2 * p + 1))
                    (qubits_of qubits (pairs_at b ps) ++ outcomes)
                    (expects (sent s_2 (acked s.name)) later))
                (decode_pair-encode_pair qubits laws (bit b (2 * p + 1)) (bit b (2 * p))
                  (bit-small b (2 * p + 1)) (bit-small b (2 * p)))
              ∙ receive_byte_lem laws b ps m outcomes (sent s_2 (acked s.name)) rest short)))

  pub receive_all_lem :
      BellLaws qubits
      → (message had : Bytes) (s : Session) (rest : List Message) → length s.name ≤ 16
      → All (λ b. b < 256) message
      → receive_all json qubits
          (length message)
          had
          (qubits_of qubits (pairs_of message))
          (expects s (two_each name (pairs_of message) ++ rest))
        ≡ ok (had ++ message, expects (sent_all s (three_each s.name (pairs_of message))) rest)
  unfolding receive_all three_each two_each pairs_of sent_all
  receive_all_lem laws [] had s rest short small =
      ap (λ bs. ok (bs, expects s rest)) (sym (append-nil had))
  receive_all_lem laws (b ∷ message) had s rest short small =
      let here = pairs_at b positions in
      let next = sent_all s (three_each s.name here) in
      ap
        (λ q.
          receive_all json qubits (suc (length message)) had
            (qubits_of qubits (here ++ pairs_of message)) (expects s q))
        (two_each-append name here (pairs_of message) rest)
      ∙ >>=-ok
          (receive_byte json qubits positions 0
            (qubits_of qubits here ++ qubits_of qubits (pairs_of message)))
          _ (expects s (two_each name here ++ (two_each name (pairs_of message) ++ rest)))
          (receive_byte_lem laws b positions 0 (qubits_of qubits (pairs_of message)) s
            (two_each name (pairs_of message) ++ rest) short)
      ∙ rw (join_bits-byte b small.0, to_bytes_one b small.0)
          (receive_all_lem laws message (had ++ b ∷ []) next rest short small.1
            ∙ ap
                (λ bs.
                  ok (bs, expects (sent_all s (three_each s.name (pairs_of (b ∷ message)))) rest))
                (append_assoc had (b ∷ []) message))
