-- ===== src/Connection/Stream.antt =====
-- qchat/connection.py, reading from a socket: `recv` and the loop that reads the data.
use qchat.Prelude.{
  ℕ, zero, suc, ◌+◌, ◌≤◌, ◌<◌, ◌≡◌, refl, ap, sym, ◌∙◌, true, false, [], ◌∷◌, ◌++◌, length, take,
  drop, ok, err, connection_error, arith, length-append, take-append-drop, append-nil, append_assoc,
  Bool-cases, ◌≢◌, no_fuel, inl, inr, ok≢err, ok-injective, ltb, ltb→lt, ltb→ge, lt→ltb,
}
use qchat.Value.{Bytes}
use qchat.Connection.{Socket, recv, pending, recv_data, is_empty}

pub recv_within :
    (n : ℕ) (seg : Bytes) (segments : Socket)
    → 0 < length seg
    → recv n (seg ∷ segments) ≡ (take n seg, drop n seg ∷ segments)
unfolding recv
recv_within n [] segments h = absurd (omega arith)
recv_within n (b ∷ seg) segments h = refl

-- `recv` takes its bytes off the front of the stream.
pub recv-pending :
    (n : ℕ) (conn : Socket) → (recv n conn).0 ++ pending (recv n conn).1 ≡ pending conn
unfolding recv pending
recv-pending n [] = refl
recv-pending n ([] ∷ segments) = recv-pending n segments
recv-pending n ((b ∷ seg) ∷ segments) =
    sym (append_assoc (take n (b ∷ seg)) (drop n (b ∷ seg)) (pending segments))
    ∙ ap (λ x. x ++ pending segments) (take-append-drop n (b ∷ seg))

-- It takes nothing only at the end.
pub recv-empty :
    (n : ℕ) (conn : Socket) → 0 < n → is_empty (recv n conn).0 ≡ true → pending conn ≡ []
unfolding recv pending
recv-empty n [] pos h = refl
recv-empty n ([] ∷ segments) pos h = recv-empty n segments pos h
recv-empty zero ((b ∷ seg) ∷ segments) pos h = absurd (omega arith)
recv-empty (suc n) ((b ∷ seg) ∷ segments) pos h = cc

pub recv-end : (n : ℕ) (conn : Socket) → pending conn ≡ [] → (recv n conn).0 ≡ []
unfolding recv pending
recv-end n [] h = refl
recv-end n ([] ∷ segments) h = recv-end n segments h
recv-end n ((b ∷ seg) ∷ segments) h = cc

is_empty-length : (bytes : Bytes) → is_empty bytes ≡ false → 0 < length bytes
is_empty-length [] h = cc
is_empty-length (b ∷ bytes) h = omega arith

-- With enough fuel and enough bytes the loop returns what it had and a part of the stream, at
-- least as long as was asked for.
pub recv_data_lem :
    (fuel n : ℕ) (had : Bytes) (conn : Socket)
    → length (pending conn) < fuel
    → n ≤ length had + length (pending conn)
    → (got : Bytes) × (conn' : Socket) × (recv_data fuel n had conn ≡ ok (had ++ got, conn'))
      × (got ++ pending conn' ≡ pending conn)
      × (n ≤ length had + length got)
unfolding recv_data
recv_data_lem zero n had conn h enough = absurd (omega arith)
recv_data_lem (suc fuel) n had conn h enough = elim (Bool-cases (ltb (length had) n)) [
  | inr done ↦ ([], conn, rw (done, append-nil), refl, omega (arith, ltb→ge (length had) n done))
  | inl more ↦ elim (Bool-cases (is_empty (recv 1024 conn).0)) [
    | inl none ↦ absurd (
        omega
          (arith, ltb→lt (length had) n more, ap length (recv-empty 1024 conn (omega arith) none)))
    | inr some ↦
        let first : Bytes = (recv 1024 conn).0 in
        let later : Socket = (recv 1024 conn).1 in
        let whole : first ++ pending later ≡ pending conn = recv-pending 1024 conn in
        let total : length first + length (pending later) ≡ length (pending conn) =
          sym (length-append first (pending later)) ∙ ap length whole in
        let (got, conn', run, split, long) =
          recv_data_lem fuel n (had ++ first) later (omega (arith, is_empty-length first some))
            (omega (arith, length-append had first)) in
        (
          first ++ got,
          conn',
          rw (more, some) (run ∙ ap (λ x. ok (x, conn')) (append_assoc had first got)),
          append_assoc first got (pending conn') ∙ ap (λ x. first ++ x) split ∙ whole,
          omega (arith, length-append had first, length-append first got),
        )
  ]
]

-- With too few bytes it raises.
pub recv_data_short :
    (fuel n : ℕ) (had : Bytes) (conn : Socket)
    → length (pending conn) < fuel
    → length had + length (pending conn) < n
    → recv_data fuel n had conn ≡ err connection_error
unfolding recv_data
recv_data_short zero n had conn h few = absurd (omega arith)
recv_data_short (suc fuel) n had conn h few =
    let more : ltb (length had) n ≡ true = lt→ltb (length had) n (omega arith) in
    elim (Bool-cases (is_empty (recv 1024 conn).0)) [
      | inl none ↦ rw (more, none)
      | inr some ↦
          let first : Bytes = (recv 1024 conn).0 in
          let later : Socket = (recv 1024 conn).1 in
          let total : length first + length (pending later) ≡ length (pending conn) =
            sym (length-append first (pending later)) ∙ ap length (recv-pending 1024 conn) in
          rw (more, some)
            (recv_data_short fuel n (had ++ first) later (omega (arith, is_empty-length first some))
              (omega (arith, length-append had first)))
    ]

-- What a loop that ended by itself has read.
pub recv_data-eq-ok :
    (n : ℕ) (conn : Socket) (read : Bytes × Socket)
    → recv_data (suc (length (pending conn))) n [] conn ≡ ok read
    → (read.0 ++ pending read.1 ≡ pending conn) × (n ≤ length read.0)
recv_data-eq-ok n conn read h = elim (Bool-cases (ltb (length (pending conn)) n)) [
  | inl few ↦
      absurd
        (ok≢err (sym h ∙ recv_data_short _ n [] conn (omega arith) (omega (arith, ltb→lt _ _ few))))
  | inr enough ↦
      let (got, conn', run, split, long) =
        recv_data_lem (suc (length (pending conn))) n [] conn (omega arith)
          (omega (arith, ltb→ge _ _ enough)) in
      let same = ok-injective (sym run ∙ h) in
      (ap (λ r. r.0 ++ pending r.1) (sym same) ∙ split, rw (← same) (omega arith))
]

recv_data-ne-no_fuel :
    (fuel n : ℕ) (had : Bytes) (conn : Socket)
    → length (pending conn) < fuel
    → recv_data fuel n had conn ≢ err no_fuel
unfolding recv_data
recv_data-ne-no_fuel zero n had conn h = absurd (omega arith)
recv_data-ne-no_fuel (suc fuel) n had conn h = elim (Bool-cases (ltb (length had) n)) [
  | inr enough ↦ rw enough (λ e. ok≢err e)
  | inl more ↦ elim (Bool-cases (is_empty (recv 1024 conn).0)) [
    | inl none ↦ rw (more, none) (λ e. cc)
    | inr some ↦
        let first : Bytes = (recv 1024 conn).0 in
        let later : Socket = (recv 1024 conn).1 in
        let total : length first + length (pending later) ≡ length (pending conn) =
          sym (length-append first (pending later)) ∙ ap length (recv-pending 1024 conn) in
        rw (more, some)
          (recv_data-ne-no_fuel fuel n (had ++ first) later
            (omega (arith, is_empty-length first some)))
  ]
]

-- The loop that reads the data ends for every stream and every size: fuel of one more than the bytes
-- that are to come is never used up.
pub recv_data_terminates :
    (n : ℕ) (had : Bytes) (conn : Socket)
    → recv_data (suc (length (pending conn))) n had conn ≢ err no_fuel
recv_data_terminates n had conn =
    recv_data-ne-no_fuel (suc (length (pending conn))) n had conn (omega arith)
