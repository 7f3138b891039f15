-- ===== src/Protocols/Bb84/Estimate/Agreement.antt =====
-- The error estimation of the two parties, run on each other's messages.
use qchat.Prelude.{
  ℕ, ◌≤◌, ◌≡◌, refl, ap, sym, ◌∙◌, ◌⊎◌, inl, inr, true, List, [], ◌∷◌, ◌++◌, length, ok, arith,
  length-eq-zero,
}
use qchat.Value.{Text, arr, bool, Fields, end, field, codes}
use qchat.Messages.{Json, bb84, Message}
use qchat.Protocols.{leader, follower, Session, ◌>>=◌, >>=-ok, item, truthy, ints, get_role}
use qchat.Protocols.Messaging.{control, expects, sent, exchange_lem}
use qchat.Protocols.Bb84.{
  ack, equals, items_of, pop_tests, num_error, error_rate, exchange_tests, compare_tests,
  estimate_error_rate,
}
use qchat.Protocols.Messaging.{sent_all}
use qchat.Protocols.Bb84.Estimate.{differences, InRange, Split, pop_tests_both, choose_tests_lem}

num_error-differences : (a b : List ℕ) → num_error a (ints b) ≡ differences a b
unfolding num_error ints differences equals
num_error-differences [] b = refl
num_error-differences (m ∷ a) [] = refl
num_error-differences (m ∷ a) (n ∷ b) = ground (arith, num_error-differences a b)

differences_comm : (a b : List ℕ) → differences a b ≡ differences b a
unfolding differences
differences_comm [] [] = refl
differences_comm [] (n ∷ b) = refl
differences_comm (m ∷ a) [] = refl
differences_comm (m ∷ a) (n ∷ b) = ground (arith, differences_comm a b)

error_rate-length : (n : ℕ) (a b : List ℕ) → length a ≡ length b → error_rate n a ≡ error_rate n b
unfolding error_rate
error_rate-length n [] [] h = refl
error_rate-length n [] (m ∷ b) h = absurd (omega arith)
error_rate-length n (m ∷ a) [] h = absurd (omega arith)
error_rate-length n (m ∷ a) (k ∷ b) h = ap (λ l. (n, l)) h

-- The messages of the test: the indices, the test bits, and the end.
abbrev pub indices_of : List ℕ → Fields
indices_of is = field (codes "test_indices") (arr (ints is)) end

abbrev pub bits_of : List ℕ → Fields
bits_of bits = field (codes "test_bits") (arr (ints bits)) end

abbrev pub fin : Fields
fin = field (codes "fin") (bool true) end

-- What the leader sends in a test, and what the follower sends.
abbrev pub questions : Text → List ℕ → List ℕ → List Message
questions name is bits =
    control bb84 name (indices_of is)
    ∷ control bb84 name (bits_of bits)
    ∷ control bb84 name fin
    ∷ []

abbrev pub answers : Text → List ℕ → List Message
answers name bits =
    control bb84 name (ack true) ∷ control bb84 name (bits_of bits) ∷ control bb84 name fin ∷ []

module _ (json : Json) (s : Session) (short : length s.name ≤ 16) (name : Text) where
  compare_tests_lem :
      (rest mine theirs : List ℕ)
      → compare_tests json
          (rest, mine)
          (expects s (control bb84 name (bits_of theirs) ∷ control bb84 name fin ∷ []))
        ≡ ok (
          (error_rate (differences mine theirs) mine, rest),
          expects (sent (sent s (control bb84 s.name (bits_of mine))) (control bb84 s.name fin)) [],
        )
  unfolding compare_tests item items_of truthy
  compare_tests_lem rest mine theirs =
      rw
        (
          exchange_lem json bb84 (bits_of mine) (bits_of theirs) s name (control bb84 name fin ∷ [])
              short,
          ◌>>=◌,
        )
        (rw
          (
            exchange_lem json bb84 fin fin (sent s (control bb84 s.name (bits_of mine))) name []
                short,
            ◌>>=◌,
          )
          (rw (num_error-differences mine theirs)))

  tests_leader :
      (is ns x x' bits : List ℕ) (rest : List Message)
      → pop_tests (ints is) x [] ≡ ok (x', bits)
      → (length is ≡ 25) ⊎ ((length is ≤ 25) × (x' ≡ []))
      → exchange_tests json leader x
          (record s { ctrl_msg_q = control bb84 name (ack true) ∷ rest; randoms = is ++ ns })
        ≡ ok (
          (x', bits),
          expects (sent (record s { randoms = ns }) (control bb84 s.name (indices_of is))) rest,
        )
  unfolding exchange_tests item truthy
  tests_leader is ns x x' bits rest popped enough =
      rw
        (
          choose_tests_lem 25 is ns (record { remaining = x; test_bits = []; test_indices = [] })
              (expects s (control bb84 name (ack true) ∷ rest)) x' bits popped enough,
          ◌>>=◌,
        )
        (rw
          (
            exchange_lem json bb84 (indices_of is) (ack true) (record s { randoms = ns }) name rest
                short,
            ◌>>=◌,
          )
          refl)

  tests_follower :
      (is y y' bits : List ℕ) (rest : List Message)
      → pop_tests (ints is) y [] ≡ ok (y', bits)
      → exchange_tests json follower y (expects s (control bb84 name (indices_of is) ∷ rest))
        ≡ ok ((y', bits), expects (sent s (control bb84 s.name (ack true))) rest)
  unfolding exchange_tests item items_of
  tests_follower is y y' bits rest popped =
      rw (exchange_lem json bb84 (ack true) (indices_of is) s name rest short, ◌>>=◌)
        (rw popped refl)

-- Error estimation, the two parties, with names of at most 16 characters, run on each other's messages: they hold bits of one length, and
-- the leader's random numbers begin with 25 indices in range, or with as many as there are bits if
-- that is fewer. Each sends exactly what the other waits for, so both end; both pop the same places,
-- and both compute the same error rate, the share of the test bits in which they differ. What is left
-- has one length, and every difference of the two lists is among the test bits or among what is left.
pub estimate_error_rate_agrees :
    (json : Json) (lead follow : Session) (x y is ns : List ℕ)
    → lead.role ≡ leader
    → follow.role ≡ follower
    → length lead.name ≤ 16
    → length follow.name ≤ 16
    → length y ≡ length x
    → InRange is (length x)
    → (length is ≡ 25) ⊎ ((length is ≤ 25) × (length x ≡ length is))
    → (bx : List ℕ) × (by_ : List ℕ) × (x' : List ℕ) × (y' : List ℕ) × Split x y bx by_ x' y'
        (length is)
      × (estimate_error_rate json x
            (record lead { ctrl_msg_q = answers follow.name by_; randoms = is ++ ns })
          ≡ ok (
            (error_rate (differences bx by_) bx, x'),
            expects (sent_all (record lead { randoms = ns }) (questions lead.name is bx)) [],
          ))
      × (estimate_error_rate json y (expects follow (questions lead.name is bx))
          ≡ ok (
            (error_rate (differences bx by_) bx, y'),
            expects (sent_all follow (answers follow.name by_)) [],
          ))
unfolding estimate_error_rate get_role sent_all
estimate_error_rate_agrees json lead follow x y is ns leads follows short_l short_f same range
      enough =
    let (bx, by_, x', y', popped_x, popped_y, split) = pop_tests_both is x y [] [] range same in
    let lead' : Session = record lead { randoms = ns } in
    let compare_l : List Message =
      control bb84 follow.name (bits_of by_) ∷ control bb84 follow.name fin ∷ [] in
    let compare_f : List Message =
      control bb84 lead.name (bits_of bx) ∷ control bb84 lead.name fin ∷ [] in
    let start : Session = record lead {
      ctrl_msg_q = answers follow.name by_;
      randoms = is ++ ns;
    } in
    let enough' : (length is ≡ 25) ⊎ ((length is ≤ 25) × (x' ≡ [])) = elim enough [
      | inl all ↦ inl all
      | inr (few, every) ↦ inr (few, length-eq-zero x' (omega (arith, split.left_x)))
    ] in
    (
      bx,
      by_,
      x',
      y',
      split,
      ap (λ r. (exchange_tests json r x >>= compare_tests json) start) leads
          ∙ >>=-ok (exchange_tests json leader x) (compare_tests json) start
              (tests_leader json lead short_l follow.name is ns x x' bx compare_l popped_x enough')
          ∙ compare_tests_lem json (sent lead' (control bb84 lead.name (indices_of is))) short_l
              follow.name x' bx by_,
      ap
            (λ r.
              (exchange_tests json r y >>= compare_tests json)
                (expects follow (questions lead.name is bx)))
            follows
          ∙ >>=-ok (exchange_tests json follower y) (compare_tests json)
              (expects follow (questions lead.name is bx))
              (tests_follower json follow short_f lead.name is y y' by_ compare_f popped_y)
          ∙ compare_tests_lem json (sent follow (control bb84 follow.name (ack true))) short_f
              lead.name y' by_ bx
          ∙ ap (λ r. ok ((r, y'), expects (sent_all follow (answers follow.name by_)) []))
              (ap (λ n. error_rate n by_) (differences_comm by_ bx)
                ∙ error_rate-length (differences bx by_) by_ bx
                    (split.count_y ∙ sym split.count_x)),
    )
