-- ===== src/Protocols/Bb84/Estimate.antt =====
-- The test bits: what two lists become when the same indices are popped from both.
pub mod Agreement
use mathlib.Core.Path.{subst}
use qchat.Prelude.{
  All, ℕ, zero, suc, ◌+◌, ◌-◌, ◌/◌, ◌≤◌, ◌<◌, ◌≡◌, refl, ap, ap₂, sym, ◌∙◌, ◌⊎◌, inl, inr, Bool,
  true, false, List, [], ◌∷◌, ◌++◌, map, length, Result, ok, err, arith, nat_beq, if◌then◌else◌,
  append-nil, append_assoc, ltb, lt→ltb, le→ltb, length-append, ok-injective, ok≢err, Result-cases,
}
use qchat.Value.{Text, Value, arr, Items, nil, cons, bool, Fields, end, field, codes, subscript}
use qchat.Messages.{Json, bb84, Message}
use qchat.Protocols.{
  Role, leader, follower, Session, Action, return, lift, ◌>>=◌, >>=-ok, item, truthy, ints,
  get_role, randint, exchange_messages, abort_if,
}
use qchat.Protocols.Messaging.{control, expects, sent, exchange_lem}
use qchat.Protocols.Bb84.{
  ack, equals, items_of, pop_at, pop_value, pop_tests, Tested, choose_tests, num_error, error_rate,
  Rate, exchange_tests, estimate_error_rate, compare_tests, round_size,
}

-- The number of places at which two lists differ.
unfoldable pub differences : List ℕ → List ℕ → ℕ
differences (a ∷ x) (b ∷ y) = if nat_beq a b then differences x y else differences x y + 1
differences x y = 0

-- Indices that can be popped one after the other from a list of `n` entries.
abbrev pub InRange : List ℕ → ℕ → Type 0
InRange [] n = Unit
InRange (i ∷ is) n = (i < n) × InRange is (n - 1)

-- What two lists of one length become when the same indices are popped from both.
pub record Split (x y bx by_ x' y' : List ℕ) (taken : ℕ) : Type 0 where
  pub count_x : length bx ≡ taken
  pub count_y : length by_ ≡ taken
  pub left_x : length x' + taken ≡ length x
  pub left_y : length y' ≡ length x'
  pub apart : differences x y ≡ differences bx by_ + differences x' y'
  pub bits_x : All (λ b. b < 2) x → All (λ b. b < 2) x'
  pub bits_y : All (λ b. b < 2) y → All (λ b. b < 2) y'

pop_at_both :
    (i : ℕ) (x y : List ℕ)
    → i < length x
    → length y ≡ length x
    → (b : ℕ) × (c : ℕ) × (x' : List ℕ) × (y' : List ℕ) × (pop_at i x ≡ ok (b, x'))
      × (pop_at i y ≡ ok (c, y'))
      × (length x ≡ suc (length x'))
      × (length y' ≡ length x')
      × (differences x y ≡ differences (b ∷ []) (c ∷ []) + differences x' y')
unfolding pop_at differences
pop_at_both i [] y h e = absurd (omega arith)
pop_at_both i (a ∷ x) [] h e = absurd (omega arith)
pop_at_both zero (a ∷ x) (b ∷ y) h e = (a, b, x, y, refl, refl, refl, omega arith, ground arith)
pop_at_both (suc i) (a ∷ x) (b ∷ y) h e =
    let (p, q, x', y', px, py, lx, ly, d) = pop_at_both i x y (omega arith) (omega arith) in
    (p, q, a ∷ x', b ∷ y', rw px, rw py, omega arith, omega arith, ground arith)

pop_at-All :
    (i : ℕ) (x : List ℕ) (b : ℕ) (x' : List ℕ)
    → pop_at i x ≡ ok (b, x')
    → All (λ b. b < 2) x
    → All (λ b. b < 2) x'
unfolding pop_at
pop_at-All i [] b x' p h = absurd (ok≢err (sym p))
pop_at-All zero (a ∷ x) b x' p h = subst (All (λ b. b < 2)) (ap (λ r. r.1) (ok-injective p)) h.1
pop_at-All (suc i) (a ∷ x) b x' p h = elim (Result-cases (pop_at i x)) [
  | inl (e, raised) ↦ absurd (ok≢err (sym (rw raised at p)))
  | inr ((c, rest), popped) ↦
      subst (All (λ b. b < 2)) (ap (λ r. r.1) (ok-injective (rw popped at p)))
        (h.0, pop_at-All i x c rest popped h.1)
]

pub pop_tests_both :
    (is x y : List ℕ) (ax ay : List ℕ)
    → InRange is (length x)
    → length y ≡ length x
    → (bx : List ℕ) × (by_ : List ℕ) × (x' : List ℕ) × (y' : List ℕ) × (pop_tests (ints is) x ax
        ≡ ok (x', ax ++ bx))
      × (pop_tests (ints is) y ay ≡ ok (y', ay ++ by_))
      × Split x y bx by_ x' y' (length is)
unfolding pop_tests pop_value ints differences
pop_tests_both [] x y ax ay h e = (
  [],
  [],
  x,
  y,
  ap (λ z. ok (x, z)) (sym (append-nil ax)),
  ap (λ z. ok (y, z)) (sym (append-nil ay)),
  record {
    count_x = refl;
    count_y = refl;
    left_x = omega arith;
    left_y = e;
    apart = omega arith;
    bits_x = λ h. h;
    bits_y = λ h. h;
  },
)
pop_tests_both (i ∷ is) x y ax ay h e =
    let (b, c, x1, y1, px, py, lx, ly, d) = pop_at_both i x y h.0 e in
    let pred : length x - 1 ≡ length x1 = omega arith in
    let (bx, by_, x', y', qx, qy, s) =
      pop_tests_both is x1 y1 (ax ++ b ∷ []) (ay ++ c ∷ []) (rw pred at h.1) ly in
    (
      b ∷ bx,
      c ∷ by_,
      x',
      y',
      rw (px, pop_tests) (qx ∙ ap (λ z. ok (x', z)) (append_assoc ax (b ∷ []) bx)),
      rw (py, pop_tests) (qy ∙ ap (λ z. ok (y', z)) (append_assoc ay (c ∷ []) by_)),
      record {
        count_x = omega (arith, s.count_x);
        count_y = omega (arith, s.count_y);
        left_x = omega (arith, s.left_x);
        left_y = s.left_y;
        apart = ground (arith, s.apart);
        bits_x = λ h. s.bits_x (pop_at-All i x b x1 px h);
        bits_y = λ h. s.bits_y (pop_at-All i y c y1 py h);
      },
    )

pop_at-pos : (i : ℕ) (x : List ℕ) (r : ℕ × List ℕ) → pop_at i x ≡ ok r → 0 < length x
unfolding pop_at
pop_at-pos i [] r h = cc
pop_at-pos i (b ∷ x) r h = omega arith

-- The leader's loop takes the indices that `randint` returns, and stops after the wanted number or
-- when no bit is left.
pub choose_tests_lem :
    (wanted : ℕ) (is ns : List ℕ) (t : Tested) (s : Session) (x' bits : List ℕ)
    → pop_tests (ints is) t.remaining t.test_bits ≡ ok (x', bits)
    → (length is ≡ wanted) ⊎ ((length is ≤ wanted) × (x' ≡ []))
    → choose_tests wanted t (record s { randoms = is ++ ns })
      ≡ ok (
        record { remaining = x'; test_bits = bits; test_indices = t.test_indices ++ is },
        record s { randoms = ns },
      )
unfolding choose_tests pop_tests ints randint pop_value
choose_tests_lem zero [] ns t s x' bits p w =
    ap₂
      (λ r inds. ok (
        record { remaining = r.0; test_bits = r.1; test_indices = inds },
        record s { randoms = ns },
      ))
      (ok-injective p) (sym (append-nil t.test_indices))
choose_tests_lem zero (i ∷ is) ns t s x' bits p w = absurd (omega arith)
choose_tests_lem (suc wanted) [] ns t s x' bits p (inl e) = absurd (omega arith)
choose_tests_lem (suc wanted) [] ns t s x' bits p (inr (few, none_left)) =
    let none_now : length t.remaining ≤ 0 =
      omega (arith, ap length (ap (λ r. r.0) (ok-injective p)), ap length none_left) in
    rw (le→ltb 0 (length t.remaining) none_now) (
      ap₂
        (λ r inds. ok (
          record { remaining = r.0; test_bits = r.1; test_indices = inds },
          record s { randoms = ns },
        ))
        (ok-injective p) (sym (append-nil t.test_indices)))
choose_tests_lem (suc wanted) (i ∷ is) ns t s x' bits p w =
    elim (Result-cases (pop_at i t.remaining)) [
      | inl (e, raised) ↦ absurd (ok≢err (sym (rw (raised, pop_tests) at p)))
      | inr (r, popped) ↦ rw (lt→ltb 0 (length t.remaining) (pop_at-pos i t.remaining r popped)) (
          rw popped (
            choose_tests_lem wanted is ns
              (record {
                remaining = r.1;
                test_bits = t.test_bits ++ r.0 ∷ [];
                test_indices = t.test_indices ++ i ∷ [];
              })
              s x' bits (rw (popped, pop_tests) at p) (ground arith)
            ∙ ap
                (λ inds. ok (
                  record { remaining = x'; test_bits = bits; test_indices = inds },
                  record s { randoms = ns },
                ))
                (append_assoc t.test_indices (i ∷ []) is)))
    ]
