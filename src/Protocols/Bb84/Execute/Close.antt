-- ===== src/Protocols/Bb84/Execute/Close.antt =====
-- Bits of the two parties side by side, and what cutting and joining keeps of them.
use native.Mathlib.Nat.{pow-succ'}
use qchat.Prelude.{
  ℕ, zero, suc, ◌+◌, ◌*◌, ◌^◌, ◌≤◌, ◌<◌, ◌≡◌, refl, List, [], ◌∷◌, ◌++◌, length, take, drop, ok,
  arith, length-take, length-drop, length-append, ltb, lt→ltb, le→ltb, Bool-cases, inl, inr,
}
use qchat.Ecc.{chunk, chunk_from}
use qchat.Ecc.Weight.{IsBits, distance}
use qchat.Ecc.Correct.{ecc_golay}
use qchat.Protocols.Bb84.Reconcile.{AreClose, whole, left_over}
use qchat.Protocols.Bb84.Execute.{int_of_bits}

-- Bits, of one length, that differ in at most `e` places.
pub record Near (e : ℕ) (x y : List ℕ) : Type 0 where
  pub bits_x : IsBits x
  pub bits_y : IsBits y
  pub same_length : length y ≡ length x
  pub near : distance y x ≤ e

pub Near-nil : Near 0 [] []
unfolding distance
Near-nil = record { bits_x = tt; bits_y = tt; same_length = refl; near = omega arith }

pub Near-weaken : (d e : ℕ) (x y : List ℕ) → d ≤ e → Near d x y → Near e x y
Near-weaken d e x y le h = record {
  bits_x = h.bits_x;
  bits_y = h.bits_y;
  same_length = h.same_length;
  near = omega (arith, h.near);
}

pub IsBits-append : (x x' : List ℕ) → IsBits x → IsBits x' → IsBits (x ++ x')
IsBits-append [] x' h h' = h'
IsBits-append (b ∷ x) x' h h' = (h.0, IsBits-append x x' h.1 h')

pub IsBits-take : (n : ℕ) (x : List ℕ) → IsBits x → IsBits (take n x)
IsBits-take zero x h = tt
IsBits-take (suc n) [] h = tt
IsBits-take (suc n) (b ∷ x) h = (h.0, IsBits-take n x h.1)

pub IsBits-drop : (n : ℕ) (x : List ℕ) → IsBits x → IsBits (drop n x)
IsBits-drop zero x h = h
IsBits-drop (suc n) [] h = tt
IsBits-drop (suc n) (b ∷ x) h = IsBits-drop n x h.1

distance-append :
    (x y x' y' : List ℕ)
    → length x ≡ length y
    → distance (x ++ x') (y ++ y') ≡ distance x y + distance x' y'
unfolding distance
distance-append [] [] x' y' h = omega arith
distance-append [] (b ∷ y) x' y' h = absurd (omega arith)
distance-append (a ∷ x) [] x' y' h = absurd (omega arith)
distance-append (a ∷ x) (b ∷ y) x' y' h = omega (arith, distance-append x y x' y' (omega arith))

distance-take : (n : ℕ) (x y : List ℕ) → distance (take n x) (take n y) ≤ distance x y
unfolding distance
distance-take zero x y = omega arith
distance-take (suc n) [] y = omega arith
distance-take (suc n) (a ∷ x) [] = omega arith
distance-take (suc n) (a ∷ x) (b ∷ y) = omega (arith, distance-take n x y)

distance-nil : (x : List ℕ) → distance x [] ≡ 0
unfolding distance
distance-nil [] = refl
distance-nil (a ∷ x) = refl

distance-drop : (n : ℕ) (x y : List ℕ) → distance (drop n x) (drop n y) ≤ distance x y
unfolding distance
distance-drop zero x y = omega arith
distance-drop (suc n) [] y = omega arith
distance-drop (suc n) (a ∷ x) [] = omega (arith, distance-nil (drop n x))
distance-drop (suc n) (a ∷ x) (b ∷ y) = omega (arith, distance-drop n x y)

pub Near-append :
    (d e : ℕ) (x y x' y' : List ℕ) → Near d x y → Near e x' y' → Near (d + e) (x ++ x') (y ++ y')
Near-append d e x y x' y' h h' = record {
  bits_x = IsBits-append x x' h.bits_x h'.bits_x;
  bits_y = IsBits-append y y' h.bits_y h'.bits_y;
  same_length =
      omega (arith, length-append x x', length-append y y', h.same_length, h'.same_length);
  near = omega (arith, distance-append y x y' x' h.same_length, h.near, h'.near);
}

Near-piece :
    (e i : ℕ) (x y : List ℕ) → Near e x y → Near e (take 23 (drop i x)) (take 23 (drop i y))
Near-piece e i x y h = record {
  bits_x = IsBits-take 23 (drop i x) (IsBits-drop i x h.bits_x);
  bits_y = IsBits-take 23 (drop i y) (IsBits-drop i y h.bits_y);
  same_length = omega (
    arith,
    length-take 23 (drop i x),
    length-take 23 (drop i y),
    length-drop i x,
    length-drop i y,
    h.same_length,
  );
  near = omega (arith, distance-take 23 (drop i y) (drop i x), distance-drop i y x, h.near);
}

-- Pieces of the two parties.
abbrev Pieces : ℕ → List (List ℕ) → List (List ℕ) → Type 0
Pieces e [] [] = Unit
Pieces e [] (d ∷ ds) = ⊥
Pieces e (c ∷ cs) [] = ⊥
Pieces e (c ∷ cs) (d ∷ ds) = Near e c d × (length c ≤ 23) × Pieces e cs ds

chunk_from-Pieces :
    (e fuel i : ℕ) (x y : List ℕ)
    → Near e x y
    → Pieces e (chunk_from fuel 23 i x) (chunk_from fuel 23 i y)
unfolding chunk_from
chunk_from-Pieces e zero i x y h = tt
chunk_from-Pieces e (suc fuel) i x y h = elim (Bool-cases (ltb i (length x))) [
  | inl some ↦
      rw (h.same_length, some)
        (
          Near-piece e i x y h,
          omega (arith, length-take 23 (drop i x)),
          chunk_from-Pieces e fuel (i + 23) x y h,
        )
  | inr done ↦ rw (h.same_length, done) tt
]

pub chunk-Pieces :
    (e : ℕ) (x y : List ℕ) → Near e x y → Pieces e (chunk ecc_golay x) (chunk ecc_golay y)
unfolding chunk
chunk-Pieces e x y h = rw h.same_length (chunk_from-Pieces e (length x) 0 x y h)

pub Pieces-AreClose : (e : ℕ) (cs ds : List (List ℕ)) → e ≤ 3 → Pieces e cs ds → AreClose cs ds
Pieces-AreClose e [] [] le h = tt
Pieces-AreClose e [] (d ∷ ds) le h = absurd h
Pieces-AreClose e (c ∷ cs) [] le h = absurd h
Pieces-AreClose e (c ∷ cs) (d ∷ ds) le h = (
  (h.0.bits_x, h.0.bits_y, h.0.same_length, h.1, inr (omega (arith, h.0.near))),
  Pieces-AreClose e cs ds le h.2,
)

pub left_over-Near :
    (e : ℕ) (cs ds : List (List ℕ)) → Pieces e cs ds → Near e (left_over cs) (left_over ds)
unfolding left_over
left_over-Near e [] [] h = Near-weaken 0 e [] [] (omega arith) Near-nil
left_over-Near e [] (d ∷ ds) h = absurd h
left_over-Near e (c ∷ cs) [] h = absurd h
left_over-Near e (c ∷ cs) (d ∷ ds) h = elim (Bool-cases (ltb (length c) 23)) [
  | inl piece ↦ rw (piece, h.0.same_length, piece) h.0
  | inr full ↦ rw (full, h.0.same_length, full) (left_over-Near e cs ds h.2)
]

pub whole-IsBits : (e : ℕ) (cs ds : List (List ℕ)) → Pieces e cs ds → IsBits (whole cs)
unfolding whole
whole-IsBits e [] ds h = tt
whole-IsBits e (c ∷ cs) [] h = absurd h
whole-IsBits e (c ∷ cs) (d ∷ ds) h = elim (Bool-cases (ltb (length c) 23)) [
  | inl piece ↦ rw piece tt
  | inr full ↦ rw full (IsBits-append c (whole cs) h.0.bits_x (whole-IsBits e cs ds h.2))
]

whole-cons : (c : List ℕ) (cs : List (List ℕ)) → length c ≡ 23 → 23 ≤ length (whole (c ∷ cs))
unfolding whole
whole-cons c cs h =
    rw (le→ltb (length c) 23 (omega (arith, h))) (omega (arith, length-append c (whole cs), h))

-- A codeword's worth of bits gives a whole codeword at least.
pub length-whole : (x : List ℕ) → 23 ≤ length x → 23 ≤ length (whole (chunk ecc_golay x))
unfolding chunk chunk_from
length-whole [] h = absurd (omega arith)
length-whole (b ∷ x) h = rw (lt→ltb 0 (length (b ∷ x)) (omega arith)) (
    whole-cons (take 23 (b ∷ x)) (chunk_from (length x) 23 23 (b ∷ x))
      (omega (arith, length-take 23 (b ∷ x))))

doubles : (k n b p : ℕ) → b < 2 → k < (n * 2 + b + 1) * p → k < (n + 1) * (2 * p)
doubles k n b p small h = grind arith

-- The number that bits stand for.
pub int_of_bits_lem :
    (n : ℕ) (x : List ℕ)
    → IsBits x
    → (k : ℕ) × (int_of_bits n x ≡ ok k) × (k < (n + 1) * 2 ^ length x)
unfolding int_of_bits
int_of_bits_lem n [] h = (n, refl, omega arith)
int_of_bits_lem n (b ∷ x) h =
    let (k, e, bound) = int_of_bits_lem (n * 2 + b) x h.1 in
    (k, rw (lt→ltb b 2 h.0) e, rw (pow-succ' 2 (length x)) (doubles k n b (2 ^ length x) h.0 bound))
