-- ===== src/Ecc/Weight.antt =====
-- Words of bits: their weight, their distance, and the enumeration of those of small weight.
use qchat.Prelude.{
  ℕ, zero, suc, ◌+◌, ◌%◌, ◌≤◌, ◌<◌, ◌≡◌, refl, ap, ap₂, Bool, true, ◌&&◌, List, [], ◌∷◌, All,
  length, arith,
}
use qchat.Ecc.{zip_add, mod_two}

-- Every entry is 0 or 1.
abbrev pub IsBits : List ℕ → Type 0
IsBits = All (λ b. b < 2)

-- A word of `n` bits.
abbrev pub IsWord : ℕ → List ℕ → Type 0
IsWord n x = IsBits x × (length x ≡ n)

unfoldable pub weight : List ℕ → ℕ
weight [] = 0
weight (b ∷ x) = b + weight x

-- The number of places at which two words differ.
unfoldable pub distance : List ℕ → List ℕ → ℕ
distance [] ys = 0
distance (x ∷ xs) [] = 0
distance (x ∷ xs) (y ∷ ys) = (x + y) % 2 + distance xs ys

-- The sum modulo 2.
unfoldable pub xor : List ℕ → List ℕ → List ℕ
unfolding zip_add
xor x y = mod_two (zip_add x y)

pub length-mod_two : (x : List ℕ) → length (mod_two x) ≡ length x
length-mod_two [] = refl
length-mod_two (b ∷ x) = ap suc (length-mod_two x)

pub mod_two-IsBits : (x : List ℕ) → IsBits (mod_two x)
mod_two-IsBits [] = tt
mod_two-IsBits (b ∷ x) = (omega arith, mod_two-IsBits x)

pub mod_two_of_IsBits : (x : List ℕ) → IsBits x → mod_two x ≡ x
mod_two_of_IsBits [] h = refl
mod_two_of_IsBits (b ∷ x) h = ap₂ ◌∷◌ (omega arith) (mod_two_of_IsBits x h.1)

pub length-zip_add : (x y : List ℕ) → length x ≡ length y → length (zip_add x y) ≡ length x
unfolding zip_add
length-zip_add [] y h = refl
length-zip_add (a ∷ x) [] h = absurd (omega arith)
length-zip_add (a ∷ x) (b ∷ y) h = ap suc (length-zip_add x y (omega arith))

pub length-xor : (x y : List ℕ) → length x ≡ length y → length (xor x y) ≡ length x
unfolding xor
length-xor [] y h = refl
length-xor (a ∷ x) [] h = absurd (omega arith)
length-xor (a ∷ x) (b ∷ y) h = ap suc (length-xor x y (omega arith))

pub xor-IsBits : (x y : List ℕ) → IsBits (xor x y)
unfolding xor
xor-IsBits x y = mod_two-IsBits (zip_add x y)

pub weight-xor : (x y : List ℕ) → length x ≡ length y → weight (xor x y) ≡ distance x y
unfolding weight xor distance
weight-xor [] y h = refl
weight-xor (a ∷ x) [] h = absurd (omega arith)
weight-xor (a ∷ x) (b ∷ y) h = ap (λ n. (a + b) % 2 + n) (weight-xor x y (omega arith))

pub distance_comm : (x y : List ℕ) → distance x y ≡ distance y x
unfolding distance
distance_comm [] [] = refl
distance_comm [] (b ∷ y) = refl
distance_comm (a ∷ x) [] = refl
distance_comm (a ∷ x) (b ∷ y) = omega (arith, distance_comm x y)

pub distance_self : (x : List ℕ) → distance x x ≡ 0
unfolding distance
distance_self [] = refl
distance_self (a ∷ x) = omega (arith, distance_self x)

pub xor_comm : (x y : List ℕ) → length x ≡ length y → xor x y ≡ xor y x
unfolding xor
xor_comm [] [] h = refl
xor_comm [] (b ∷ y) h = absurd (omega arith)
xor_comm (a ∷ x) [] h = absurd (omega arith)
xor_comm (a ∷ x) (b ∷ y) h = ap₂ ◌∷◌ (omega arith) (xor_comm x y (omega arith))

-- Adding the difference of two words to the first gives the second.
pub xor-xor : (x y : List ℕ) → length x ≡ length y → IsBits y → xor x (xor x y) ≡ y
unfolding xor
xor-xor [] [] h k = refl
xor-xor [] (b ∷ y) h k = absurd (omega arith)
xor-xor (a ∷ x) [] h k = absurd (omega arith)
xor-xor (a ∷ x) (b ∷ y) h k = ap₂ ◌∷◌ (omega arith) (xor-xor x y (omega arith) k.1)

pub weight-le-length : (x : List ℕ) → IsBits x → weight x ≤ length x
unfolding weight
weight-le-length [] h = omega arith
weight-le-length (b ∷ x) h = omega (arith, weight-le-length x h.1)

-- `p` at every word of `n` bits and of weight `w` at most.
unfoldable pub all_words : ℕ → ℕ → (List ℕ → Bool) → Bool
all_words zero w p = p []
all_words (suc n) zero p = all_words n zero (λ e. p (0 ∷ e))
all_words (suc n) (suc w) p = all_words n (suc w) (λ e. p (0 ∷ e)) && all_words n w (λ e. p (1 ∷ e))

pub all_words_sound :
    (n w : ℕ) (p : List ℕ → Bool) (e : List ℕ)
    → all_words n w p ≡ true
    → IsWord n e
    → weight e ≤ w
    → p e ≡ true
unfolding all_words weight
all_words_sound zero w p [] h bits small = h
all_words_sound zero w p (b ∷ e) h bits small = absurd (omega arith)
all_words_sound (suc n) w p [] h bits small = absurd (omega arith)
all_words_sound (suc n) zero p (zero ∷ e) h bits small =
    all_words_sound n zero (λ e'. p (0 ∷ e')) e h (bits.0.1, omega arith) (omega arith)
all_words_sound (suc n) zero p (suc b ∷ e) h bits small = absurd (omega arith)
all_words_sound (suc n) (suc w) p (zero ∷ e) h bits small =
    all_words_sound n (suc w) (λ e'. p (0 ∷ e')) e (ground arith) (bits.0.1, omega arith)
      (omega arith)
all_words_sound (suc n) (suc w) p (suc zero ∷ e) h bits small =
    all_words_sound n w (λ e'. p (1 ∷ e')) e (ground arith) (bits.0.1, omega arith) (omega arith)
all_words_sound (suc n) (suc w) p (suc (suc b) ∷ e) h bits small = absurd (omega arith)
