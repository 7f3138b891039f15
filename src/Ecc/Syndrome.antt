-- ===== src/Ecc/Syndrome.antt =====
-- Syndromes without the checks of shapes: when they pass, and that the syndrome is linear.
use qchat.Prelude.{
  ℕ, suc, ◌+◌, ◌*◌, ◌/◌, ◌%◌, ◌≡◌, refl, ap, ap₂, List, [], ◌∷◌, map, All, length, ok, arith,
  nat_beq_self,
}
use qchat.Ecc.{Matrix, dot, mat_mul, mod_two, reshape, get_syndrome}
use qchat.Ecc.Weight.{IsBits, xor}

unfoldable pub syndrome : Matrix → List ℕ → List ℕ
unfolding dot
syndrome h v = map (λ r. dot r v % 2) h

-- Every row has the given width.
abbrev pub HasWidth : ℕ → Matrix → Type 0
HasWidth n = All (λ r. length r ≡ n)

pub mat_mul_lem :
    (h : Matrix) (v : List ℕ) → HasWidth (length v) h → mat_mul h v ≡ ok (map (λ r. dot r v) h)
unfolding mat_mul
mat_mul_lem [] v w = refl
mat_mul_lem (r ∷ h) v w = rw (w.0, nat_beq_self, mat_mul_lem h v w.1)

pub length-syndrome : (h : Matrix) (v : List ℕ) → length (syndrome h v) ≡ length h
unfolding syndrome
length-syndrome [] v = refl
length-syndrome (r ∷ h) v = ap suc (length-syndrome h v)

mod_two-map : (h : Matrix) (v : List ℕ) → mod_two (map (λ r. dot r v) h) ≡ syndrome h v
unfolding syndrome
mod_two-map [] v = refl
mod_two-map (r ∷ h) v = ap (◌∷◌ (dot r v % 2)) (mod_two-map h v)

-- A matrix of eleven rows, as wide as the vector is long, gives its syndrome.
pub get_syndrome_lem :
    (h : Matrix) (v : List ℕ)
    → HasWidth (length v) h
    → length h ≡ 11
    → get_syndrome h v ≡ ok (syndrome h v)
unfolding get_syndrome reshape
get_syndrome_lem h v w rows =
    rw (mat_mul_lem h v w, mod_two-map h v, length-syndrome h v, rows) refl

mul-mod_two : (a n : ℕ) → (a * (n % 2)) % 2 ≡ (a * n) % 2
mul-mod_two a n =
    let e : n ≡ 2 * (n / 2) + n % 2 = omega arith in omega (arith, ap (λ (t : ℕ). a * t) e)

dot-xor :
    (r x y : List ℕ) → length x ≡ length y → dot r (xor x y) % 2 ≡ (dot r x % 2 + dot r y % 2) % 2
unfolding dot xor
dot-xor [] x y h = refl
dot-xor (a ∷ r) [] [] h = refl
dot-xor (a ∷ r) [] (c ∷ y) h = absurd (omega arith)
dot-xor (a ∷ r) (b ∷ x) [] h = absurd (omega arith)
dot-xor (a ∷ r) (b ∷ x) (c ∷ y) h =
    omega (arith, mul-mod_two a (b + c), dot-xor r x y (omega arith))

-- The syndrome of a difference is the difference of the syndromes.
pub syndrome-xor :
    (h : Matrix) (x y : List ℕ)
    → length x ≡ length y
    → syndrome h (xor x y) ≡ xor (syndrome h x) (syndrome h y)
unfolding syndrome xor
syndrome-xor [] x y e = refl
syndrome-xor (r ∷ h) x y e = ap₂ ◌∷◌ (dot-xor r x y e) (syndrome-xor h x y e)

pub syndrome-IsBits : (h : Matrix) (v : List ℕ) → IsBits (syndrome h v)
unfolding syndrome
syndrome-IsBits [] v = tt
syndrome-IsBits (r ∷ h) v = (omega arith, syndrome-IsBits h v)
