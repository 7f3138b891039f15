-- ===== src/Value/Words.antt =====
-- Python's `int.to_bytes` and `int.from_bytes`, big end first.
use qchat.Prelude.{
  ℕ, zero, suc, ◌+◌, ◌*◌, ◌/◌, ◌%◌, ◌^◌, ◌<◌, ◌≡◌, refl, ap, List, [], ◌∷◌, length, Result, ok, err,
  overflow_error, ltb, if◌then◌else◌, arith, Bool-cases, inl, inr, ltb→lt, lt→ltb, ok-injective,
  ok≢err, sym, All, ◌⊎◌, ◌≤◌, ltb→ge,
}

digits : ℕ → ℕ → List ℕ
digits zero n = []
digits (suc w) n = (n / 256 ^ w % 256) ∷ digits w n

-- `n.to_bytes(w, 'big')`
unfoldable pub to_bytes : ℕ → ℕ → Result (List ℕ)
unfolding digits
to_bytes w n = if ltb n (256 ^ w) then ok (digits w n) else err overflow_error

from_digits : ℕ → List ℕ → ℕ
from_digits acc [] = acc
from_digits acc (b ∷ bs) = from_digits (acc * 256 + b) bs

-- `int.from_bytes(bs, 'big')`
unfoldable pub from_bytes : List ℕ → ℕ
unfolding from_digits
from_bytes bs = from_digits 0 bs

length-digits : (w n : ℕ) → length (digits w n) ≡ w
unfolding digits
length-digits zero n = refl
length-digits (suc w) n = ap suc (length-digits w n)

to_bytes-eq-ok : (w n : ℕ) (bs : List ℕ) → to_bytes w n ≡ ok bs → (n < 256 ^ w) × (digits w n ≡ bs)
unfolding to_bytes
to_bytes-eq-ok w n bs h = elim (Bool-cases (ltb n (256 ^ w))) [
  | inl fits ↦ (ltb→lt n (256 ^ w) fits, ok-injective (rw fits at h))
  | inr long ↦ absurd (ok≢err (sym (rw long at h)))
]

pub length-to_bytes : (w n : ℕ) (bs : List ℕ) → to_bytes w n ≡ ok bs → length bs ≡ w
length-to_bytes w n bs h = rw (← (to_bytes-eq-ok w n bs h).1) (length-digits w n)

-- Four bytes read back as the number.
pub from_bytes-to_bytes : (n : ℕ) (bs : List ℕ) → to_bytes 4 n ≡ ok bs → from_bytes bs ≡ n
unfolding from_bytes digits
from_bytes-to_bytes n bs h = let (fits, same) = to_bytes-eq-ok 4 n bs h in rw (← same) (omega arith)

pub to_bytes_two : (n : ℕ) → n < 65536 → to_bytes 2 n ≡ ok (n / 256 ∷ n % 256 ∷ [])
unfolding to_bytes digits
to_bytes_two n h =
    let high : n / 256 % 256 ≡ n / 256 = omega arith in
    let low : n / 1 % 256 ≡ n % 256 = omega arith in rw (lt→ltb n 65536 h, high, low)

pub to_bytes_one : (n : ℕ) → n < 256 → to_bytes 1 n ≡ ok (n ∷ [])
unfolding to_bytes digits
to_bytes_one n h = let same : n / 1 % 256 ≡ n = omega arith in rw (lt→ltb n 256 h, same)

digits-IsBytes : (w n : ℕ) → All (λ b. b < 256) (digits w n)
unfolding digits
digits-IsBytes zero n = tt
digits-IsBytes (suc w) n = (omega arith, digits-IsBytes w n)

-- What `to_bytes` gives are bytes.
pub to_bytes-IsBytes : (w n : ℕ) (bs : List ℕ) → to_bytes w n ≡ ok bs → All (λ b. b < 256) bs
to_bytes-IsBytes w n bs h = rw (← (to_bytes-eq-ok w n bs h).1) (digits-IsBytes w n)

-- Four bytes hold the numbers below 2^32, and no others.
pub to_bytes_four :
    (n : ℕ)
    → ((n < 4294967296) × (bs : List ℕ) × (to_bytes 4 n ≡ ok bs))
      ⊎ ((4294967296 ≤ n) × (to_bytes 4 n ≡ err overflow_error))
unfolding to_bytes
to_bytes_four n = elim (Bool-cases (ltb n 4294967296)) [
  | inl fits ↦ inl (ltb→lt n 4294967296 fits, digits 4 n, rw fits refl)
  | inr long ↦ inr (ltb→ge n 4294967296 long, rw long refl)
]
