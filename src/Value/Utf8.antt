-- ===== src/Value/Utf8.antt =====
-- Python's strict UTF-8 codec on code points, which reads back what it writes.
use qchat.Prelude.{
  ℕ, zero, suc, ◌+◌, ◌-◌, ◌*◌, ◌/◌, ◌%◌, ◌≤◌, ◌<◌, ◌≡◌, refl, Bool, false, ◌&&◌, ◌||◌, not, List,
  [], ◌∷◌, ◌++◌, All, Result, ok, err, unicode_error, ◌>>=◌, ◌>>◌, raise_if, ltb, leb,
  if◌then◌else◌, arith, ◌==◌, nat_eq, ok-injective, raise_if-eq-ok, >>=-eq-ok, All-append, length,
  length-append,
}

is_surrogate : ℕ → Bool
is_surrogate c = leb 0xd800 c && ltb c 0xe000

-- The bytes of a code point.
pub char_bytes : ℕ → List ℕ
char_bytes c =
    if ltb c 0x80
    then c ∷ []
    else if ltb c 0x800
    then (0xc0 + c / 64) ∷ (0x80 + c % 64) ∷ []
    else if ltb c 0x10000
    then (0xe0 + c / 4096) ∷ (0x80 + c / 64 % 64) ∷ (0x80 + c % 64) ∷ []
    else (0xf0 + c / 262144) ∷ (0x80 + c / 4096 % 64) ∷ (0x80 + c / 64 % 64) ∷ (0x80 + c % 64) ∷ []

-- `bytes(s, 'utf-8')`
unfoldable pub utf8_encode : List ℕ → Result (List ℕ)
unfolding is_surrogate char_bytes
utf8_encode [] = ok []
utf8_encode (c ∷ s) = do
  raise_if (is_surrogate c) unicode_error
  bs ← utf8_encode s
  ok (char_bytes c ++ bs)

-- A decoder between two bytes: how many more the code point wants, its bits so far, and the least
-- value that is not written in fewer bytes.
record Decoder : Type 0 where
  need : ℕ
  bits : ℕ
  low : ℕ

abbrev idle : Decoder
idle = record { need = 0; bits = 0; low = 0 }

first_byte : ℕ → Result (Decoder × List ℕ)
first_byte b =
    if ltb b 0x80
    then ok (idle, b ∷ [])
    else if leb 0xc2 b && ltb b 0xe0
    then ok (record { need = 1; bits = b - 0xc0; low = 0x80 }, [])
    else if leb 0xe0 b && ltb b 0xf0
    then ok (record { need = 2; bits = b - 0xe0; low = 0x800 }, [])
    else if leb 0xf0 b && ltb b 0xf5
    then ok (record { need = 3; bits = b - 0xf0; low = 0x10000 }, [])
    else err unicode_error

next_byte : ℕ → Decoder → ℕ → Result (Decoder × List ℕ)
unfolding is_surrogate
next_byte more d b =
    let c = d.bits * 64 + (b - 0x80) in
    if not (leb 0x80 b && ltb b 0xc0)
    then err unicode_error
    else if not (more == 0)
    then ok (record d { need = more; bits = c }, [])
    else if ltb c d.low || (is_surrogate c || leb 0x110000 c)
    then err unicode_error
    else ok (idle, c ∷ [])

step : Decoder → ℕ → Result (Decoder × List ℕ)
unfolding first_byte next_byte
step d b = elim d.need [ zero ↦ first_byte b | suc more ↦ next_byte more d b ]

decode_from : Decoder → List ℕ → Result (List ℕ)
unfolding step
decode_from d [] = if d.need == 0 then ok [] else err unicode_error
decode_from d (b ∷ bs) = do (d', out) ← step d b; rest ← decode_from d' bs; ok (out ++ rest)

-- `str(bs, 'utf-8')`
unfoldable pub utf8_decode : List ℕ → Result (List ℕ)
unfolding decode_from
utf8_decode bs = decode_from idle bs

-- The code points of a Python string.
abbrev pub IsText : List ℕ → Type 0
IsText = All (λ c. c < 0x110000)

decode-char_bytes :
    (c : ℕ) (bs s : List ℕ)
    → c < 0x110000
    → is_surrogate c ≡ false
    → decode_from idle bs ≡ ok s
    → decode_from idle (char_bytes c ++ bs) ≡ ok (c ∷ s)
unfolding decode_from char_bytes
decode-char_bytes c bs s h u e = ground arith

pub utf8_decode-encode : (s bs : List ℕ) → IsText s → utf8_encode s ≡ ok bs → utf8_decode bs ≡ ok s
unfolding utf8_encode utf8_decode
utf8_decode-encode [] bs t e = rw (← ok-injective e) refl
utf8_decode-encode (c ∷ s) bs t e =
    let (plain, rest) = raise_if-eq-ok (is_surrogate c) unicode_error _ e in
    let (tail, done, same) = >>=-eq-ok (utf8_encode s) (λ r. ok (char_bytes c ++ r)) rest in
    rw (← ok-injective same)
      (decode-char_bytes c tail s t.0 plain (utf8_decode-encode s tail t.1 done))

byte_bounds : (c : ℕ) → c < 0x110000 → All (λ b. b < 256) (char_bytes c)
unfolding char_bytes
byte_bounds c h = ground arith

-- The encoding is bytes.
pub utf8_encode-IsBytes : (s bs : List ℕ) → IsText s → utf8_encode s ≡ ok bs → All (λ b. b < 256) bs
unfolding utf8_encode
utf8_encode-IsBytes [] bs t e = rw (← ok-injective e) tt
utf8_encode-IsBytes (c ∷ s) bs t e =
    let (plain, rest) = raise_if-eq-ok (is_surrogate c) unicode_error _ e in
    let (tail, done, same) = >>=-eq-ok (utf8_encode s) (λ r. ok (char_bytes c ++ r)) rest in
    rw (← ok-injective same)
      (All-append _ (char_bytes c) tail (byte_bounds c t.0) (utf8_encode-IsBytes s tail t.1 done))

char_bytes-nonzero : (c : ℕ) → 0 < c → c < 0x110000 → All (λ b. 0 < b) (char_bytes c)
unfolding char_bytes
char_bytes-nonzero c p h = ground arith

-- Only U+0000 has a zero byte in its encoding.
pub utf8_encode-nonzero :
    (s bs : List ℕ) → IsText s → All (λ c. 0 < c) s → utf8_encode s ≡ ok bs → All (λ b. 0 < b) bs
unfolding utf8_encode
utf8_encode-nonzero [] bs t p e = rw (← ok-injective e) tt
utf8_encode-nonzero (c ∷ s) bs t p e =
    let (plain, rest) = raise_if-eq-ok (is_surrogate c) unicode_error _ e in
    let (tail, done, same) = >>=-eq-ok (utf8_encode s) (λ r. ok (char_bytes c ++ r)) rest in
    rw (← ok-injective same) (
      All-append _ (char_bytes c) tail (char_bytes-nonzero c p.0 t.0)
        (utf8_encode-nonzero s tail t.1 p.1 done))

length-char_bytes-pos : (c : ℕ) → 0 < length (char_bytes c)
unfolding char_bytes
length-char_bytes-pos c = ground arith

-- A text has no more code points than bytes.
pub length-le-utf8_encode : (s bs : List ℕ) → utf8_encode s ≡ ok bs → length s ≤ length bs
unfolding utf8_encode
length-le-utf8_encode [] bs e = omega arith
length-le-utf8_encode (c ∷ s) bs e =
    let (plain, rest) = raise_if-eq-ok (is_surrogate c) unicode_error _ e in
    let (tail, done, same) = >>=-eq-ok (utf8_encode s) (λ r. ok (char_bytes c ++ r)) rest in
    rw (← ok-injective same) (
      omega (
        arith,
        length-append (char_bytes c) tail,
        length-char_bytes-pos c,
        length-le-utf8_encode s tail done,
      ))
