-- ===== src/Ecc.antt =====
-- qchat/ecc.py: the parity-check matrices, syndromes, the error vectors, and the class `ECC` with
-- its subclass `ECC_Golay`. A row vector is its list of entries; a numpy shape that does not fit
-- raises `ValueError`. The object is a record whose methods take it as their first argument.
pub mod Weight
pub mod Syndrome
pub mod Init
pub mod Table
pub mod Correct
pub mod Chunk
mod Tests
use qchat.Prelude.{
  ℕ, zero, suc, ◌+◌, ◌-◌, ◌*◌, ◌%◌, ◌&&◌, List, [], ◌∷◌, map, length, set, take, drop, replicate,
  none, some, Result, ok, err, value_error, index_error, key_error, ◌>>=◌, ◌>>◌, raise_if, not,
  if◌then◌else◌, ltb, leb, ◌==◌, nat_eq, list_eq,
}
use qchat.Prelude.Dict.{Dict, lookup, insert}

abbrev pub Matrix : Type 0
Matrix = List (List ℕ)

abbrev pub h_golay : Matrix
h_golay =
    (1 ∷ 0 ∷ 0 ∷ 1 ∷ 1 ∷ 1 ∷ 0 ∷ 0 ∷ 0 ∷ 1 ∷ 1 ∷ 1 ∷ 1 ∷ 0 ∷ 0 ∷ 0 ∷ 0 ∷ 0 ∷ 0 ∷ 0 ∷ 0 ∷ 0 ∷ 0 ∷ [])
    ∷ (1 ∷ 0 ∷ 1 ∷ 0 ∷ 1 ∷ 1 ∷ 0 ∷ 1 ∷ 1 ∷ 0 ∷ 0 ∷ 1 ∷ 0 ∷ 1 ∷ 0 ∷ 0 ∷ 0 ∷ 0 ∷ 0 ∷ 0 ∷ 0 ∷ 0 ∷ 0
        ∷ [])
    ∷ (1 ∷ 0 ∷ 1 ∷ 1 ∷ 0 ∷ 1 ∷ 1 ∷ 0 ∷ 1 ∷ 0 ∷ 1 ∷ 0 ∷ 0 ∷ 0 ∷ 1 ∷ 0 ∷ 0 ∷ 0 ∷ 0 ∷ 0 ∷ 0 ∷ 0 ∷ 0
        ∷ [])
    ∷ (1 ∷ 0 ∷ 1 ∷ 1 ∷ 1 ∷ 0 ∷ 1 ∷ 1 ∷ 0 ∷ 1 ∷ 0 ∷ 0 ∷ 0 ∷ 0 ∷ 0 ∷ 1 ∷ 0 ∷ 0 ∷ 0 ∷ 0 ∷ 0 ∷ 0 ∷ 0
        ∷ [])
    ∷ (1 ∷ 1 ∷ 0 ∷ 0 ∷ 1 ∷ 1 ∷ 1 ∷ 0 ∷ 1 ∷ 1 ∷ 0 ∷ 0 ∷ 0 ∷ 0 ∷ 0 ∷ 0 ∷ 1 ∷ 0 ∷ 0 ∷ 0 ∷ 0 ∷ 0 ∷ 0
        ∷ [])
    ∷ (1 ∷ 1 ∷ 0 ∷ 1 ∷ 0 ∷ 1 ∷ 1 ∷ 1 ∷ 0 ∷ 0 ∷ 0 ∷ 1 ∷ 0 ∷ 0 ∷ 0 ∷ 0 ∷ 0 ∷ 1 ∷ 0 ∷ 0 ∷ 0 ∷ 0 ∷ 0
        ∷ [])
    ∷ (1 ∷ 1 ∷ 0 ∷ 1 ∷ 1 ∷ 0 ∷ 0 ∷ 1 ∷ 1 ∷ 0 ∷ 1 ∷ 0 ∷ 0 ∷ 0 ∷ 0 ∷ 0 ∷ 0 ∷ 0 ∷ 1 ∷ 0 ∷ 0 ∷ 0 ∷ 0
        ∷ [])
    ∷ (1 ∷ 1 ∷ 1 ∷ 0 ∷ 0 ∷ 1 ∷ 0 ∷ 1 ∷ 0 ∷ 1 ∷ 1 ∷ 0 ∷ 0 ∷ 0 ∷ 0 ∷ 0 ∷ 0 ∷ 0 ∷ 0 ∷ 1 ∷ 0 ∷ 0 ∷ 0
        ∷ [])
    ∷ (1 ∷ 1 ∷ 1 ∷ 0 ∷ 1 ∷ 0 ∷ 1 ∷ 0 ∷ 0 ∷ 0 ∷ 1 ∷ 1 ∷ 0 ∷ 0 ∷ 0 ∷ 0 ∷ 0 ∷ 0 ∷ 0 ∷ 0 ∷ 1 ∷ 0 ∷ 0
        ∷ [])
    ∷ (1 ∷ 1 ∷ 1 ∷ 1 ∷ 0 ∷ 0 ∷ 0 ∷ 0 ∷ 1 ∷ 1 ∷ 0 ∷ 1 ∷ 0 ∷ 0 ∷ 0 ∷ 0 ∷ 0 ∷ 0 ∷ 0 ∷ 0 ∷ 0 ∷ 1 ∷ 0
        ∷ [])
    ∷ (0 ∷ 1 ∷ 1 ∷ 1 ∷ 1 ∷ 1 ∷ 1 ∷ 1 ∷ 1 ∷ 1 ∷ 1 ∷ 1 ∷ 0 ∷ 0 ∷ 0 ∷ 0 ∷ 0 ∷ 0 ∷ 0 ∷ 0 ∷ 0 ∷ 0 ∷ 1
        ∷ [])
    ∷ []

abbrev pub h_hamming : Matrix
h_hamming =
    (1 ∷ 0 ∷ 1 ∷ 0 ∷ 1 ∷ 0 ∷ 1 ∷ [])
    ∷ (0 ∷ 1 ∷ 1 ∷ 0 ∷ 0 ∷ 1 ∷ 1 ∷ [])
    ∷ (0 ∷ 0 ∷ 0 ∷ 1 ∷ 1 ∷ 1 ∷ 1 ∷ [])
    ∷ []

unfoldable pub dot : List ℕ → List ℕ → ℕ
dot [] v = 0
dot (a ∷ r) [] = 0
dot (a ∷ r) (b ∷ v) = a * b + dot r v

-- `H * v`, with the check of the shapes.
unfoldable pub mat_mul : Matrix → List ℕ → Result (List ℕ)
mat_mul [] v = ok []
mat_mul (r ∷ rows) v = do
  raise_if (not (length r == length v)) value_error
  s ← mat_mul rows v
  ok (dot r v ∷ s)

-- `x.reshape(1, n)` and `x.reshape(n, 1)`: the entries stay in order.
unfoldable pub reshape : ℕ → List ℕ → Result (List ℕ)
reshape n x = if length x == n then ok x else err value_error

abbrev pub mod_two : List ℕ → List ℕ
mod_two = map (λ b. b % 2)

unfoldable pub get_syndrome : Matrix → List ℕ → Result (List ℕ)
get_syndrome h v = do s ← mat_mul h v; reshape 11 (mod_two s)

-- `vec[-position] = 1`, where -0 is 0.
unfoldable pub e_vect : ℕ → ℕ → Result (List ℕ)
e_vect len position =
    let i = if position == 0 then 0 else len - position in
    if leb position len && ltb i len then ok (set (replicate len 0) i 1) else err index_error

-- The sum of two lists of one length.
unfoldable pub zip_add : List ℕ → List ℕ → List ℕ
zip_add [] ys = []
zip_add (x ∷ xs) [] = []
zip_add (x ∷ xs) (y ∷ ys) = (x + y) ∷ zip_add xs ys

-- The sum of two rows of different lengths: numpy broadcasts a row of one entry.
unfoldable pub broadcast_add : List ℕ → List ℕ → Result (List ℕ)
broadcast_add (x ∷ []) ys = ok (map (λ y. x + y) ys)
broadcast_add xs (y ∷ []) = ok (map (λ x. x + y) xs)
broadcast_add xs ys = err value_error

unfoldable pub add_rows : List ℕ → List ℕ → Result (List ℕ)
add_rows xs ys = if length xs == length ys then ok (zip_add xs ys) else broadcast_add xs ys

pub record Ecc : Type 0 where
  pub codeword_length : ℕ
  pub h : Matrix
  pub dict_h : Dict (List ℕ) (List ℕ)

-- `for a in xs`, over a state, with the first exception ending the loop.
unfoldable pub for_each {ℓ κ} :
    {A : Type ℓ} {S : Type κ} → List A → (A → S → Result S) → S → Result S
for_each [] body s = ok s
for_each (a ∷ xs) body s = do s' ← body a s; for_each xs body s'

unfoldable pub count_up : ℕ → ℕ → List ℕ
count_up a zero = []
count_up a (suc n) = a ∷ count_up (a + 1) n

-- `range(a, b)`
unfoldable pub range : ℕ → ℕ → List ℕ
unfolding count_up
range a b = count_up a (b - a)

-- The comprehension over `range(i, len(x), n)`, with the fuel of one round for each start.
unfoldable pub chunk_from : ℕ → ℕ → ℕ → List ℕ → List (List ℕ)
chunk_from zero n i x = []
chunk_from (suc fuel) n i x =
    let rest = chunk_from fuel n (i + n) x in
    if ltb i (length x) then take n (drop i x) ∷ rest else []

unfoldable pub chunk : Ecc → List ℕ → List (List ℕ)
unfolding chunk_from
chunk self x = chunk_from (length x) self.codeword_length 0 x

unfoldable pub encode : Ecc → List ℕ → Result (List ℕ)
encode self x = do v ← reshape self.codeword_length x; get_syndrome self.h v

unfoldable pub subscript : Dict (List ℕ) (List ℕ) → List ℕ → Result (List ℕ)
subscript d k = elim (lookup k d) [ none ↦ err key_error | some v ↦ ok v ]

unfoldable pub decode : Ecc → List ℕ → List ℕ → Result (List ℕ)
decode self x s = do
  xm ← reshape self.codeword_length x
  s_hat ← get_syndrome self.h xm
  cs ← add_rows s s_hat
  em ← subscript self.dict_h (mod_two cs)
  row ← reshape self.codeword_length xm
  sum ← add_rows row em
  ok (mod_two sum)

-- `self.dict_H[self.encode(v)] = v`
unfoldable pub record_error : List ℕ → Ecc → Result Ecc
record_error v self = do s ← encode self v; ok (record self { dict_h = insert s v self.dict_h })

-- The three nested loops of `ECC_Golay.__init__`, from the inside out.
unfoldable pub three_bits : List ℕ → ℕ → Ecc → Result Ecc
three_bits v_ij k self = do vk ← e_vect 23 k; v_ijk ← add_rows v_ij vk; record_error v_ijk self

unfoldable pub two_bits : List ℕ → ℕ → Ecc → Result Ecc
two_bits vi j self = do
  vj ← e_vect 23 j
  v_ij ← add_rows vi vj
  self' ← record_error v_ij self
  for_each (range (j + 1) 24) (three_bits v_ij) self'

unfoldable pub one_bit : ℕ → Ecc → Result Ecc
one_bit i self = do
  vi ← e_vect 23 i
  self' ← record_error vi self
  for_each (range (i + 1) 24) (two_bits vi) self'

unfoldable pub golay_init : Result Ecc
golay_init =
    for_each (range 1 24) one_bit
      (record { codeword_length = 23; h = h_golay; dict_h = (replicate 11 0, replicate 23 0) ∷ [] })
