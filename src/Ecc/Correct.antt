-- ===== src/Ecc/Correct.antt =====
-- What `ECC_Golay` promises: its constructor returns a code that corrects three errors, answers
-- every syndrome, and cuts a bit string into codewords without loss.
use qchat.Prelude.{
  ℕ, ◌≤◌, ◌≡◌, refl, ap, ◌∙◌, sym, List, length, some, ok, err, ◌>>=◌, value_error, arith,
  nat_beq_self, nat_eq, list_eq,
}
use qchat.Prelude.Dict.{Dict, lookup}
use qchat.Ecc.{
  Ecc, h_golay, h_hamming, reshape, add_rows, zip_add, subscript, encode, decode, golay_init,
  get_syndrome,
}
use qchat.Ecc.Weight.{IsWord, distance, xor, xor_comm, length-xor, xor-IsBits, weight-xor, xor-xor}
use qchat.Ecc.Syndrome.{syndrome, mat_mul_lem, get_syndrome_lem, syndrome-xor, length-syndrome}
use qchat.Ecc.Init.{golay, golay_init_lem}
use qchat.Ecc.Table.{dict_h, lookup-syndrome, lookup_covers}

-- The code that the constructor returns.
abbrev pub ecc_golay : Ecc
ecc_golay = golay dict_h

pub reshape_lem : (n : ℕ) (x : List ℕ) → length x ≡ n → reshape n x ≡ ok x
unfolding reshape
reshape_lem n x h = rw (h, nat_beq_self)

add_rows_lem : (x y : List ℕ) → length x ≡ length y → add_rows x y ≡ ok (zip_add x y)
unfolding add_rows
add_rows_lem x y h = rw (h, nat_beq_self)

get_syndrome-golay : (x : List ℕ) → length x ≡ 23 → get_syndrome h_golay x ≡ ok (syndrome h_golay x)
get_syndrome-golay x h = get_syndrome_lem h_golay x (rw h (omega arith)) refl

pub encode_lem : (x : List ℕ) → length x ≡ 23 → encode ecc_golay x ≡ ok (syndrome h_golay x)
unfolding encode
encode_lem x h = rw (reshape_lem 23 x h) (get_syndrome-golay x h)

subscript_lem :
    (d : Dict (List ℕ) (List ℕ)) (k v : List ℕ) → lookup k d ≡ some v → subscript d k ≡ ok v
unfolding subscript
subscript_lem d k v h = rw (h, subscript)

-- Decoding, once the entry of the summed syndromes is known.
module _ (x s e : List ℕ) (lx : length x ≡ 23) (ls : length s ≡ 11) (le : length e ≡ 23)
    (found : lookup (xor s (syndrome h_golay x)) dict_h ≡ some e) where
  decode_lem : decode ecc_golay x s ≡ ok (xor x e)
  unfolding decode xor
  decode_lem = rw (
    reshape_lem 23 x lx,
    get_syndrome-golay x lx,
    add_rows_lem s (syndrome h_golay x) (ls ∙ sym (length-syndrome h_golay x)),
    subscript_lem dict_h _ e found,
    reshape_lem 23 x lx,
    add_rows_lem x e (lx ∙ sym le),
  )

pub decode-encode :
    (x y : List ℕ)
    → IsWord 23 x
    → IsWord 23 y
    → distance x y ≤ 3
    → (encode ecc_golay y >>= decode ecc_golay x) ≡ ok y
decode-encode x y wx wy near =
    let same : length x ≡ length y = wx.1 ∙ sym wy.1 in
    let e : List ℕ = xor x y in
    let len : length e ≡ 23 = length-xor x y same ∙ wx.1 in
    let own : lookup (syndrome h_golay e) dict_h ≡ some e =
      lookup-syndrome e (xor-IsBits x y, len) (rw (weight-xor x y same) near) in
    let sums : xor (syndrome h_golay y) (syndrome h_golay x) ≡ syndrome h_golay e =
      xor_comm (syndrome h_golay y) (syndrome h_golay x)
        (length-syndrome h_golay y ∙ sym (length-syndrome h_golay x))
      ∙ sym (syndrome-xor h_golay x y same) in
    rw (encode_lem y wy.1) (
      decode_lem x (syndrome h_golay y) e wx.1 (length-syndrome h_golay y) len (rw sums own)
      ∙ ap ok (xor-xor x y same wy.0))

-- Error correction: the constructor of `ECC_Golay` returns a code with which a receiver whose word
-- of 23 bits differs from the sender's in at most three places recovers the sender's word from its
-- syndrome; no step raises.
pub golay_corrects :
    (x y : List ℕ)
    → IsWord 23 x
    → IsWord 23 y
    → distance x y ≤ 3
    → (do ecc ← golay_init; s ← encode ecc y; decode ecc x s) ≡ ok y
golay_corrects x y wx wy near = rw golay_init_lem (decode-encode x y wx wy near)

-- Complete decoding: against every syndrome of eleven bits, decoding a word of 23 bits never meets
-- a missing key; the result is a word with that syndrome, at most three places away.
pub golay_complete :
    (x s : List ℕ)
    → IsWord 23 x
    → IsWord 11 s
    → (y : List ℕ) × ((do ecc ← golay_init; decode ecc x s) ≡ ok y)
      × IsWord 23 y
      × (distance x y ≤ 3)
      × ((do ecc ← golay_init; encode ecc y) ≡ ok s)
golay_complete x s wx ws =
    let sx : List ℕ = syndrome h_golay x in
    let lens : length s ≡ length sx = ws.1 ∙ sym (length-syndrome h_golay x) in
    let (e, found, we, small, synd) =
      lookup_covers (xor s sx) (xor-IsBits s sx, length-xor s sx lens ∙ ws.1) in
    let same : length x ≡ length e = wx.1 ∙ sym we.1 in
    let len : length (xor x e) ≡ 23 = length-xor x e same ∙ wx.1 in
    (
      xor x e,
      rw golay_init_lem (decode_lem x s e wx.1 ws.1 we.1 found),
      (xor-IsBits x e, len),
      rw (← weight-xor x (xor x e) (sym (length-xor x e same)), xor-xor x e same we.0) small,
      rw golay_init_lem (
          encode_lem (xor x e) len
          ∙ ap ok (
              syndrome-xor h_golay x e same
              ∙ ap (xor sx) (synd ∙ xor_comm s sx lens)
              ∙ xor-xor sx s (sym lens) ws.0)),
    )

-- `ECC_Hamming` cannot work: `getSyndrome` reshapes every syndrome to eleven entries, and the
-- three rows of the Hamming matrix raise `ValueError` on every codeword of seven bits.
pub get_syndrome-hamming : (x : List ℕ) → length x ≡ 7 → get_syndrome h_hamming x ≡ err value_error
unfolding get_syndrome reshape
get_syndrome-hamming x h = rw (mat_mul_lem h_hamming x (rw h (omega arith))) refl
