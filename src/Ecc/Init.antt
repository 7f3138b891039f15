-- ===== src/Ecc/Init.antt =====
-- The nested loops of `ECC_Golay.__init__`, unrolled: which words they record, in which order.
use qchat.Prelude.{ℕ, ◌+◌, ◌-◌, ◌≡◌, refl, List, [], ◌∷◌, ◌++◌, replicate, set, ok, nat_eq, list_eq}
use qchat.Prelude.Dict.{Dict, insert}
use qchat.Ecc.{Ecc, h_golay, zip_add, count_up, range, golay_init}
use qchat.Ecc
use qchat.Ecc.Syndrome.{syndrome}

unit : ℕ → List ℕ
unit k = set (replicate 23 0) (23 - k) 1

-- The words that the loop over `k` records, then the loops over `j` and over `i`.
threes : List ℕ → List ℕ → List (List ℕ)
unfolding unit zip_add
threes v [] = []
threes v (k ∷ ks) = zip_add v (unit k) ∷ threes v ks

twos : List ℕ → List ℕ → List (List ℕ)
unfolding threes range
twos v [] = []
twos v (j ∷ js) =
    let v_ij = zip_add v (unit j) in (v_ij ∷ threes v_ij (range (j + 1) 24)) ++ twos v js

ones : List ℕ → List (List ℕ)
unfolding twos
ones [] = []
ones (i ∷ is) = (unit i ∷ twos (unit i) (range (i + 1) 24)) ++ ones is

unfoldable pub recorded : List (List ℕ)
unfolding ones
recorded = ones (range 1 24)

-- The dictionary after each word of the list is stored under its syndrome.
unfoldable pub store_all : List (List ℕ) → Dict (List ℕ) (List ℕ) → Dict (List ℕ) (List ℕ)
store_all [] d = d
store_all (v ∷ vs) d = store_all vs (insert (syndrome h_golay v) v d)

abbrev pub start : Dict (List ℕ) (List ℕ)
start = (replicate 11 0, replicate 23 0) ∷ []

abbrev pub golay : Dict (List ℕ) (List ℕ) → Ecc
golay d = record { codeword_length = 23; h = h_golay; dict_h = d }

pub golay_init_lem : golay_init ≡ ok (golay (store_all recorded start))
unfolding golay_init Ecc.one_bit Ecc.two_bits Ecc.three_bits Ecc.record_error Ecc.encode Ecc.reshape
    Ecc.get_syndrome Ecc.mat_mul Ecc.dot Ecc.e_vect Ecc.add_rows Ecc.for_each recorded store_all
    syndrome
golay_init_lem = refl
