-- ===== src/Ecc/Tests.antt =====
-- `ECC_Golay` on concrete words.
use qchat.Prelude.{
  ℕ, ◌≤◌, ◌≡◌, refl, List, [], ◌∷◌, ◌++◌, replicate, ok, err, value_error, ◌>>=◌, arith,
}
use qchat.Ecc.{h_hamming, encode, decode, get_syndrome, golay_init}
use qchat.Ecc.Weight.{IsWord, distance}
use qchat.Ecc.Correct.{golay_corrects, golay_complete, get_syndrome-hamming}

-- The leader's word, and the follower's, which has three other bits.
abbrev word : List ℕ
word = 1 ∷ 0 ∷ 1 ∷ 1 ∷ replicate 19 0

abbrev noisy : List ℕ
noisy = 1 ∷ 1 ∷ 1 ∷ 0 ∷ (replicate 18 0 ++ 1 ∷ [])

word-IsWord : IsWord 23 word
word-IsWord = omega arith

noisy-IsWord : IsWord 23 noisy
noisy-IsWord = omega arith

close : distance noisy word ≤ 3
unfolding distance
close = omega arith

golay_corrects_example : (do ecc ← golay_init; s ← encode ecc word; decode ecc noisy s) ≡ ok word
golay_corrects_example = golay_corrects noisy word noisy-IsWord word-IsWord close

abbrev some_syndrome : List ℕ
some_syndrome = 1 ∷ 1 ∷ 0 ∷ 1 ∷ replicate 7 0

some_syndrome-IsWord : IsWord 11 some_syndrome
some_syndrome-IsWord = omega arith

golay_complete_example :
    (y : List ℕ) × ((do ecc ← golay_init; decode ecc word some_syndrome) ≡ ok y)
    × IsWord 23 y
    × (distance word y ≤ 3)
    × ((do ecc ← golay_init; encode ecc y) ≡ ok some_syndrome)
golay_complete_example = golay_complete word some_syndrome word-IsWord some_syndrome-IsWord

get_syndrome-hamming_example :
    get_syndrome h_hamming (1 ∷ 0 ∷ 1 ∷ 0 ∷ 1 ∷ 0 ∷ 1 ∷ []) ≡ err value_error
get_syndrome-hamming_example = get_syndrome-hamming (1 ∷ 0 ∷ 1 ∷ 0 ∷ 1 ∷ 0 ∷ 1 ∷ []) refl
