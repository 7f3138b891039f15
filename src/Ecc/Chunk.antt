-- ===== src/Ecc/Chunk.antt =====
-- `ECC.chunk` cuts a list into codewords: nothing is lost, and only the last piece may be short.
use qchat.Prelude.{
  ℕ, zero, suc, ◌+◌, ◌≤◌, ◌<◌, ◌≡◌, refl, ap, sym, ◌∙◌, List, [], ◌∷◌, ◌++◌, length, take, drop,
  arith, length-take, length-drop, take-append-drop, Bool-cases, inl, inr, ltb, ltb→lt, le→ltb,
  ltb→ge, length-eq-zero,
}
use qchat.Ecc.{Ecc, chunk, chunk_from}

-- All pieces joined.
unfoldable pub join {ℓ} : {A : Type ℓ} → List (List A) → List A
join [] = []
join (c ∷ cs) = c ++ join cs

-- Pieces of `n` entries, of which the last may be shorter but not empty.
abbrev pub IsChunked : ℕ → List (List ℕ) → Type 0
IsChunked n [] = Unit
IsChunked n (c ∷ []) = (0 < length c) × (length c ≤ n)
IsChunked n (c ∷ c' ∷ cs) = (length c ≡ n) × IsChunked n (c' ∷ cs)

drop-nil : (n : ℕ) → drop {A = ℕ} n [] ≡ []
drop-nil zero = refl
drop-nil (suc n) = refl

drop-drop : (a b : ℕ) (x : List ℕ) → drop b (drop a x) ≡ drop (a + b) x
drop-drop zero b x = ap (λ n. drop n x) (omega arith)
drop-drop (suc a) b [] = drop-nil b ∙ sym (drop-nil (suc a + b))
drop-drop (suc a) b (c ∷ x) =
    let e : suc (a + b) ≡ suc a + b = omega arith in drop-drop a b x ∙ ap (λ n. drop n (c ∷ x)) e

drop_of_length-le : (n : ℕ) (x : List ℕ) → length x ≤ n → drop n x ≡ []
drop_of_length-le n x h = length-eq-zero (drop n x) (omega (arith, length-drop n x))

IsChunked-cons :
    (n : ℕ) (c : List ℕ) (cs : List (List ℕ))
    → 0 < n
    → length c ≡ n
    → IsChunked n cs
    → IsChunked n (c ∷ cs)
IsChunked-cons n c [] pos len h = omega arith
IsChunked-cons n c (c' ∷ cs) pos len h = (len, h)

module _ (n : ℕ) (pos : 0 < n) (x : List ℕ) where
  chunk_from-nil : (fuel i : ℕ) → length x ≤ i → chunk_from fuel n i x ≡ []
  unfolding chunk_from
  chunk_from-nil zero i h = refl
  chunk_from-nil (suc fuel) i h = rw (le→ltb i (length x) h)

  join-chunk_from : (fuel i : ℕ) → length x ≤ i + fuel → join (chunk_from fuel n i x) ≡ drop i x
  unfolding chunk_from join
  join-chunk_from zero i h = sym (drop_of_length-le i x (omega arith))
  join-chunk_from (suc fuel) i h = elim (Bool-cases (ltb i (length x))) [
    | inl more ↦ rw more (
        ap (λ r. take n (drop i x) ++ r)
          (join-chunk_from fuel (i + n) (omega arith) ∙ sym (drop-drop i n x))
        ∙ take-append-drop n (drop i x))
    | inr done ↦ rw done (sym (drop_of_length-le i x (ltb→ge i (length x) done)))
  ]

  chunk_from-IsChunked : (fuel i : ℕ) → length x ≤ i + fuel → IsChunked n (chunk_from fuel n i x)
  unfolding chunk_from
  chunk_from-IsChunked zero i h = tt
  chunk_from-IsChunked (suc fuel) i h = elim (Bool-cases (ltb i (length x))) [
    | inl more ↦ rw more (elim (Bool-cases (ltb (length x) (i + n))) [
      | inl short ↦
          rw (chunk_from-nil fuel (i + n) (omega (arith, ltb→lt (length x) (i + n) short))) (
            omega (
              arith,
              length-take n (drop i x),
              length-drop i x,
              ltb→lt i (length x) more,
              ltb→lt (length x) (i + n) short,
            ))
      | inr full ↦
          IsChunked-cons n _ _ pos
            (omega
              (arith, length-take n (drop i x), length-drop i x, ltb→ge (length x) (i + n) full))
            (chunk_from-IsChunked fuel (i + n) (omega arith))
    ])
    | inr done ↦ rw done tt
  ]

-- `chunk` loses nothing and adds nothing: its pieces joined are the list, each piece but the last
-- has the length of a codeword, and the last is not empty and not longer.
chunk-IsChunked :
    (self : Ecc) (x : List ℕ)
    → 0 < self.codeword_length
    → (join (chunk self x) ≡ x) × IsChunked self.codeword_length (chunk self x)
unfolding chunk
chunk-IsChunked self x pos = (
  join-chunk_from self.codeword_length pos x (length x) 0 (omega arith),
  chunk_from-IsChunked self.codeword_length pos x (length x) 0 (omega arith),
)
