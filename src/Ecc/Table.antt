-- ===== src/Ecc/Table.antt =====
-- The dictionary `dict_H` read through a table keyed by bits, which is cheap to evaluate: every
-- syndrome of eleven bits has an entry, and each word of weight three or less is its own entry.
use qchat.Prelude.{
  ℕ, zero, suc, ◌≤◌, ◌≡◌, refl, Bool, true, false, ◌&&◌, Option, none, some, List, [], ◌∷◌, arith,
  ◌==◌, nat_eq, list_eq, nat_beq, length, replicate, ltb, leb, if◌then◌else◌, list_beq_iff, ap,
  &&-true, leb→le, sym, ◌∙◌,
}
use qchat.Prelude.Dict.{Dict, lookup, insert, lookup-insert}
use qchat.Ecc.{h_golay}
use qchat.Ecc.Weight.{IsBits, IsWord, weight, all_words, all_words_sound, weight-le-length}
use qchat.Ecc.Syndrome.{syndrome, length-syndrome, syndrome-IsBits}
use qchat.Ecc.Init.{recorded, store_all, start}

data Trie : Type 0 where
  leaf : Trie
  tip : List ℕ → Trie
  fork : Trie → Trie → Trie

put : List ℕ → List ℕ → Trie → Trie
put [] v t = tip v
put (b ∷ k) v (fork l r) = elim (nat_beq b 0) [
  | true ↦ fork (put k v l) r
  | false ↦ fork l (put k v r)
]
put (b ∷ k) v _ = elim (nat_beq b 0) [
  | true ↦ fork (put k v leaf) leaf
  | false ↦ fork leaf (put k v leaf)
]

find : List ℕ → Trie → Option (List ℕ)
find [] (tip v) = some v
find (b ∷ k) (fork l r) = elim (nat_beq b 0) [ true ↦ find k l | false ↦ find k r ]
find _ _ = none

-- Keys of `n` bits end at a tip.
abbrev HasDepth : ℕ → Trie → Type 0
HasDepth n leaf = Unit
HasDepth n (tip v) = n ≡ 0
HasDepth zero (fork l r) = ⊥
HasDepth (suc n) (fork l r) = HasDepth n l × HasDepth n r

put-HasDepth : (k v : List ℕ) (t : Trie) → HasDepth (length k) t → HasDepth (length k) (put k v t)
unfolding put
put-HasDepth [] v t h = refl
put-HasDepth (b ∷ k) v leaf h = ground (arith, put-HasDepth k v leaf tt)
put-HasDepth (b ∷ k) v (tip w) h = absurd (omega arith)
put-HasDepth (b ∷ k) v (fork l r) h = ground (arith, put-HasDepth k v l h.0, put-HasDepth k v r h.1)

find-leaf : (j : List ℕ) → find j leaf ≡ none
unfolding find
find-leaf [] = refl
find-leaf (b ∷ j) = refl

find-put :
    (k j v : List ℕ) (t : Trie)
    → HasDepth (length k) t
    → IsBits k
    → IsWord (length k) j
    → find j (put k v t) ≡ (if j == k then some v else find j t)
unfolding find put
find-put [] [] v t d p q = refl
find-put [] (c ∷ j) v t d p q = absurd (omega arith)
find-put (b ∷ k) [] v t d p q = absurd (omega arith)
find-put (b ∷ k) (c ∷ j) v leaf d p q =
    ground (arith, find-leaf j, find-put k j v leaf tt p.1 (q.0.1, omega arith))
find-put (b ∷ k) (c ∷ j) v (tip w) d p q = absurd (omega arith)
find-put (b ∷ k) (c ∷ j) v (fork l r) d p q = ground (
  arith,
  find-put k j v l d.0 p.1 (q.0.1, omega arith),
  find-put k j v r d.1 p.1 (q.0.1, omega arith),
)

store_in : List (List ℕ) → Trie → Trie
unfolding put syndrome
store_in [] t = t
store_in (v ∷ vs) t = store_in vs (put (syndrome h_golay v) v t)

-- The table answers every key of eleven bits as the dictionary does.
record Agrees (d : Dict (List ℕ) (List ℕ)) (t : Trie) : Type 0 where
  depth : HasDepth 11 t
  same : (s : List ℕ) → IsWord 11 s → lookup s d ≡ find s t

Agrees-insert :
    (k v : List ℕ) (d : Dict (List ℕ) (List ℕ)) (t : Trie)
    → IsBits k
    → length k ≡ 11
    → Agrees d t
    → Agrees (insert k v d) (put k v t)
Agrees-insert k v d t bits len a = record {
  depth = rw len at (put-HasDepth k v t (rw len a.depth));
  same = λ s w.
      rw (lookup-insert k s v d, find-put k s v t (rw len a.depth) bits (rw len w))
        (ap (λ o. if s == k then some v else o) (a.same s w));
}

Agrees-store :
    (vs : List (List ℕ)) (d : Dict (List ℕ) (List ℕ)) (t : Trie)
    → Agrees d t
    → Agrees (store_all vs d) (store_in vs t)
unfolding store_all store_in
Agrees-store [] d t a = a
Agrees-store (v ∷ vs) d t a = Agrees-store vs _ _ (
    Agrees-insert (syndrome h_golay v) v d t (syndrome-IsBits h_golay v) (length-syndrome h_golay v)
      a)

errors : Trie
unfolding store_in recorded
errors = store_in recorded (put (replicate 11 0) (replicate 23 0) leaf)

abbrev pub dict_h : Dict (List ℕ) (List ℕ)
dict_h = store_all recorded start

errors-Agrees : Agrees dict_h errors
unfolding errors lookup insert
errors-Agrees = Agrees-store recorded start _ (
    Agrees-insert (replicate 11 0) (replicate 23 0) [] leaf (omega arith) refl
      (record { depth = tt; same = λ s w. sym (find-leaf s) }))

is_word : ℕ → List ℕ → Bool
is_word n [] = n == 0
is_word zero (b ∷ x) = false
is_word (suc n) (b ∷ x) = ltb b 2 && is_word n x

is_word_sound : (n : ℕ) (x : List ℕ) → is_word n x ≡ true → IsWord n x
unfolding is_word
is_word_sound n [] h = (tt, ground arith)
is_word_sound zero (b ∷ x) h = cc
is_word_sound (suc n) (b ∷ x) h = ground (arith, is_word_sound n x)

is_own : List ℕ → Option (List ℕ) → Bool
is_own e none = false
is_own e (some v) = v == e

explains : List ℕ → Option (List ℕ) → Bool
unfolding is_word weight syndrome
explains s none = false
explains s (some v) = is_word 23 v && (leb (weight v) 3 && syndrome h_golay v == s)

is_own_sound : (e : List ℕ) (o : Option (List ℕ)) → is_own e o ≡ true → o ≡ some e
unfolding is_own
is_own_sound e none h = cc
is_own_sound e (some v) h = ap some ((list_beq_iff v e).0 h)

explains_sound :
    (s : List ℕ) (o : Option (List ℕ))
    → explains s o ≡ true
    → (e : List ℕ) × (o ≡ some e) × IsWord 23 e × (weight e ≤ 3) × (syndrome h_golay e ≡ s)
unfolding explains
explains_sound s none h = cc
explains_sound s (some v) h =
    let (word, rest) = &&-true _ _ h in
    let (small, synd) = &&-true _ _ rest in
    (
      v,
      refl,
      is_word_sound 23 v word,
      leb→le (weight v) 3 small,
      (list_beq_iff (syndrome h_golay v) s).0 synd,
    )

-- The two evaluations.
own : all_words 23 3 (λ e. is_own e (find (syndrome h_golay e) errors)) ≡ true
unfolding all_words is_own find syndrome errors
own = refl

every : all_words 11 11 (λ s. explains s (find s errors)) ≡ true
unfolding all_words explains find errors
every = refl

pub lookup-syndrome :
    (e : List ℕ) → IsWord 23 e → weight e ≤ 3 → lookup (syndrome h_golay e) dict_h ≡ some e
lookup-syndrome e w small =
    let fact =
      all_words_sound 23 3 (λ x. is_own x (find (syndrome h_golay x) errors)) e own w small in
    errors-Agrees.same _ (syndrome-IsBits h_golay e, length-syndrome h_golay e)
    ∙ is_own_sound e (find (syndrome h_golay e) errors) fact

pub lookup_covers :
    (s : List ℕ)
    → IsWord 11 s
    → (e : List ℕ) × (lookup s dict_h ≡ some e)
      × IsWord 23 e
      × (weight e ≤ 3)
      × (syndrome h_golay e ≡ s)
lookup_covers s w =
    let fact =
      all_words_sound 11 11 (λ x. explains x (find x errors)) s every w
        (rw (← w.1) (weight-le-length s w.0)) in
    let (e, found, is, small, synd) = explains_sound s (find s errors) fact in
    (e, errors-Agrees.same s w ∙ found, is, small, synd)
