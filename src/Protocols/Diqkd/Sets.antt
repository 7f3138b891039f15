-- ===== src/Protocols/Diqkd/Sets.antt =====
-- qchat/protocols.py, `_device_independent_epr_test`: the sets of tests, and the rounds that remain.
use Prim.Native.Nat.{bit_and, bit_xor}
use qchat.Prelude.{
  ℕ, zero, suc, ◌+◌, ◌≤◌, ◌<◌, ◌≡◌, refl, sym, ◌⊎◌, inl, inr, Bool, true, false, ◌||◌, List, [],
  ◌∷◌, All, length, Result, ok, arith, nat_eq, ◌==◌, if◌then◌else◌, Bool-cases,
}
use qchat.Protocols.Diqkd.{
  at, gather, filter_list, contains, count_from, without, is_chsh, is_match, TestSets, test_sets,
  winning, matches, check_devices,
}

pub at_ok : (l : List ℕ) (i : ℕ) → i < length l → (n : ℕ) × (at l i ≡ ok n)
unfolding at
at_ok [] i h = absurd (omega arith)
at_ok (n ∷ l) zero h = (n, refl)
at_ok (n ∷ l) (suc i) h = at_ok l i (omega arith)

at-All : (k : ℕ) (l : List ℕ) (i n : ℕ) → All (λ m. m < k) l → at l i ≡ ok n → n < k
unfolding at
at-All k [] i n small h = cc
at-All k (m ∷ l) zero n small h = ground (arith, small.0)
at-All k (m ∷ l) (suc i) n small h = at-All k l i n small.1 h

pub gather_ok :
    (k : ℕ) (l js : List ℕ)
    → All (λ m. m < k) l
    → All (λ j. j < length l) js
    → (ns : List ℕ) × (gather l js ≡ ok ns) × All (λ m. m < k) ns
unfolding gather
gather_ok k l [] small h = ([], refl, tt)
gather_ok k l (j ∷ js) small h =
    let (n, here) = at_ok l j h.0 in
    let (ns, later, rest) = gather_ok k l js small h.1 in
    (n ∷ ns, rw (here, later, gather) refl, (at-All k l j n small here, rest))

filter_list_ok :
    (P : ℕ → Type 0) (test : ℕ → Result Bool) (js : List ℕ)
    → ((j : ℕ) → P j → (b : Bool) × (test j ≡ ok b))
    → All P js
    → (ks : List ℕ) × (filter_list test js ≡ ok ks) × All P ks
unfolding filter_list
filter_list_ok P test [] total h = ([], refl, tt)
filter_list_ok P test (j ∷ js) total h =
    let (b, here) = total j h.0 in
    let (ks, later, rest) = filter_list_ok P test js total h.1 in
    (if b then j ∷ ks else ks, rw (here, later, filter_list) refl, keep b ks rest)
  where
    keep : (b : Bool) (ks : List ℕ) → All P ks → All P (if b then j ∷ ks else ks)
    keep true ks rest = (h.0, rest)
    keep false ks rest = rest

-- A round that is in range, and was not tested.
abbrev pub IsFresh : List ℕ → ℕ → ℕ → Type 0
IsFresh t n j = (j < n) × (contains j t ≡ false)

without-IsFresh :
    (t : List ℕ) (n i k : ℕ) → i + k ≤ n → All (IsFresh t n) (without (count_from i k) t)
unfolding without count_from
without-IsFresh t n i zero h = tt
without-IsFresh t n i (suc k) h = elim (Bool-cases (contains i t)) [
  | inl tested ↦ rw tested (without-IsFresh t n (i + 1) k (omega arith))
  | inr fresh ↦ rw fresh ((omega arith, fresh), without-IsFresh t n (i + 1) k (omega arith))
]

module _ (lead_theta follow_theta : List ℕ) (n : ℕ) (ll : length lead_theta ≡ n)
    (lf : length follow_theta ≡ n) where
  is_chsh_ok : (j : ℕ) → j < n → (b : Bool) × (is_chsh follow_theta j ≡ ok b)
  unfolding is_chsh
  is_chsh_ok j h =
      let (b, e) = at_ok follow_theta j (omega arith) in (b == 0 || b == 1, rw (e, is_chsh) refl)

  is_match_ok : (j : ℕ) → j < n → (b : Bool) × (is_match lead_theta follow_theta j ≡ ok b)
  unfolding is_match
  is_match_ok j h =
      let (a, ea) = at_ok lead_theta j (omega arith) in
      let (b, eb) = at_ok follow_theta j (omega arith) in
      (if a == 0 then b == 2 else false, rw (ea, eb, is_match) (pick (a == 0) (b == 2)))
    where
      pick : (c d : Bool) → (if c then ok d else ok false) ≡ ok (if c then d else false)
      pick true d = refl
      pick false d = refl

  -- The sets exist, and no remaining round was tested.
  pub test_sets_ok :
      (iterate_set : List ℕ → List ℕ) (t : List ℕ)
      → ((P : ℕ → Type 0) (l : List ℕ) → All P l → All P (iterate_set l))
      → All (λ j. j < n) t
      → (sets : TestSets) × (test_sets iterate_set lead_theta follow_theta n t ≡ ok sets)
        × All (IsFresh t n) sets.remaining
  unfolding test_sets
  test_sets_ok iterate_set t yields range =
      let (tp, etp, _) = filter_list_ok (λ j. j < n) (is_chsh follow_theta) t is_chsh_ok range in
      let (tpp, etpp, _) =
        filter_list_ok (λ j. j < n) (is_match lead_theta follow_theta) t is_match_ok range in
      let (r, er, fresh) =
        filter_list_ok (IsFresh t n) (is_match lead_theta follow_theta)
          (iterate_set (without (count_from 0 n) t)) (λ j h. is_match_ok j h.0)
          (yields (IsFresh t n) _ (without-IsFresh t n 0 n (omega arith))) in
      (
        record { chsh = tp; matching = tpp; remaining = r },
        rw (etp, etpp, er, test_sets) refl,
        fresh,
      )

matches_comm : (tpp t x y : List ℕ) → matches tpp t x y ≡ matches tpp t y x
unfolding matches
matches_comm tpp [] x y = refl
matches_comm tpp (j ∷ t) [] [] = refl
matches_comm tpp (j ∷ t) [] (b ∷ y) = refl
matches_comm tpp (j ∷ t) (a ∷ x) [] = refl
matches_comm tpp (j ∷ t) (a ∷ x) (b ∷ y) = ground (arith, matches_comm tpp t x y)

cases_3 : (a : ℕ) → a < 3 → (a ≡ 0) ⊎ ((a ≡ 1) ⊎ (a ≡ 2))
cases_3 a h = omega arith

comm_below_3 :
    (f : ℕ → ℕ → ℕ)
    → f 0 1 ≡ f 1 0
    → f 0 2 ≡ f 2 0
    → f 1 2 ≡ f 2 1
    → (a b : ℕ) → a < 3
    → b < 3
    → f a b ≡ f b a
comm_below_3 f p q r a b ha hb = elim (cases_3 a ha) [
  | inl e ↦ elim (cases_3 b hb) [
    | inl e' ↦ rw (e, e') refl
    | inr (inl e') ↦ rw (e, e') p
    | inr (inr e') ↦ rw (e, e') q
  ]
  | inr (inl e) ↦ elim (cases_3 b hb) [
    | inl e' ↦ rw (e, e') (sym p)
    | inr (inl e') ↦ rw (e, e') refl
    | inr (inr e') ↦ rw (e, e') r
  ]
  | inr (inr e) ↦ elim (cases_3 b hb) [
    | inl e' ↦ rw (e, e') (sym q)
    | inr (inl e') ↦ rw (e, e') (sym r)
    | inr (inr e') ↦ rw (e, e') refl
  ]
]

bit_xor_comm : (a b : ℕ) → a < 3 → b < 3 → bit_xor a b ≡ bit_xor b a
bit_xor_comm = comm_below_3 bit_xor refl refl refl

bit_and_comm : (a b : ℕ) → a < 3 → b < 3 → bit_and a b ≡ bit_and b a
bit_and_comm = comm_below_3 bit_and refl refl refl

module _ (theta theta_hat tp : List ℕ) (small : All (λ m. m < 3) theta)
    (small_hat : All (λ m. m < 3) theta_hat) where
  winning_comm :
      (t x y : List ℕ)
      → All (λ j. (j < length theta) × (j < length theta_hat)) t
      → All (λ m. m < 3) x
      → All (λ m. m < 3) y
      → winning theta theta_hat tp t x y ≡ winning theta_hat theta tp t y x
  unfolding winning
  winning_comm [] x y h hx hy = refl
  winning_comm (j ∷ t) [] [] h hx hy = refl
  winning_comm (j ∷ t) [] (b ∷ y) h hx hy = refl
  winning_comm (j ∷ t) (a ∷ x) [] h hx hy = refl
  winning_comm (j ∷ t) (a ∷ x) (b ∷ y) h hx hy =
      let (m, em) = at_ok theta j h.0.0 in
      let (n, en) = at_ok theta_hat j h.0.1 in
      rw
        (
          em,
          en,
          winning_comm t x y h.1 hx.1 hy.1,
          bit_xor_comm a b hx.0 hy.0,
          bit_and_comm m n (at-All 3 theta j m small em) (at-All 3 theta_hat j n small_hat en),
        )
        refl

  -- Both parties come to one verdict.
  pub check_devices_comm :
      (sets : TestSets) (t x y : List ℕ)
      → sets.chsh ≡ tp
      → All (λ j. (j < length theta) × (j < length theta_hat)) t
      → All (λ m. m < 3) x
      → All (λ m. m < 3) y
      → check_devices theta theta_hat sets t x y ≡ check_devices theta_hat theta sets t y x
  unfolding check_devices
  check_devices_comm sets t x y e h hx hy =
      rw (e, winning_comm t x y h hx hy, matches_comm sets.matching t x y) refl
