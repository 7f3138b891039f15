-- ===== src/Protocols/Diqkd.antt =====
-- qchat/protocols.py, `DIQKD`: the test of the devices, run by both parties with the branch of their
-- role. A peer's list holds natural numbers; any other entry raises here. The order in which Python
-- goes through a set is a parameter.
pub mod Sets
pub mod Runs
pub mod Agreement
pub mod Execute
mod Tests
use Prim.Native.Nat.{bit_and, bit_xor}
use qchat.Prelude.{
  ℕ, zero, suc, ◌+◌, ◌*◌, ◌/◌, ◌≡◌, Bool, true, false, not, ◌&&◌, ◌||◌, List, [], ◌∷◌, map, length,
  Option, none, some, get_elem?, Result, ok, err, Error, index_error, type_error, zero_division,
  protocol_exception, raise_if, ltb, nat_beq, nat_eq, ◌==◌, if◌then◌else◌,
}
use qchat.Prelude
use qchat.Value.{Bytes, Value, arr, bool, int, pos, Items, nil, cons, Fields, end, field, codes}
use qchat.Messages.{Json, dqkd, Message}
use qchat.Protocols.{
  Role, leader, follower, Action, return, lift, ◌>>=◌, ◌>>◌, item, randint, get_role, ints,
  wait_for_control_message, send_control_message, exchange_messages,
}

-- A peer's list of numbers.
unfoldable pub numbers : Items → Result (List ℕ)
numbers nil = ok []
numbers (cons (int (pos n)) vs) = elim (numbers vs) [ err e ↦ err e | ok ns ↦ ok (n ∷ ns) ]
numbers (cons (bool b) vs) = elim (numbers vs) [
  | err e ↦ err e
  | ok ns ↦ ok ((if b then 1 else 0) ∷ ns)
]
numbers (cons v vs) = err type_error

unfoldable pub numbers_of : Value → Result (List ℕ)
unfolding numbers
numbers_of (arr vs) = numbers vs
numbers_of v = err type_error

-- `l[i]`
unfoldable pub at : List ℕ → ℕ → Result ℕ
at l i = elim (get_elem? l i) [ none ↦ err index_error | some n ↦ ok n ]

-- `[l[j] for j in js]`
unfoldable pub gather : List ℕ → List ℕ → Result (List ℕ)
unfolding at
gather l [] = ok []
gather l (j ∷ js) = elim (at l j) [
  | err e ↦ err e
  | ok n ↦ elim (gather l js) [ err e ↦ err e | ok ns ↦ ok (n ∷ ns) ]
]

-- `[j for j in js if test(j)]`
unfoldable pub filter_list : (ℕ → Result Bool) → List ℕ → Result (List ℕ)
filter_list test [] = ok []
filter_list test (j ∷ js) = elim (test j) [
  | err e ↦ err e
  | ok b ↦ elim (filter_list test js) [
    | err e ↦ err e
    | ok rest ↦ ok (if b then j ∷ rest else rest)
  ]
]

-- `j in js`
unfoldable pub contains : ℕ → List ℕ → Bool
contains j [] = false
contains j (k ∷ ks) = j == k || contains j ks

unfoldable pub count_from : ℕ → ℕ → List ℕ
count_from i zero = []
count_from i (suc n) = i ∷ count_from (i + 1) n

-- `set(range(n)) - set(T)`, in ascending order
unfoldable pub without : List ℕ → List ℕ → List ℕ
unfolding contains
without [] t = []
without (j ∷ js) t = let rest = without js t in if contains j t then rest else j ∷ rest

-- `basis_hat in [0, 1]`, and `basis == 0 and basis_hat == 2`, for the bases of the leader and of the
-- follower in the round
unfoldable pub is_chsh : List ℕ → ℕ → Result Bool
unfolding at
is_chsh follow_theta j = Prelude.◌>>=◌ (at follow_theta j) (λ b. ok (b == 0 || b == 1))

unfoldable pub is_match : List ℕ → List ℕ → ℕ → Result Bool
unfolding at
is_match lead_theta follow_theta j = Prelude.◌>>=◌ (at lead_theta j) (λ a.
    let rest : Result Bool = Prelude.◌>>=◌ (at follow_theta j) (λ b. ok (b == 2)) in
    if a == 0 then rest else ok false)

-- `Tp`, `Tpp` and `R`
pub record TestSets : Type 0 where
  pub chsh : List ℕ
  pub matching : List ℕ
  pub remaining : List ℕ

module _ (iterate_set : List ℕ → List ℕ) where
  -- The sets of tests, by the bases of the leader and of the follower.
  unfoldable pub test_sets : List ℕ → List ℕ → ℕ → List ℕ → Result TestSets
  unfolding filter_list is_chsh is_match without count_from
  test_sets lead_theta follow_theta n t =
      Prelude.◌>>=◌ (filter_list (is_chsh follow_theta) t) (λ tp.
        Prelude.◌>>=◌ (filter_list (is_match lead_theta follow_theta) t) (λ tpp.
          Prelude.◌>>=◌
            (filter_list (is_match lead_theta follow_theta)
              (iterate_set (without (count_from 0 n) t)))
            (λ r. ok (record { chsh = tp; matching = tpp; remaining = r }))))

-- `[j for j, x1, x2 in zip(T, x_T, x_T_hat) if (x1 ^ x2) == (theta[j] & theta_hat[j]) and j in Tp]`
unfoldable pub winning : List ℕ → List ℕ → List ℕ → List ℕ → List ℕ → List ℕ → Result (List ℕ)
unfolding at contains
winning theta theta_hat tp (j ∷ t) (x1 ∷ x_t) (x2 ∷ x_t_hat) = Prelude.◌>>=◌ (at theta j) (λ a.
    Prelude.◌>>=◌ (at theta_hat j) (λ b.
      Prelude.◌>>=◌ (winning theta theta_hat tp t x_t x_t_hat) (λ rest.
        ok (if nat_beq (bit_xor x1 x2) (bit_and a b) && contains j tp then j ∷ rest else rest))))
winning theta theta_hat tp t x_t x_t_hat = ok []

-- `[j for j, x1, x2 in zip(T, x_T, x_T_hat) if x1 == x2 and j in Tpp]`
unfoldable pub matches : List ℕ → List ℕ → List ℕ → List ℕ → List ℕ
unfolding contains
matches tpp (j ∷ t) (x1 ∷ x_t) (x2 ∷ x_t_hat) =
    let rest = matches tpp t x_t x_t_hat in
    if nat_beq x1 x2 && contains j tpp then j ∷ rest else rest
matches tpp t x_t x_t_hat = []

-- `p < q` for `p = wins / rounds` and the decimal `q = threshold / scale`; the quotients of numbers up
-- to `ROUND_SIZE` that differ from `q` are further from it than rounding goes.
unfoldable pub is_below : ℕ → ℕ → ℕ → ℕ → Bool
is_below wins rounds threshold scale = ltb (wins * scale) (threshold * rounds)

-- The test itself: `p_win < PCHSH - e or p_match < 1 - e` raises.
unfoldable pub check_devices :
    List ℕ → List ℕ → TestSets → List ℕ → List ℕ → List ℕ → Result (Unit {0})
unfolding winning matches is_below
check_devices theta theta_hat sets t x_t x_t_hat =
    Prelude.◌>>=◌ (winning theta theta_hat sets.chsh t x_t x_t_hat) (λ wins.
      Prelude.◌>>◌ (raise_if (length sets.chsh == 0) zero_division) (
        Prelude.◌>>◌ (raise_if (length sets.matching == 0) zero_division) (
          raise_if
            (is_below (length wins) (length sets.chsh) 7535533905932737 10000000000000000
              || is_below (length (matches sets.matching t x_t x_t_hat)) (length sets.matching) 9
                  10)
            protocol_exception)))

-- `random.sample`, from the session's numbers
unfoldable pub sample : ℕ → Action (List ℕ)
unfolding randint
sample zero = return []
sample (suc k) = do j ← randint; js ← sample k; return (j ∷ js)

module _ (json : Json) (iterate_set : List ℕ → List ℕ) where
  -- `T` and the sets of each role.
  unfoldable pub agree_tests : Role → List ℕ → List ℕ → List ℕ → Action (List ℕ × TestSets)
  unfolding sample send_control_message wait_for_control_message item numbers_of test_sets
  agree_tests leader x theta theta_hat = do
    t ← sample (length x / 2)
    send_control_message json (field (codes "T") (arr (ints t)) end) dqkd
    sets ← lift (test_sets iterate_set theta theta_hat (length x) t)
    return (t, sets)
  agree_tests follower x theta theta_hat = do
    m ← wait_for_control_message dqkd
    value ← lift (item (codes "T") m.message_data)
    t ← lift (numbers_of value)
    sets ← lift (test_sets iterate_set theta_hat theta (length x) t)
    return (t, sets)

  -- The exchange of the test outcomes and the verdict, the same for both roles.
  unfoldable pub test_devices : List ℕ → List ℕ → List ℕ → List ℕ × TestSets → Action (List ℕ)
  unfolding gather exchange_messages item numbers_of check_devices
  test_devices x theta theta_hat (t, sets) = do
    x_t ← lift (gather x t)
    m ← exchange_messages json (field (codes "x_T") (arr (ints x_t)) end) dqkd
    value ← lift (item (codes "x_T") m.message_data)
    x_t_hat ← lift (numbers_of value)
    lift (check_devices theta theta_hat sets t x_t x_t_hat)
    lift (gather x sets.remaining)

  -- `_device_independent_epr_test`
  unfoldable pub epr_test : List ℕ → List ℕ → Action (List ℕ)
  unfolding exchange_messages item numbers_of get_role agree_tests test_devices
  epr_test x theta = do
    m ← exchange_messages json (field (codes "theta") (arr (ints theta)) end) dqkd
    value ← lift (item (codes "theta") m.message_data)
    theta_hat ← lift (numbers_of value)
    role ← get_role
    tests ← agree_tests role x theta theta_hat
    test_devices x theta theta_hat tests

  -- `distill_device_independent_data`, given how each role gets its outcomes and bases.
  unfoldable pub distill_device_independent_data :
      Action (List ℕ × List ℕ) → Action (List ℕ × List ℕ) → Action (List ℕ)
  unfolding epr_test get_role
  distill_device_independent_data distribute_bb84 receive_bb84 = do
    role ← get_role
    (x, theta) ← elim role [ leader ↦ distribute_bb84 | follower ↦ receive_bb84 ]
    epr_test x theta
