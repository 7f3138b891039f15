-- ===== src/Protocols/Bb84.antt =====
-- qchat/protocols.py, `BB84_Purified`: sifting, error estimation, distillation, reconciliation and
-- privacy amplification, each run by both parties with the branch of its role.
pub mod Reconcile
pub mod Amplify
pub mod Sift
pub mod Estimate
pub mod Distill
pub mod Execute
mod Tests
use qchat.Prelude.{
  ℕ, zero, suc, ◌+◌, ◌-◌, ◌*◌, ◌/◌, leb, ◌≡◌, Bool, true, false, not, List, [], ◌∷◌, ◌++◌, map,
  length, Option, none, some, get_elem?, Result, ok, err, index_error, overflow_error,
  attribute_error, type_error, ◌==◌, nat_eq, ltb, if◌then◌else◌,
}
use qchat.Value.{
  Text, Bytes, Value, null, bool, int, str, bytes, arr, dict, pos, negsuc, Items, nil, cons, Fields,
  end, field, codes,
}
use qchat.Value.Words.{to_bytes}
use qchat.Messages.{Json, bb84, Message}
use qchat.Ecc.{Ecc, chunk, encode, decode}
use qchat.Protocols.{
  Role, leader, follower, Session, Action, return, lift, ◌>>=◌, ◌>>◌, abort_if, item, truthy,
  randint, get_role, ints, wait_for_control_message, send_control_message, exchange_messages,
}

-- `{"ack": True}` and `{"ack": False}`
abbrev pub ack : Bool → Fields
ack b = field (codes "ack") (bool b) end

-- A number as numpy reads an entry of a list, up to its value modulo 2.
unfoldable pub entry : Value → Result ℕ
entry (int (pos n)) = ok n
entry (int (negsuc n)) = ok (n + 1)
entry (bool true) = ok 1
entry (bool false) = ok 0
entry v = err type_error

unfoldable pub entries : Items → Result (List ℕ)
unfolding entry
entries nil = ok []
entries (cons v vs) = elim (entry v) [
  | err e ↦ err e
  | ok n ↦ elim (entries vs) [ err e ↦ err e | ok ns ↦ ok (n ∷ ns) ]
]

-- `np.matrix(s)` of what the peer sent
unfoldable pub row_of : Value → Result (List ℕ)
unfolding entries
row_of (arr vs) = entries vs
row_of v = err type_error

-- `n == v` for a number of ours and a value of the peer's
unfoldable pub equals : ℕ → Value → Bool
equals n (int (pos k)) = n == k
equals n (bool true) = n == 1
equals n (bool false) = n == 0
equals n v = false

-- The loop of `_filter_theta` over `zip(x, theta, theta_hat)`.
unfoldable pub keep_matching : List ℕ → List ℕ → Items → List ℕ
unfolding equals
keep_matching (bit ∷ x) (basis ∷ theta) (cons basis_hat theta_hat) =
    let rest = keep_matching x theta theta_hat in
    if equals basis basis_hat then bit ∷ rest else rest
keep_matching x theta theta_hat = []

-- `X[i]`
unfoldable pub byte_at : ℕ → Bytes → Result ℕ
byte_at i x = elim (get_elem? x i) [ none ↦ err index_error | some b ↦ ok b ]

-- The peer's number, as a factor: a negative one makes `to_bytes` fail, and so does what is none.
unfoldable pub factor : Value → Result ℕ
factor (int (pos n)) = ok n
factor (int (negsuc n)) = err overflow_error
factor (bool true) = ok 1
factor (bool false) = ok 0
factor v = err attribute_error

-- What iterating over a text, over bytes and over a dictionary gives.
unfoldable pub items_of_text : Text → Items
items_of_text [] = nil
items_of_text (c ∷ t) = cons (str (c ∷ [])) (items_of_text t)

unfoldable pub items_of_bytes : Bytes → Items
items_of_bytes [] = nil
items_of_bytes (b ∷ bs) = cons (int (pos b)) (items_of_bytes bs)

unfoldable pub items_of_keys : Fields → Items
items_of_keys end = nil
items_of_keys (field key value fields) = cons (str key) (items_of_keys fields)

-- Iterating over what the peer sent
unfoldable pub items_of : Value → Result Items
unfolding items_of_text items_of_bytes items_of_keys
items_of (arr vs) = ok vs
items_of (str t) = ok (items_of_text t)
items_of (bytes bs) = ok (items_of_bytes bs)
items_of (dict d) = ok (items_of_keys d)
items_of v = err type_error

-- `x.pop(i)`: the entry, and the list without it
unfoldable pub pop_at : ℕ → List ℕ → Result (ℕ × List ℕ)
pop_at i [] = err index_error
pop_at zero (b ∷ x) = ok (b, x)
pop_at (suc i) (b ∷ x) = elim (pop_at i x) [ err e ↦ err e | ok (c, rest) ↦ ok (c, b ∷ rest) ]

-- `x.pop(index)` at an index that the peer sent; a negative one counts from the end.
unfoldable pub pop_value : Value → List ℕ → Result (ℕ × List ℕ)
unfolding pop_at
pop_value (int (pos i)) x = pop_at i x
pop_value (int (negsuc i)) x =
    if ltb i (length x) then pop_at (length x - suc i) x else err index_error
pop_value (bool false) x = pop_at 0 x
pop_value (bool true) x = pop_at 1 x
pop_value v x = err type_error

abbrev pub round_size : ℕ
round_size = 100

-- What the test leaves of the bits, and the test bits with their indices, in order.
pub record Tested : Type 0 where
  pub remaining : List ℕ
  pub test_bits : List ℕ
  pub test_indices : List ℕ

-- The leader's loop, on the number of test bits still wanted, of which each round takes one.
unfoldable pub choose_tests : ℕ → Tested → Action Tested
unfolding pop_at randint
choose_tests zero t = return t
choose_tests (suc wanted) t =
    let more : Action Tested = do
      index ← randint
      (bit, remaining) ← lift (pop_at index t.remaining)
      choose_tests wanted (record {
        remaining = remaining;
        test_bits = t.test_bits ++ bit ∷ [];
        test_indices = t.test_indices ++ index ∷ [];
      })
    in if ltb 0 (length t.remaining) then more else return t

-- The follower's loop over the indices: what is left, and the test bits.
unfoldable pub pop_tests : Items → List ℕ → List ℕ → Result (List ℕ × List ℕ)
unfolding pop_value
pop_tests nil x test_bits = ok (x, test_bits)
pop_tests (cons index indices) x test_bits = elim (pop_value index x) [
  | err e ↦ err e
  | ok (bit, rest) ↦ pop_tests indices rest (test_bits ++ bit ∷ [])
]

-- The number of test bits, paired by `zip`, in which the two parties differ.
unfoldable pub num_error : List ℕ → Items → ℕ
unfolding equals
num_error (t_1 ∷ test_bits) (cons t_2 target) =
    let rest = num_error test_bits target in if equals t_1 t_2 then rest else rest + 1
num_error test_bits target = 0

-- The error rate as a fraction; with no test bits it is one.
abbrev pub Rate : Type 0
Rate = ℕ × ℕ

unfoldable pub error_rate : ℕ → List ℕ → Rate
error_rate errors [] = (1, 1)
error_rate errors (b ∷ test_bits) = (errors, length (b ∷ test_bits))

-- `error_rate >= MAX_GOLAY_ERROR`, which is 3/23 as a float. The quotients of numbers up to
-- `ROUND_SIZE` that are not 3/23 are further from it than rounding goes.
unfoldable pub is_too_high : Rate → Bool
is_too_high (errors, tests) = leb (3 * tests) (23 * errors)

module _ (json : Json) where
  unfoldable pub filter_theta : List ℕ → List ℕ → Action (List ℕ)
  unfolding items_of keep_matching
  filter_theta x theta = do
    response ← exchange_messages json (field (codes "theta") (arr (ints theta)) end) bb84
    theta_hat ← lift (item (codes "theta") response.message_data)
    items ← lift (items_of theta_hat)
    return (keep_matching x theta items)

  -- The test bits of each role.
  unfoldable pub exchange_tests : Role → List ℕ → Action (List ℕ × List ℕ)
  unfolding choose_tests pop_tests items_of
  exchange_tests leader x = do
    t ← choose_tests (round_size / 4) (record { remaining = x; test_bits = []; test_indices = [] })
    r ← exchange_messages json (field (codes "test_indices") (arr (ints t.test_indices)) end) bb84
    acknowledged ← lift (item (codes "ack") r.message_data)
    abort_if (not (truthy acknowledged))
    return (t.remaining, t.test_bits)
  exchange_tests follower x = do
    m ← exchange_messages json (ack true) bb84
    test_indices ← lift (item (codes "test_indices") m.message_data)
    indices ← lift (items_of test_indices)
    lift (pop_tests indices x [])

  -- The rest of the test, the same for both roles.
  unfoldable pub compare_tests : List ℕ × List ℕ → Action (Rate × List ℕ)
  unfolding num_error error_rate items_of
  compare_tests (remaining, test_bits) = do
    m ← exchange_messages json (field (codes "test_bits") (arr (ints test_bits)) end) bb84
    target ← lift (item (codes "test_bits") m.message_data)
    target_test_bits ← lift (items_of target)
    r ← exchange_messages json (field (codes "fin") (bool true) end) bb84
    fin ← lift (item (codes "fin") r.message_data)
    abort_if (not (truthy fin))
    return (error_rate (num_error test_bits target_test_bits) test_bits, remaining)

  -- `_estimate_error_rate`: the rate, and what the test leaves of the caller's list.
  unfoldable pub estimate_error_rate : List ℕ → Action (Rate × List ℕ)
  unfolding exchange_tests compare_tests get_role
  estimate_error_rate x = do role ← get_role; tested ← exchange_tests role x; compare_tests tested

  -- The syndrome of the leader's codeword, as each role gets it.
  unfoldable pub exchange_syndrome : Ecc → List ℕ → Role → Action (List ℕ)
  unfolding row_of
  exchange_syndrome ecc codeword leader = do
    s ← lift (encode ecc codeword)
    m ← exchange_messages json (field (codes "s") (arr (ints s)) end) bb84
    acknowledged ← lift (item (codes "ack") m.message_data)
    abort_if (not (truthy acknowledged))
    return s
  exchange_syndrome ecc codeword follower = do
    m ← exchange_messages json (ack true) bb84
    s ← lift (item (codes "s") m.message_data)
    lift (row_of s)

  unfoldable pub reconcile_chunks : Ecc → List (List ℕ) → List ℕ → Action (List ℕ × List ℕ)
  unfolding exchange_syndrome get_role
  reconcile_chunks ecc [] reconciled = return ([], reconciled)
  reconcile_chunks ecc (codeword ∷ codewords) reconciled =
      let rest : Action (List ℕ × List ℕ) = do
        role ← get_role
        s ← exchange_syndrome ecc codeword role
        corrected ← lift (decode ecc codeword s)
        reconcile_chunks ecc codewords (reconciled ++ corrected)
      in if ltb (length codeword) ecc.codeword_length then return (codeword, reconciled) else rest

  unfoldable pub reconcile_information : Ecc → List ℕ → Action (List ℕ × List ℕ)
  unfolding reconcile_chunks
  reconcile_information ecc x = reconcile_chunks ecc (chunk ecc x) []

  -- The follower's last step: a byte and an acknowledgement if the tag fits, else neither.
  unfoldable pub answer : Bool → ℕ → Action Bytes
  answer true r = do send_control_message json (ack true) bb84; lift (to_bytes 1 r)
  answer false r = do send_control_message json (ack false) bb84; return []

  unfoldable pub amplify_as : Role → Bytes → Action Bytes
  unfolding byte_at factor equals answer
  amplify_as leader x = do
    y ← randint
    x_0 ← lift (byte_at 0 x)
    temp ← lift (to_bytes 2 (y * x_0))
    r ← lift (byte_at 0 temp)
    temp_1 ← lift (byte_at 1 temp)
    x_1 ← lift (byte_at 1 x)
    let t = temp_1 + x_1
    m ←
        exchange_messages json
          (field (codes "Y") (int (pos y)) (field (codes "T") (int (pos t)) end)) bb84
    acknowledged ← lift (item (codes "ack") m.message_data)
    if truthy acknowledged then lift (to_bytes 1 r) else return []
  amplify_as follower x = do
    m ← wait_for_control_message bb84
    y_value ← lift (item (codes "Y") m.message_data)
    t ← lift (item (codes "T") m.message_data)
    y ← lift (factor y_value)
    x_0 ← lift (byte_at 0 x)
    temp ← lift (to_bytes 2 (y * x_0))
    x_1 ← lift (byte_at 1 x)
    temp_1 ← lift (byte_at 1 temp)
    r ← lift (byte_at 0 temp)
    answer (equals (x_1 + temp_1) t) r

  unfoldable pub amplify_privacy : Bytes → Action Bytes
  unfolding amplify_as get_role
  amplify_privacy x = do role ← get_role; amplify_as role x

  -- `distill_tested_data`, given how a party gets its outcomes and bases from the device.
  unfoldable pub distill_tested_data : Action (List ℕ × List ℕ) → Action (List ℕ)
  unfolding filter_theta estimate_error_rate is_too_high
  distill_tested_data receive_bb84_states = do
    (x, theta) ← receive_bb84_states
    x_remain ← filter_theta x theta
    (rate, remaining) ← estimate_error_rate x_remain
    if is_too_high rate then return [] else return remaining
