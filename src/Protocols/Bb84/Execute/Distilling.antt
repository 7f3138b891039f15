-- ===== src/Protocols/Bb84/Execute/Distilling.antt =====
-- Distillation takes its messages from the front of the queue, if the device does.
use qchat.Prelude.{ℕ, zero, suc, ◌/◌, true, not, List, [], length, ltb}
use qchat.Value.{arr, bool, end, field, codes}
use qchat.Messages.{Json, bb84}
use qchat.Protocols.{Role, leader, follower, Action, return, item, truthy, ints, randint, get_role}
use qchat.Protocols.Joint.{IsLocal, >>=-IsLocal}
use qchat.Protocols.Joint.Local.{
  lift-IsLocal, return-IsLocal, abort_if-IsLocal, if-IsLocal, get_role-IsLocal, randint-IsLocal,
  exchange-IsLocal,
}
use qchat.Protocols.Bb84.{
  ack, round_size, Tested, items_of, keep_matching, pop_at, pop_tests, num_error, error_rate,
  is_too_high, choose_tests, filter_theta, exchange_tests, compare_tests, estimate_error_rate,
  distill_tested_data,
}

choose_tests-IsLocal : (wanted : ℕ) (t : Tested) → IsLocal (choose_tests wanted t)
unfolding choose_tests
choose_tests-IsLocal zero t = return-IsLocal t
choose_tests-IsLocal (suc wanted) t =
    if-IsLocal (ltb 0 (length t.remaining)) _ (return t)
      (>>=-IsLocal randint _ randint-IsLocal λ i.
        >>=-IsLocal _ _ (lift-IsLocal (pop_at i t.remaining)) λ r. choose_tests-IsLocal wanted _)
      (return-IsLocal t)

module _ (json : Json) where
  filter_theta-IsLocal : (x theta : List ℕ) → IsLocal (filter_theta json x theta)
  unfolding filter_theta
  filter_theta-IsLocal x theta =
      >>=-IsLocal _ _ (exchange-IsLocal json (field (codes "theta") (arr (ints theta)) end) bb84)
        λ m. >>=-IsLocal _ _ (lift-IsLocal (item (codes "theta") m.message_data)) λ v.
          >>=-IsLocal _ _ (lift-IsLocal (items_of v))
            λ items. return-IsLocal (keep_matching x theta items)

  exchange_tests-IsLocal : (r : Role) (x : List ℕ) → IsLocal (exchange_tests json r x)
  unfolding exchange_tests
  exchange_tests-IsLocal leader x =
      >>=-IsLocal _ _
        (choose_tests-IsLocal (round_size / 4)
          (record { remaining = x; test_bits = []; test_indices = [] }))
        λ t.
          >>=-IsLocal _ _
            (exchange-IsLocal json (field (codes "test_indices") (arr (ints t.test_indices)) end)
              bb84)
            λ m. >>=-IsLocal _ _ (lift-IsLocal (item (codes "ack") m.message_data)) λ v.
              >>=-IsLocal _ _ (abort_if-IsLocal (not (truthy v)))
                λ _. return-IsLocal (t.remaining, t.test_bits)
  exchange_tests-IsLocal follower x = >>=-IsLocal _ _ (exchange-IsLocal json (ack true) bb84) λ m.
      >>=-IsLocal _ _ (lift-IsLocal (item (codes "test_indices") m.message_data)) λ v.
        >>=-IsLocal _ _ (lift-IsLocal (items_of v)) λ items. lift-IsLocal (pop_tests items x [])

  compare_tests-IsLocal : (t : List ℕ × List ℕ) → IsLocal (compare_tests json t)
  unfolding compare_tests
  compare_tests-IsLocal (remaining, test_bits) =
      >>=-IsLocal _ _
        (exchange-IsLocal json (field (codes "test_bits") (arr (ints test_bits)) end) bb84)
        λ m. >>=-IsLocal _ _ (lift-IsLocal (item (codes "test_bits") m.message_data)) λ v.
          >>=-IsLocal _ _ (lift-IsLocal (items_of v)) λ items.
            >>=-IsLocal _ _ (exchange-IsLocal json (field (codes "fin") (bool true) end) bb84) λ r.
              >>=-IsLocal _ _ (lift-IsLocal (item (codes "fin") r.message_data)) λ fin.
                >>=-IsLocal _ _ (abort_if-IsLocal (not (truthy fin)))
                  λ _. return-IsLocal (error_rate (num_error test_bits items) test_bits, remaining)

  estimate_error_rate-IsLocal : (x : List ℕ) → IsLocal (estimate_error_rate json x)
  unfolding estimate_error_rate
  estimate_error_rate-IsLocal x =
      >>=-IsLocal get_role _ get_role-IsLocal
        λ r. >>=-IsLocal _ _ (exchange_tests-IsLocal r x) λ t. compare_tests-IsLocal t

  pub distill_tested_data-IsLocal :
      (device : Action (List ℕ × List ℕ))
      → IsLocal device
      → IsLocal (distill_tested_data json device)
  unfolding distill_tested_data
  distill_tested_data-IsLocal device local = >>=-IsLocal device _ local λ a.
      >>=-IsLocal _ _ (filter_theta-IsLocal a.0 a.1) λ x.
        >>=-IsLocal _ _ (estimate_error_rate-IsLocal x) λ r.
          if-IsLocal (is_too_high r.0) (return []) (return r.1) (return-IsLocal [])
            (return-IsLocal r.1)
