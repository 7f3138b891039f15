-- ===== src/Device/Outcomes.antt =====
-- qchat/protocols.py, `_receive_bb84_states` of `BB84_Purified` and the two methods of `DIQKD` that
-- get the outcomes and the bases of a round, over the devices.
use qchat.Prelude.{
  ℕ, zero, suc, List, [], ◌∷◌, Option, none, some, ok, err, type_error, nat_eq, ◌==◌, if◌then◌else◌,
}
use qchat.Messages.{Json, bb84, dqkd}
use qchat.Protocols.{Role, leader, follower, Action, return, ◌>>=◌, ◌>>◌, randint, get_role}
use qchat.Protocols.Bb84.{round_size}
use qchat.Protocols.Diqkd.{sample}
use qchat.Device.{Cqc, Relay, request_epr, receive_epr, measure_as, exchange_ready}

-- An outcome; the bases that are drawn never make a device return `None`.
unfoldable pub outcome_of : Option ℕ → Action ℕ
outcome_of none s = err type_error
outcome_of (some n) s = ok (n, s)

module _ (json : Json) (cqc : Cqc) (relay : Relay) where
  -- `if self.role == LEADER_ROLE: self.device.requestEPR(...)`
  unfoldable pub request_as_leader : Role → Action (Unit {0})
  unfolding request_epr
  request_as_leader leader s = request_epr json cqc relay s.peer s
  request_as_leader follower s = ok (tt, s)

  -- The loop of `_receive_bb84_states`, on the number of qubits still to come.
  unfoldable pub receive_qubits : ℕ → Action (List ℕ × List ℕ)
  unfolding request_as_leader receive_epr randint get_role exchange_ready
  receive_qubits zero = return ([], [])
  receive_qubits (suc n) = do
    role ← get_role
    request_as_leader role
    q ← receive_epr json cqc relay role
    basisflip ← randint
    outcome ← cqc.measure (if basisflip == 0 then q else cqc.h q)
    exchange_ready json cqc relay bb84
    (x, theta) ← receive_qubits n
    return (outcome ∷ x, basisflip ∷ theta)

  unfoldable pub receive_bb84_states : Action (List ℕ × List ℕ)
  unfolding receive_qubits
  receive_bb84_states = receive_qubits round_size

  -- The loop over the bases of `DIQKD`, for each role.
  unfoldable pub measure_all : Role → List ℕ → Action (List ℕ)
  unfolding request_as_leader receive_epr measure_as outcome_of exchange_ready
  measure_all role [] = return []
  measure_all role (b ∷ theta) = do
    request_as_leader role
    q ← receive_epr json cqc relay role
    measured ← measure_as json cqc relay role q b
    outcome ← outcome_of measured
    exchange_ready json cqc relay dqkd
    x ← measure_all role theta
    return (outcome ∷ x)

  -- `_device_independent_distribute_bb84` and `_device_independent_receive_bb84`; the session's numbers
  -- stand for those of `randint(0, 1)` and of `randint(0, 2)`.
  unfoldable pub distribute_bb84 : Action (List ℕ × List ℕ)
  unfolding sample measure_all
  distribute_bb84 = do theta ← sample round_size; x ← measure_all leader theta; return (x, theta)

  unfoldable pub receive_bb84 : Action (List ℕ × List ℕ)
  unfolding sample measure_all
  receive_bb84 = do theta ← sample round_size; x ← measure_all follower theta; return (x, theta)
