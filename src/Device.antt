-- ===== src/Device.antt =====
-- qchat/device.py: the measurement devices, over the CQC library and the connection, which are
-- parameters. A step of the library that raises leaves the session as it was.
pub mod Outcomes
pub mod Runs
use qchat.Prelude.{
  ℕ, zero, suc, true, List, [], ◌∷◌, ◌++◌, Option, none, some, Result, ok, err, exception,
  type_error, not,
}
use qchat.Value.{Text, Bytes, Value, bool, str, Fields, end, field, codes}
use qchat.Messages.{Json, Kind, rqqb, bb84, dqkd, fields, Message, init_message, encode_message}
use qchat.Protocols.{
  Role, leader, follower, Session, Action, return, lift, ◌>>=◌, ◌>>◌, abort_if, item, truthy,
  randint, get_role, exchange_messages,
}
use qchat.Protocols.Bb84.{round_size}

pub record Cqc : Type 1 where
  pub Qubit : Type 0
  pub recv_epr : Action Qubit
  pub recv_qubit : Action Qubit
  pub h : Qubit → Qubit
  pub rot_y : ℕ → Qubit → Qubit
  pub measure : Qubit → Action ℕ
  -- `connection.send_message`
  pub send_message : Value → Value → Bytes → Action (Unit {0})

-- `relay_info["host"]` and `relay_info["port"]`, and how often a device asks for a qubit before its
-- time is over.
pub record Relay : Type 0 where
  pub relay_host : Value
  pub relay_port : Value
  pub attempts : ℕ

-- The loop of `receiveEPR`: an exception of the library is passed over.
unfoldable pub try_to_receive : {A : Type 0} → ℕ → Action A → Action A
try_to_receive zero receive s = err exception
try_to_receive (suc n) receive s = elim (receive s) [
  | err e ↦ try_to_receive n receive s
  | ok r ↦ ok r
]

module _ (json : Json) (cqc : Cqc) (relay : Relay) where
  -- `requestEPR`
  unfoldable pub request_epr : Text → Action (Unit {0})
  unfolding init_message encode_message
  request_epr user s =
      let m : Action Message =
        lift (init_message json rqqb s.name (fields (field (codes "user") (str user) end))) in
      (m >>= λ message. lift (encode_message json message) >>= λ bs.
      cqc.send_message relay.relay_host relay.relay_port bs)
        s

  -- `receiveEPR` of the two devices
  unfoldable pub receive_epr : Role → Action cqc.Qubit
  unfolding try_to_receive
  receive_epr leader = try_to_receive relay.attempts cqc.recv_epr
  receive_epr follower = try_to_receive relay.attempts cqc.recv_qubit

  -- `measure` of the two devices; for another basis it returns `None`.
  unfoldable pub measure_as : Role → cqc.Qubit → ℕ → Action (Option ℕ)
  measure_as leader q zero = cqc.measure q >>= λ n. return (some n)
  measure_as leader q (suc zero) = cqc.measure (cqc.h q) >>= λ n. return (some n)
  measure_as leader q (suc (suc basis)) = return none
  measure_as follower q zero = cqc.measure (cqc.rot_y 48 q) >>= λ n. return (some n)
  measure_as follower q (suc zero) = cqc.measure (cqc.rot_y 16 q) >>= λ n. return (some n)
  measure_as follower q (suc (suc zero)) = cqc.measure q >>= λ n. return (some n)
  measure_as follower q (suc (suc (suc basis))) = return none

  -- Let the peer know that the party is ready for the next qubit.
  unfoldable pub exchange_ready : Kind → Action (Unit {0})
  unfolding exchange_messages item truthy
  exchange_ready message_type = do
    r ← exchange_messages json (field (codes "ack") (bool true) end) message_type
    acknowledged ← lift (item (codes "ack") r.message_data)
    abort_if (not (truthy acknowledged))
