-- ===== src/Protocols/Diqkd/Execute.antt =====
-- qchat/protocols.py, `execute` of `DIQKD`: the loops of `execute` of `BB84_Purified` over the tested
-- outcomes of the devices.
use qchat.Prelude.{ℕ, List}
use qchat.Value.{Bytes}
use qchat.Messages.{Json, dqkd}
use qchat.Ecc.{Ecc}
use qchat.Protocols.{Action}
use qchat.Protocols.Bb84.Execute.{run}
use qchat.Protocols.Diqkd.{distill_device_independent_data}
use qchat.Device.{Cqc, Relay}
use qchat.Device.Outcomes.{distribute_bb84, receive_bb84}

module _ (json : Json) (iterate_set : List ℕ → List ℕ) (cqc : Cqc) (relay : Relay) where
  -- `distill_device_independent_data`, with the two methods that get the outcomes.
  unfoldable pub distill_over_devices : Action (List ℕ)
  unfolding distill_device_independent_data distribute_bb84 receive_bb84
  distill_over_devices =
      distill_device_independent_data json iterate_set (distribute_bb84 json cqc relay)
        (receive_bb84 json cqc relay)

  -- `DIQKD.execute`
  unfoldable pub execute_diqkd : Ecc → ℕ → ℕ → Action Bytes
  unfolding distill_over_devices run
  execute_diqkd ecc = run json dqkd distill_over_devices ecc
