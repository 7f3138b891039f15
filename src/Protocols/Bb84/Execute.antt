-- ===== src/Protocols/Bb84/Execute.antt =====
-- qchat/protocols.py, `execute` of `BB84_Purified`, whose loops `DIQKD` shares: the three nested loops on fuel, which bounds the
-- rounds of each; a run that needs more rounds ends in `no_fuel`.
pub mod Progress
pub mod Local
pub mod Close
pub mod Steps
pub mod Rounds
pub mod Agreement
pub mod Distilling
pub mod Devices
pub mod Samples
pub mod Whole
mod Tests
use qchat.Prelude.{
  ℕ, zero, suc, ◌+◌, ◌*◌, List, [], ◌∷◌, ◌++◌, length, take, drop, Result, ok, err, no_fuel,
  value_error, ltb, if◌then◌else◌,
}
use qchat.Value.{Bytes}
use qchat.Value.Words.{to_bytes}
use qchat.Messages.{Json, Kind, bb84}
use qchat.Ecc.{Ecc}
use qchat.Protocols.{Action, return, lift, ◌>>=◌, ◌>>◌, end_protocol}
use qchat.Device.{Cqc, Relay}
use qchat.Device.Outcomes.{receive_bb84_states}
use qchat.Protocols.Bb84.{distill_tested_data, reconcile_information, amplify_privacy}

abbrev pub byte_len : ℕ
byte_len = 8

-- `int(''.join([str(i) for i in bits]), 2)`, from the value of the digits before: a digit that is not
-- 0 or 1 makes `int` raise.
unfoldable pub int_of_bits : ℕ → List ℕ → Result ℕ
int_of_bits n [] = ok n
int_of_bits n (b ∷ bits) =
    let rest = int_of_bits (n * 2 + b) bits in if ltb b 2 then rest else err value_error

module _ (json : Json) (message_type : Kind) (distill : Action (List ℕ)) (ecc : Ecc) where
  -- `while len(secret_bits) < ECC_Golay.codeword_length`
  unfoldable pub collect : ℕ → List ℕ → Action (List ℕ)
  collect zero secret_bits = λ s. err no_fuel
  collect (suc fuel) secret_bits =
      let rest : Action (List ℕ) = do more ← distill; collect fuel (secret_bits ++ more)
      in if ltb (length secret_bits) 23 then rest else return secret_bits

  -- `while len(reconciled) < 2*BYTE_LEN`: the secret bits and the reconciled bits after it.
  unfoldable pub reconcile_enough : ℕ → List ℕ → List ℕ → Action (List ℕ × List ℕ)
  unfolding collect reconcile_information
  reconcile_enough zero secret_bits reconciled = λ s. err no_fuel
  reconcile_enough (suc fuel) secret_bits reconciled =
      let rest : Action (List ℕ × List ℕ) = do
        collected ← collect fuel secret_bits
        (left, reconciled_bits) ← reconcile_information json ecc collected
        reconcile_enough fuel left (reconciled ++ reconciled_bits)
      in if ltb (length reconciled) (2 * byte_len) then rest else return (secret_bits, reconciled)

  -- `while len(key) < self.key_size`
  unfoldable pub derive : ℕ → ℕ → Bytes → List ℕ → List ℕ → Action Bytes
  unfolding reconcile_enough int_of_bits amplify_privacy
  derive zero key_size key secret_bits reconciled = λ s. err no_fuel
  derive (suc fuel) key_size key secret_bits reconciled =
      let rest : Action Bytes = do
        (left, enough) ← reconcile_enough fuel secret_bits reconciled
        n ← lift (int_of_bits 0 (take (2 * byte_len) enough))
        reconciled_bytes ← lift (to_bytes 2 n)
        more ← amplify_privacy json reconciled_bytes
        derive fuel key_size (key ++ more) left (drop (2 * byte_len) enough)
      in if ltb (length key) key_size then rest else return key

  -- The whole of `execute`.
  unfoldable pub run : ℕ → ℕ → Action Bytes
  unfolding derive end_protocol
  run fuel key_size = do
    key ← derive fuel key_size [] [] []
    end_protocol json message_type
    return key

module _ (json : Json) (cqc : Cqc) (relay : Relay) (ecc : Ecc) where
  -- `BB84_Purified.execute`
  unfoldable pub execute : ℕ → ℕ → Action Bytes
  unfolding run distill_tested_data receive_bb84_states
  execute = run json bb84 (distill_tested_data json (receive_bb84_states json cqc relay)) ecc
