-- ===== src/Protocols/SuperDense/Bits.antt =====
-- A byte as four pairs of bits, and a pair of bits in a pair of qubits.
use qchat.Prelude.{
  ℕ, zero, suc, ◌+◌, ◌*◌, ◌^◌, ◌<◌, ◌≡◌, refl, Bool, true, false, List, [], ◌∷◌, ◌++◌, arith,
}
use qchat.Protocols.SuperDense.{bit, positions, Pair, Qubits, encode_pair, decode_pair}

-- A bit as it is measured.
abbrev pub value : Bool → ℕ
value true = 1
value false = 0

-- What the gates and the measurements do to the states that superdense coding passes through: `bell z x`
-- is the pair (|0x⟩ ± |1 not x⟩) / √2 with the sign of `z`, `plus z x` is (|0⟩ ± |1⟩)|x⟩ / √2, and
-- `ket a b` is |ab⟩. Each law is about one call.
pub record BellLaws (qubits : Qubits) : Type 0 where
  pub bell : Bool → Bool → qubits.Register
  pub plus : Bool → Bool → qubits.Register
  pub ket : Bool → Bool → qubits.Register
  pub created : qubits.create_epr ≡ bell false false
  pub x_bell : qubits.x (bell false false) ≡ bell false true
  pub z_bell : (b : Bool) → qubits.z (bell false b) ≡ bell true b
  pub cnot_bell : (a b : Bool) → qubits.cnot (bell a b) ≡ plus a b
  pub h_plus : (a b : Bool) → qubits.h (plus a b) ≡ ket a b
  pub measures_a : (a b : Bool) → qubits.measure_a (ket a b) ≡ (value a, ket a b)
  pub measures_b : (a b : Bool) → qubits.measure_b (ket a b) ≡ (value b, ket a b)

pub decode_pair-encode_pair :
    (qubits : Qubits)
    → BellLaws qubits
    → (b1 b2 : ℕ) → b1 < 2
    → b2 < 2
    → decode_pair qubits (encode_pair qubits b1 b2 qubits.create_epr) ≡ (b1, b2)
unfolding decode_pair encode_pair
decode_pair-encode_pair qubits laws zero zero small1 small2 =
    rw (laws.created, laws.cnot_bell, laws.h_plus, laws.measures_a, laws.measures_b) refl
decode_pair-encode_pair qubits laws zero (suc zero) small1 small2 =
    rw (laws.created, laws.x_bell, laws.cnot_bell, laws.h_plus, laws.measures_a, laws.measures_b)
      refl
decode_pair-encode_pair qubits laws (suc zero) zero small1 small2 =
    rw (laws.created, laws.z_bell, laws.cnot_bell, laws.h_plus, laws.measures_a, laws.measures_b)
      refl
decode_pair-encode_pair qubits laws (suc zero) (suc zero) small1 small2 =
    rw
      (
        laws.created, laws.x_bell, laws.z_bell, laws.cnot_bell, laws.h_plus, laws.measures_a,
        laws.measures_b,
      )
      refl
decode_pair-encode_pair qubits laws (suc (suc b1)) b2 small1 small2 = absurd (omega arith)
decode_pair-encode_pair qubits laws b1 (suc (suc b2)) small1 small2 = absurd (omega arith)

-- The pairs of a byte at the given places, and the pairs of all bytes.
unfoldable pub pairs_at : ℕ → List ℕ → List Pair
pairs_at b [] = []
pairs_at b (p ∷ ps) = (bit b (2 * p + 1), bit b (2 * p)) ∷ pairs_at b ps

unfoldable pub pairs_of : List ℕ → List Pair
unfolding pairs_at
pairs_of [] = []
pairs_of (b ∷ message) = pairs_at b positions ++ pairs_of message

-- The sum of the bits at the given places.
unfoldable pub join_bits : ℕ → List ℕ → ℕ → ℕ
join_bits b [] n = n
join_bits b (p ∷ ps) n =
    join_bits b ps (n + bit b (2 * p) * 2 ^ (2 * p) + bit b (2 * p + 1) * 2 ^ (2 * p + 1))

pub join_bits-byte : (b : ℕ) → b < 256 → join_bits b positions 0 ≡ b
unfolding join_bits
join_bits-byte b h = omega arith
