-- ===== src/Protocols/SuperDense/Tests.antt =====
-- Two bytes, sent and received over two qubits that are held as amplitudes.
use qchat.Prelude.{
  ℕ, ◌+◌, ◌≡◌, refl, Bool, true, false, List, [], ◌∷◌, ok, arith, ◌==◌, nat_eq, if◌then◌else◌,
}
use qchat.Value.{dict, end, codes}
use qchat.Messages.{Json}
use qchat.Protocols.{Session, leader, follower}
use qchat.Protocols.Messaging.{expects, sent_all}
use qchat.Protocols.SuperDense.{Qubits, send_message, receive_message}
use qchat.Protocols.SuperDense.Bits.{value, BellLaws}
use qchat.Protocols.SuperDense.Agreement.{of_sender, of_receiver, receive_message-send_message}

abbrev json : Json
json = record { dumps = λ v. ok (codes "{}"); loads = λ t. ok (dict end) }

abbrev sender : Session
sender = record {
  role = leader;
  name = codes "alice";
  peer = codes "bob";
  ctrl_msg_q = of_receiver (codes "bob") (104 ∷ 255 ∷ []);
  outbound_q = [];
  randoms = [];
}

abbrev receiver : Session
receiver = record {
  role = follower;
  name = codes "bob";
  peer = codes "alice";
  ctrl_msg_q = of_sender (codes "alice") (104 ∷ 255 ∷ []);
  outbound_q = [];
  randoms = [];
}

-- An amplitude, up to the scale of the state, as what it is above zero and below.
abbrev Amplitude : Type 0
Amplitude = ℕ × ℕ

abbrev minus : Amplitude → Amplitude
minus a = (a.1, a.0)

abbrev plus_ : Amplitude → Amplitude → Amplitude
plus_ a b = (a.0 + b.0, a.1 + b.1)

-- The amplitudes of |00⟩, |01⟩, |10⟩ and |11⟩.
abbrev Amplitudes : Type 0
Amplitudes = Amplitude × Amplitude × Amplitude × Amplitude

abbrev gate_x : Amplitudes → Amplitudes
gate_x (a, b, c, d) = (c, d, a, b)

abbrev gate_z : Amplitudes → Amplitudes
gate_z (a, b, c, d) = (a, b, minus c, minus d)

abbrev gate_cnot : Amplitudes → Amplitudes
gate_cnot (a, b, c, d) = (a, b, d, c)

abbrev gate_h : Amplitudes → Amplitudes
gate_h (a, b, c, d) = (plus_ a c, plus_ b d, plus_ a (minus c), plus_ b (minus d))

abbrev outcome : Amplitude → Amplitude → ℕ
outcome a b = if a.0 == a.1 then (if b.0 == b.1 then 1 else 0) else 0

abbrev amplitudes : Qubits
amplitudes = record {
  Register = Amplitudes;
  create_epr = ((1, 0), (0, 0), (0, 0), (1, 0));
  x = gate_x;
  z = gate_z;
  cnot = gate_cnot;
  h = gate_h;
  measure_a = λ s. (outcome s.0 s.1, s);
  measure_b = λ s. (outcome s.0 s.2, s);
}

abbrev bell : Bool → Bool → Amplitudes
bell false false = ((1, 0), (0, 0), (0, 0), (1, 0))
bell false true = ((0, 0), (1, 0), (1, 0), (0, 0))
bell true false = ((1, 0), (0, 0), (0, 0), (0, 1))
bell true true = ((0, 0), (1, 0), (0, 1), (0, 0))

abbrev ket : Bool → Bool → Amplitudes
ket a b = gate_h (gate_cnot (bell a b))

gates_z : (b : Bool) → gate_z (bell false b) ≡ bell true b
gates_z true = refl
gates_z false = refl

measured_a : (a b : Bool) → amplitudes.measure_a (ket a b) ≡ (value a, ket a b)
measured_a true true = refl
measured_a true false = refl
measured_a false true = refl
measured_a false false = refl

measured_b : (a b : Bool) → amplitudes.measure_b (ket a b) ≡ (value b, ket a b)
measured_b true true = refl
measured_b true false = refl
measured_b false true = refl
measured_b false false = refl

amplitudes-BellLaws : BellLaws amplitudes
amplitudes-BellLaws = record {
  bell = bell;
  plus = λ a b. gate_cnot (bell a b);
  ket = ket;
  created = refl;
  x_bell = refl;
  z_bell = gates_z;
  cnot_bell = λ a b. refl;
  h_plus = λ a b. refl;
  measures_a = measured_a;
  measures_b = measured_b;
}

receive_message-send_message_example :
    (pairs : List amplitudes.Register) × (send_message json amplitudes (104 ∷ 255 ∷ []) sender
      ≡ ok (pairs, expects (sent_all sender (of_sender (codes "alice") (104 ∷ 255 ∷ []))) []))
    × (receive_message json amplitudes pairs receiver
        ≡ ok (
          104 ∷ 255 ∷ [],
          expects (sent_all receiver (of_receiver (codes "bob") (104 ∷ 255 ∷ []))) [],
        ))
receive_message-send_message_example =
    receive_message-send_message json amplitudes amplitudes-BellLaws sender receiver
      (104 ∷ 255 ∷ []) (omega arith) (omega arith) (omega arith, (omega arith, tt)) refl refl
