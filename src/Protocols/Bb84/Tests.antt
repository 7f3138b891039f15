-- ===== src/Protocols/Bb84/Tests.antt =====
-- The steps of a key agreement between two concrete parties.
use qchat.Prelude.{
  ℕ, ◌≤◌, ◌≡◌, refl, ◌⊎◌, inr, true, List, [], ◌∷◌, ◌++◌, length, replicate, ok, arith,
  if◌then◌else◌,
}
use qchat.Value.{dict, end, codes}
use qchat.Messages.{Json, Message, bb84}
use qchat.Ecc.{chunk}
use qchat.Ecc.Weight.{distance}
use qchat.Ecc.Correct.{ecc_golay}
use qchat.Protocols.{Session, Action, return, ◌>>=◌, leader, follower, wait_for_control_message}
use qchat.Protocols.Messaging.{sent_all, control, expects}
use qchat.Protocols.Bb84.{
  ack, error_rate, is_too_high, estimate_error_rate, distill_tested_data, reconcile_information,
  amplify_privacy,
}
use qchat.Protocols.Bb84.Sift.{same_basis, select, bases}
use qchat.Protocols.Bb84.Estimate.{differences, InRange, Split}
use qchat.Protocols.Bb84.Estimate.Agreement.{questions, answers, estimate_error_rate_agrees}
use qchat.Protocols.Bb84.Distill.{distill_tested_data_agrees}
use qchat.Protocols.Bb84.Reconcile.{
  AreClose, acks, syndromes, whole, left_over, reconcile_information_agrees,
}
use qchat.Protocols.Bb84.Amplify.{seed_and_tag, tag, amplify_privacy_agrees}

abbrev json : Json
json = record { dumps = λ v. ok (codes "{}"); loads = λ t. ok (dict end) }

abbrev lead : Session
lead = record {
  role = leader;
  name = codes "alice";
  peer = codes "bob";
  ctrl_msg_q = [];
  outbound_q = [];
  randoms = [];
}

abbrev follow : Session
follow = record {
  role = follower;
  name = codes "bob";
  peer = codes "alice";
  ctrl_msg_q = [];
  outbound_q = [];
  randoms = [];
}

abbrev theta : List ℕ
theta = 0 ∷ 1 ∷ 1 ∷ []

abbrev theta_hat : List ℕ
theta_hat = 0 ∷ 0 ∷ 1 ∷ []

abbrev outcomes : List ℕ
outcomes = 1 ∷ 0 ∷ 1 ∷ []

-- One codeword and two bits; the follower's codeword differs in two places.
abbrev bits : List ℕ
bits = replicate 23 1 ++ 1 ∷ 0 ∷ []

abbrev noisy_bits : List ℕ
noisy_bits = 0 ∷ 0 ∷ (replicate 21 1 ++ 0 ∷ 0 ∷ [])

chunks-AreClose : AreClose (chunk ecc_golay bits) (chunk ecc_golay noisy_bits)
unfolding chunk distance
chunks-AreClose = (
  (omega arith, omega arith, refl, omega arith, inr (omega arith)),
  ((omega arith, omega arith, refl, omega arith, inr (omega arith)), tt),
)

abbrev leading : Session
leading = expects lead (acks (codes "bob") (chunk ecc_golay bits))

abbrev following : Session
following = expects follow (syndromes (codes "alice") (chunk ecc_golay bits))

reconcile_information_agrees_example :
    (reconcile_information json ecc_golay bits leading
      ≡ ok (
        (left_over (chunk ecc_golay bits), whole (chunk ecc_golay bits)),
        expects (sent_all leading (syndromes (codes "alice") (chunk ecc_golay bits))) [],
      ))
    × (reconcile_information json ecc_golay noisy_bits following
        ≡ ok (
          (left_over (chunk ecc_golay noisy_bits), whole (chunk ecc_golay bits)),
          expects (sent_all following (acks (codes "bob") (chunk ecc_golay bits))) [],
        ))
reconcile_information_agrees_example =
    reconcile_information_agrees json leading following bits noisy_bits refl refl (omega arith)
      (omega arith) chunks-AreClose refl refl

amplify_privacy_agrees_example :
    (amplify_privacy json
        (200 ∷ 7 ∷ [])
        (record lead { ctrl_msg_q = control bb84 (codes "bob") (ack true) ∷ []; randoms = 9 ∷ [] })
      ≡ ok (
        7 ∷ [],
        record lead {
          ctrl_msg_q = [];
          outbound_q =
              (codes "bob", control bb84 (codes "alice") (seed_and_tag 9 (tag 9 200 7))) ∷ [];
          randoms = [];
        },
      ))
    × (amplify_privacy json (200 ∷ 7 ∷ []) (record follow {
      ctrl_msg_q = control bb84 (codes "alice") (seed_and_tag 9 (tag 9 200 7)) ∷ [];
    })
        ≡ ok (
          7 ∷ [],
          record follow {
            ctrl_msg_q = [];
            outbound_q = (codes "alice", control bb84 (codes "bob") (ack true)) ∷ [];
          },
        ))
amplify_privacy_agrees_example =
    amplify_privacy_agrees json lead follow 200 7 200 7 9 [] refl refl (omega arith) (omega arith)
      (omega arith) (omega arith) (omega arith)

-- Three bits each, of which the leader pops the second, then the third, then the first.
abbrev tested : List ℕ
tested = 1 ∷ 0 ∷ 1 ∷ []

abbrev tested_hat : List ℕ
tested_hat = 1 ∷ 1 ∷ 1 ∷ []

abbrev indices : List ℕ
indices = 1 ∷ 1 ∷ 0 ∷ []

estimate_error_rate_agrees_example :
    (bx : List ℕ) × (by_ : List ℕ) × (x' : List ℕ) × (y' : List ℕ) × Split tested tested_hat bx by_
      x' y' 3
    × (estimate_error_rate json tested
          (record lead { ctrl_msg_q = answers (codes "bob") by_; randoms = indices ++ 8 ∷ [] })
        ≡ ok (
          (error_rate (differences bx by_) bx, x'),
          expects
              (sent_all (record lead { randoms = 8 ∷ [] }) (questions (codes "alice") indices bx))
              [],
        ))
    × (estimate_error_rate json tested_hat (expects follow (questions (codes "alice") indices bx))
        ≡ ok (
          (error_rate (differences bx by_) bx, y'),
          expects (sent_all follow (answers (codes "bob") by_)) [],
        ))
estimate_error_rate_agrees_example =
    estimate_error_rate_agrees json lead follow tested tested_hat indices (8 ∷ []) refl refl
      (omega arith) (omega arith) refl (omega arith) (inr (omega arith, refl))

-- A device that waits for one acknowledgement of the peer, then has the outcomes.
abbrev device : List ℕ → List ℕ → Action (List ℕ × List ℕ)
device x basis = do m ← wait_for_control_message bb84; return (x, basis)

abbrev ready : Session
ready = record lead { randoms = 1 ∷ 0 ∷ 8 ∷ [] }

gives_lead :
    (inbox : List Message)
    → device outcomes theta (expects ready (control bb84 (codes "bob") (ack true) ∷ [] ++ inbox))
      ≡ ok ((outcomes, theta), record lead { ctrl_msg_q = inbox; randoms = 1 ∷ 0 ∷ 8 ∷ [] })
unfolding wait_for_control_message
gives_lead inbox = refl

gives_follow :
    (inbox : List Message)
    → device outcomes theta_hat
        (expects follow (control bb84 (codes "alice") (ack true) ∷ [] ++ inbox))
      ≡ ok ((outcomes, theta_hat), expects follow inbox)
unfolding wait_for_control_message
gives_follow inbox = refl

abbrev sifted : List ℕ
sifted = select (same_basis theta theta_hat) outcomes

two_sifted : length sifted ≡ 2
unfolding select same_basis
two_sifted = refl

in_range : InRange (1 ∷ 0 ∷ []) (length sifted)
in_range = omega (arith, two_sifted)

enough : (◌≡◌ {A = ℕ} 2 25) ⊎ ((2 ≤ 25) × (length sifted ≡ 2))
enough = inr (omega arith, two_sifted)

distill_tested_data_agrees_example :
    (bx : List ℕ) × (by_ : List ℕ) × (x' : List ℕ) × (y' : List ℕ) × Split sifted sifted bx by_ x'
      y' 2
    × (distill_tested_data json (device outcomes theta) (
          expects ready (
            control bb84 (codes "bob") (ack true)
            ∷ control bb84 (codes "bob") (bases theta_hat)
            ∷ answers (codes "bob") by_))
        ≡ ok (
          if is_too_high (error_rate (differences bx by_) bx) then [] else x',
          expects
              (sent_all
                (record lead { randoms = 8 ∷ [] })
                (control bb84 (codes "alice") (bases theta)
                  ∷ questions (codes "alice") (1 ∷ 0 ∷ []) bx))
              [],
        ))
    × (distill_tested_data json (device outcomes theta_hat) (
          expects follow (
            control bb84 (codes "alice") (ack true)
            ∷ control bb84 (codes "alice") (bases theta)
            ∷ questions (codes "alice") (1 ∷ 0 ∷ []) bx))
        ≡ ok (
          if is_too_high (error_rate (differences bx by_) bx) then [] else y',
          expects
              (sent_all follow
                (control bb84 (codes "bob") (bases theta_hat) ∷ answers (codes "bob") by_))
              [],
        ))
distill_tested_data_agrees_example =
    distill_tested_data_agrees json (device outcomes theta) (device outcomes theta_hat) ready follow
      lead follow (control bb84 (codes "bob") (ack true) ∷ [])
      (control bb84 (codes "alice") (ack true) ∷ []) outcomes outcomes theta theta_hat (1 ∷ 0 ∷ [])
      (8 ∷ []) refl refl (omega arith) (omega arith) refl in_range enough gives_lead gives_follow
