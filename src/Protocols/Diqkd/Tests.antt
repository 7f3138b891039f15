-- ===== src/Protocols/Diqkd/Tests.antt =====
-- Four rounds, of which two are tested; all outcomes agree.
use qchat.Prelude.{ℕ, ◌≡◌, refl, List, [], ◌∷◌, All, Result, ok, arith}
use qchat.Value.{dict, end, codes}
use qchat.Messages.{Json, dqkd}
use qchat.Protocols.{Session, leader, follower}
use qchat.Protocols.Messaging.{expects, control}
use qchat.Protocols.Diqkd.{gather, epr_test}
use qchat.Protocols.Diqkd.Sets.{IsFresh}
use qchat.Protocols.Diqkd.Runs.{bases, rounds, outcomes, conclude, lead_after, follow_after}
use qchat.Protocols.Diqkd.Agreement.{epr_test_agrees}

abbrev json : Json
json = record { dumps = λ v. ok (codes "{}"); loads = λ t. ok (dict end) }

abbrev lead : Session
lead = record {
  role = leader;
  name = codes "alice";
  peer = codes "bob";
  ctrl_msg_q = [];
  outbound_q = [];
  randoms = [];
}

abbrev follow : Session
follow = record {
  role = follower;
  name = codes "bob";
  peer = codes "alice";
  ctrl_msg_q = [];
  outbound_q = [];
  randoms = [];
}

abbrev x : List ℕ
x = 0 ∷ 1 ∷ 1 ∷ 0 ∷ []

abbrev theta : List ℕ
theta = 1 ∷ 0 ∷ 0 ∷ 0 ∷ []

abbrev theta_hat : List ℕ
theta_hat = 0 ∷ 2 ∷ 2 ∷ 1 ∷ []

epr_test_agrees_example :
    (x_t : List ℕ) × (y_t : List ℕ) × (x' : List ℕ) × (y' : List ℕ) × (kept : List ℕ)
    × (verdict : Result (Unit {0})) × All (IsFresh (0 ∷ 1 ∷ []) 4) kept
    × ((gather x kept ≡ ok x') × (gather x kept ≡ ok y'))
    × (epr_test json
          (λ l. l)
          x
          theta
          (record lead {
            ctrl_msg_q =
                control dqkd (codes "bob") (bases theta_hat)
                ∷ control dqkd (codes "bob") (outcomes y_t)
                ∷ [];
            randoms = 0 ∷ 1 ∷ 5 ∷ [];
          })
        ≡ conclude verdict x' (lead_after lead theta (0 ∷ 1 ∷ []) x_t (5 ∷ [])))
    × (epr_test json
          (λ l. l)
          x
          theta_hat
          (expects follow (
            control dqkd (codes "alice") (bases theta)
            ∷ control dqkd (codes "alice") (rounds (0 ∷ 1 ∷ []))
            ∷ control dqkd (codes "alice") (outcomes x_t)
            ∷ []))
        ≡ conclude verdict y' (follow_after follow theta_hat y_t))
epr_test_agrees_example =
    epr_test_agrees json (λ l. l) lead follow x x theta theta_hat (0 ∷ 1 ∷ []) (5 ∷ []) refl refl
      (omega arith) (omega arith) (ground arith, ground arith, ground arith, ground arith)
      (refl, refl, refl) refl (ground arith) (λ P l h. h)
