-- ===== src/Protocols/Bb84/Distill.antt =====
-- Distillation: sifting, then the test, run by both parties on each other's messages.
use qchat.Prelude.{
  ℕ, suc, ◌≤◌, ◌≡◌, refl, ap, ◌∙◌, ◌⊎◌, Bool, true, false, List, [], ◌∷◌, ◌++◌, length, ok, arith,
  if◌then◌else◌,
}
use qchat.Messages.{Json, bb84, Message}
use qchat.Protocols.{leader, follower, Session, Action, return, ◌>>=◌}
use qchat.Protocols.Messaging.{control, expects, sent}
use qchat.Protocols.Bb84.{
  filter_theta, estimate_error_rate, is_too_high, error_rate, Rate, distill_tested_data,
}
use qchat.Protocols.Messaging.{sent_all}
use qchat.Protocols.Bb84.Sift.{same_basis, same_basis_comm, select, bases, filter_theta_lem}
use qchat.Protocols.Bb84.Estimate.{differences, InRange, Split}
use qchat.Protocols.Bb84.Estimate.Agreement.{questions, answers, estimate_error_rate_agrees}

pub length-select_eq :
    (marks : List Bool) (x y : List ℕ)
    → length y ≡ length x
    → length (select marks y) ≡ length (select marks x)
unfolding select
length-select_eq [] x y h = refl
length-select_eq (true ∷ marks) [] [] h = refl
length-select_eq (true ∷ marks) [] (b ∷ y) h = absurd (omega arith)
length-select_eq (true ∷ marks) (a ∷ x) [] h = absurd (omega arith)
length-select_eq (true ∷ marks) (a ∷ x) (b ∷ y) h =
    ap suc (length-select_eq marks x y (omega arith))
length-select_eq (false ∷ marks) [] [] h = refl
length-select_eq (false ∷ marks) [] (b ∷ y) h = absurd (omega arith)
length-select_eq (false ∷ marks) (a ∷ x) [] h = absurd (omega arith)
length-select_eq (false ∷ marks) (a ∷ x) (b ∷ y) h = length-select_eq marks x y (omega arith)

-- A party's run, from the runs of its parts.
distill_lem :
    (json : Json) (device : Action (List ℕ × List ℕ)) (s0 s1 s2 s3 : Session)
    (x theta sifted left : List ℕ) (rate : Rate)
    → device s0 ≡ ok ((x, theta), s1)
    → filter_theta json x theta s1 ≡ ok (sifted, s2)
    → estimate_error_rate json sifted s2 ≡ ok ((rate, left), s3)
    → distill_tested_data json device s0 ≡ ok (if is_too_high rate then [] else left, s3)
unfolding distill_tested_data
distill_lem json device s0 s1 s2 s3 x theta sifted left rate received sift test =
    rw (received, ◌>>=◌) (rw (sift, ◌>>=◌) (rw (test, ◌>>=◌) (last (is_too_high rate))))
  where
    last :
        (high : Bool)
        → (if high then return [] else return left) s3 ≡ ok (if high then [] else left, s3)
    last true = refl
    last false = refl

-- Distillation, the two parties, with names of at most 16 characters, run on each other's messages. Whatever the device does before, if it
-- gives the leader `x` with the bases `theta` and the follower as many outcomes `y` with the bases
-- `theta_hat`, and the leader's random numbers are indices for the test of the sifted bits: both
-- parties end, on one error rate; both abort with no bits if it is too high, and else keep lists of
-- one length, in which every difference that the test bits did not show is left.
pub distill_tested_data_agrees :
    (json : Json) (device_l device_f : Action (List ℕ × List ℕ))
    (lead_0 follow_0 lead follow : Session) (early_l early_f : List Message)
    (x y theta theta_hat is ns : List ℕ)
    → lead.role ≡ leader
    → follow.role ≡ follower
    → length lead.name ≤ 16
    → length follow.name ≤ 16
    → length y ≡ length x
    → InRange is (length (select (same_basis theta theta_hat) x))
    → (length is ≡ 25)
      ⊎ ((length is ≤ 25) × (length (select (same_basis theta theta_hat) x) ≡ length is))
    → ((inbox : List Message)
        → device_l (expects lead_0 (early_l ++ inbox))
          ≡ ok ((x, theta), record lead { ctrl_msg_q = inbox; randoms = is ++ ns }))
    → ((inbox : List Message)
        → device_f (expects follow_0 (early_f ++ inbox))
          ≡ ok ((y, theta_hat), expects follow inbox))
    → (bx : List ℕ) × (by_ : List ℕ) × (x' : List ℕ) × (y' : List ℕ) × Split
        (select (same_basis theta theta_hat) x)
        (select (same_basis theta theta_hat) y)
        bx
        by_
        x'
        y'
        (length is)
      × (distill_tested_data json device_l (
            expects lead_0
              (early_l ++ control bb84 follow.name (bases theta_hat) ∷ answers follow.name by_))
          ≡ ok (
            if is_too_high (error_rate (differences bx by_) bx) then [] else x',
            expects
                (sent_all
                  (record lead { randoms = ns })
                  (control bb84 lead.name (bases theta) ∷ questions lead.name is bx))
                [],
          ))
      × (distill_tested_data json device_f (
            expects follow_0
              (early_f ++ control bb84 lead.name (bases theta) ∷ questions lead.name is bx))
          ≡ ok (
            if is_too_high (error_rate (differences bx by_) bx) then [] else y',
            expects
                (sent_all follow
                  (control bb84 follow.name (bases theta_hat) ∷ answers follow.name by_))
                [],
          ))
unfolding sent_all
distill_tested_data_agrees json device_l device_f lead_0 follow_0 lead follow early_l early_f x y
      theta theta_hat is ns leads follows short_l short_f same range enough gives_l gives_f =
    let marks = same_basis theta theta_hat in
    let mine : Message = control bb84 lead.name (bases theta) in
    let theirs : Message = control bb84 follow.name (bases theta_hat) in
    let (bx, by_, x', y', split, run_l, run_f) =
      estimate_error_rate_agrees json (sent lead mine) (sent follow theirs) (select marks x)
        (select marks y) is ns leads follows short_l short_f (length-select_eq marks x y same) range
        enough in
    (
      bx,
      by_,
      x',
      y',
      split,
      distill_lem json device_l _ _ _ _ x theta (select marks x) x'
          (error_rate (differences bx by_) bx) (gives_l (theirs ∷ answers follow.name by_))
          (filter_theta_lem json (record lead { randoms = is ++ ns }) x theta theta_hat follow.name
            (answers follow.name by_) short_l)
          run_l,
      distill_lem json device_f _ _ _ _ y theta_hat (select marks y) y'
          (error_rate (differences bx by_) bx) (gives_f (mine ∷ questions lead.name is bx))
          (filter_theta_lem json follow y theta_hat theta lead.name (questions lead.name is bx)
              short_f
            ∙ ap (λ m. ok (select m y, expects (sent follow theirs) (questions lead.name is bx)))
                (same_basis_comm theta_hat theta))
          run_f,
    )
