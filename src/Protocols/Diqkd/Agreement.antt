-- ===== src/Protocols/Diqkd/Agreement.antt =====
-- The test of the devices, run by both parties on each other's messages.
use qchat.Prelude.{
  ℕ, ◌/◌, ◌≤◌, ◌<◌, ◌≡◌, refl, ap, sym, ◌∙◌, List, [], ◌∷◌, ◌++◌, All, length, Result, ok, arith,
}
use qchat.Messages.{Json, dqkd}
use qchat.Protocols.{leader, follower, Session}
use qchat.Protocols.Messaging.{control, expects}
use qchat.Protocols.Diqkd.{gather, check_devices, epr_test}
use qchat.Protocols.Diqkd.Sets.{IsFresh, gather_ok, test_sets_ok, check_devices_comm}
use qchat.Protocols.Diqkd.Runs.{
  bases, rounds, outcomes, conclude, lead_after, follow_after, lead_run, follow_run,
}

pub bits_small : (l : List ℕ) → All (λ m. m < 2) l → All (λ m. m < 3) l
bits_small [] h = tt
bits_small (m ∷ l) h = (omega (arith, h.0), bits_small l h.1)

fresh_range : (t : List ℕ) (n : ℕ) (js : List ℕ) → All (IsFresh t n) js → All (λ j. j < n) js
fresh_range t n [] h = tt
fresh_range t n (j ∷ js) h = (h.0.0, fresh_range t n js h.1)

pub in_both :
    (n : ℕ) (a b t : List ℕ)
    → length a ≡ n
    → length b ≡ n
    → All (λ j. j < n) t
    → All (λ j. (j < length a) × (j < length b)) t
in_both n a b [] ea eb h = tt
in_both n a b (j ∷ t) ea eb h =
    ((omega (arith, h.0), omega (arith, h.0)), in_both n a b t ea eb h.1)

-- The test of the devices, the two parties, with names of at most 16 characters, run on each other's
-- messages: outcomes are bits, bases are 0, 1 or 2, all lists have one length, the leader's random
-- numbers begin with half as many rounds in range, and going through a set gives its members only.
-- Each sends exactly what the other waits for. Both come to one verdict: either both abort with the
-- same exception, or each keeps its outcomes of the same rounds, none of which was tested.
pub epr_test_agrees :
    (json : Json) (iterate_set : List ℕ → List ℕ) (lead follow : Session)
    (x y theta theta_hat t ns : List ℕ)
    → lead.role ≡ leader
    → follow.role ≡ follower
    → length lead.name ≤ 16
    → length follow.name ≤ 16
    → All (λ m. m < 2) x × All (λ m. m < 2) y × All (λ m. m < 3) theta × All (λ m. m < 3) theta_hat
    → (length y ≡ length x) × (length theta ≡ length x) × (length theta_hat ≡ length x)
    → length x / 2 ≡ length t
    → All (λ j. j < length x) t
    → ((P : ℕ → Type 0) (l : List ℕ) → All P l → All P (iterate_set l))
    → (x_t : List ℕ) × (y_t : List ℕ) × (x' : List ℕ) × (y' : List ℕ) × (kept : List ℕ)
      × (verdict : Result (Unit {0})) × All (IsFresh t (length x)) kept
      × ((gather x kept ≡ ok x') × (gather y kept ≡ ok y'))
      × (epr_test json iterate_set x theta (record lead {
        ctrl_msg_q =
            control dqkd follow.name (bases theta_hat)
            ∷ control dqkd follow.name (outcomes y_t)
            ∷ [];
        randoms = t ++ ns;
      })
          ≡ conclude verdict x' (lead_after lead theta t x_t ns))
      × (epr_test json iterate_set y theta_hat (
            expects follow (
              control dqkd lead.name (bases theta)
              ∷ control dqkd lead.name (rounds t)
              ∷ control dqkd lead.name (outcomes x_t)
              ∷ []))
          ≡ conclude verdict y' (follow_after follow theta_hat y_t))
epr_test_agrees json iterate_set lead follow x y theta theta_hat t ns leads follows short_l short_f
      bits lens half range yields =
    let small_x = bits_small x bits.0 in
    let small_y = bits_small y bits.1 in
    let n = length x in
    let (sets, found, fresh) =
      test_sets_ok theta theta_hat n lens.1 lens.2 iterate_set t yields range in
    let kept_range = fresh_range t n sets.remaining fresh in
    let (x_t, tested_x, small_xt) = gather_ok 3 x t small_x range in
    let (y_t, tested_y, small_yt) = gather_ok 3 y t small_y (rw lens.0 range) in
    let (x', left_x, _) = gather_ok 3 x sets.remaining small_x kept_range in
    let (y', left_y, _) = gather_ok 3 y sets.remaining small_y (rw lens.0 kept_range) in
    let one_verdict =
      check_devices_comm theta theta_hat sets.chsh bits.2 bits.3 sets t x_t y_t refl
        (in_both n theta theta_hat t lens.1 lens.2 range) small_xt small_yt in
    (
      x_t,
      y_t,
      x',
      y',
      sets.remaining,
      check_devices theta theta_hat sets t x_t y_t,
      fresh,
      (left_x, left_y),
      lead_run json iterate_set lead short_l follow.name x theta theta_hat t ns x_t y_t x' sets
          leads half found tested_x left_x,
      follow_run json iterate_set follow short_f lead.name y theta theta_hat t x_t y_t y' sets
            follows (rw lens.0 found) tested_y left_y
          ∙ ap (λ v. conclude v y' (follow_after follow theta_hat y_t)) (sym one_verdict),
    )
