-- ===== src/Protocols/Diqkd/Runs.antt =====
-- qchat/protocols.py, `_device_independent_epr_test`: one party's run on its peer's messages.
use qchat.Prelude.{ℕ, ◌/◌, ◌≤◌, ◌≡◌, refl, ap, ◌∙◌, List, [], ◌∷◌, ◌++◌, length, Result, ok, err}
use qchat.Value.{Text, arr, Fields, end, field, codes}
use qchat.Messages.{Json, dqkd, Message}
use qchat.Protocols.{
  leader, follower, Session, return, lift, ◌>>=◌, ◌>>◌, >>=-ok, item, randint, get_role, ints,
  wait_for_control_message,
}
use qchat.Protocols.Messaging.{sent_all, control, expects, sent, send_lem, wait_lem, exchange_lem}
use qchat.Protocols.Diqkd.{
  numbers, numbers_of, gather, TestSets, test_sets, check_devices, sample, agree_tests,
  test_devices, epr_test,
}

-- The messages of the test: the bases, the test rounds, and their outcomes.
abbrev pub bases : List ℕ → Fields
bases theta = field (codes "theta") (arr (ints theta)) end

abbrev pub rounds : List ℕ → Fields
rounds t = field (codes "T") (arr (ints t)) end

abbrev pub outcomes : List ℕ → Fields
outcomes x_t = field (codes "x_T") (arr (ints x_t)) end

-- How a party ends: with its bits if its verdict is good, else with the exception of the verdict.
abbrev pub conclude : Result (Unit {0}) → List ℕ → Session → Result (List ℕ × Session)
conclude (ok u) x s = ok (x, s)
conclude (err e) x s = err e

numbers-ints : (ns : List ℕ) → numbers (ints ns) ≡ ok ns
unfolding numbers ints
numbers-ints [] = refl
numbers-ints (n ∷ ns) = rw (numbers-ints ns) refl

sample_lem :
    (t ns : List ℕ) (s : Session)
    → sample (length t) (record s { randoms = t ++ ns }) ≡ ok (t, record s { randoms = ns })
unfolding sample randint
sample_lem [] ns s = refl
sample_lem (j ∷ t) ns s =
    >>=-ok (sample (length t)) (λ js. return (j ∷ js)) (record s { randoms = t ++ ns })
      (sample_lem t ns s)

conclude_lem :
    (verdict : Result (Unit {0})) (r : Result (List ℕ)) (x : List ℕ) (s : Session)
    → r ≡ ok x
    → (lift verdict >> lift r) s ≡ conclude verdict x s
conclude_lem (ok u) r x s e = rw e refl
conclude_lem (err e') r x s e = refl

module _ (json : Json) (iterate_set : List ℕ → List ℕ) (s : Session) (short : length s.name ≤ 16)
    (name : Text) where
  agree_leader :
      (x theta theta_hat t ns : List ℕ) (rest : List Message) (sets : TestSets)
      → length x / 2 ≡ length t
      → test_sets iterate_set theta theta_hat (length x) t ≡ ok sets
      → agree_tests json iterate_set leader x theta theta_hat
          (record s { ctrl_msg_q = rest; randoms = t ++ ns })
        ≡ ok (
          (t, sets),
          expects (sent (record s { randoms = ns }) (control dqkd s.name (rounds t))) rest,
        )
  unfolding agree_tests
  agree_leader x theta theta_hat t ns rest sets half found =
      rw (half, sample_lem t ns (expects s rest), ◌>>=◌)
        (rw
          (
            send_lem json dqkd (rounds t) (record s { ctrl_msg_q = rest; randoms = ns }) short,
            ◌>>=◌,
          )
          (rw found refl))

  agree_follower :
      (y theta theta_hat t : List ℕ) (rest : List Message) (sets : TestSets)
      → test_sets iterate_set theta theta_hat (length y) t ≡ ok sets
      → agree_tests json iterate_set follower y theta_hat theta
          (expects s (control dqkd name (rounds t) ∷ rest))
        ≡ ok ((t, sets), expects s rest)
  unfolding agree_tests item numbers_of
  agree_follower y theta theta_hat t rest sets found =
      >>=-ok (wait_for_control_message dqkd)
        (λ m. lift (item (codes "T") m.message_data) >>= λ value. lift (numbers_of value) >>= λ t'.
          lift (test_sets iterate_set theta theta_hat (length y) t') >>= λ sets'.
          return (t', sets'))
        (expects s (control dqkd name (rounds t) ∷ rest))
        (wait_lem json dqkd (rounds t) s name rest)
      ∙ rw (numbers-ints t) (rw found refl)

  test_devices_lem :
      (x theta theta_hat t x_t x_t_hat x' : List ℕ) (sets : TestSets)
      → gather x t ≡ ok x_t
      → gather x sets.remaining ≡ ok x'
      → test_devices json iterate_set x theta theta_hat
          (t, sets)
          (expects s (control dqkd name (outcomes x_t_hat) ∷ []))
        ≡ conclude
            (check_devices theta theta_hat sets t x_t x_t_hat)
            x'
            (expects (sent s (control dqkd s.name (outcomes x_t))) [])
  unfolding test_devices item numbers_of
  test_devices_lem x theta theta_hat t x_t x_t_hat x' sets tested left =
      rw (tested, exchange_lem json dqkd (outcomes x_t) (outcomes x_t_hat) s name [] short, ◌>>=◌)
        (rw (numbers-ints x_t_hat) (
          conclude_lem (check_devices theta theta_hat sets t x_t x_t_hat) (gather x sets.remaining)
            x' (expects (sent s (control dqkd s.name (outcomes x_t))) []) left))

-- Both parties' sessions after the test.
abbrev pub lead_after : Session → List ℕ → List ℕ → List ℕ → List ℕ → Session
lead_after lead theta t x_t ns =
    expects
      (sent_all (record lead { randoms = ns })
        (control dqkd lead.name (bases theta)
          ∷ control dqkd lead.name (rounds t)
          ∷ control dqkd lead.name (outcomes x_t)
          ∷ []))
      []

abbrev pub follow_after : Session → List ℕ → List ℕ → Session
follow_after follow theta_hat y_t =
    expects
      (sent_all follow
        (control dqkd follow.name (bases theta_hat) ∷ control dqkd follow.name (outcomes y_t) ∷ []))
      []

module _ (json : Json) (iterate_set : List ℕ → List ℕ) (s : Session) (short : length s.name ≤ 16)
    (name : Text) where
  pub lead_run :
      (x theta theta_hat t ns x_t y_t x' : List ℕ) (sets : TestSets)
      → s.role ≡ leader
      → length x / 2 ≡ length t
      → test_sets iterate_set theta theta_hat (length x) t ≡ ok sets
      → gather x t ≡ ok x_t
      → gather x sets.remaining ≡ ok x'
      → epr_test json iterate_set x theta (record s {
        ctrl_msg_q = control dqkd name (bases theta_hat) ∷ control dqkd name (outcomes y_t) ∷ [];
        randoms = t ++ ns;
      })
        ≡ conclude (check_devices theta theta_hat sets t x_t y_t) x' (lead_after s theta t x_t ns)
  unfolding epr_test get_role item numbers_of sent_all
  lead_run x theta theta_hat t ns x_t y_t x' sets leads half found tested left =
      let s_1 = sent s (control dqkd s.name (bases theta)) in
      let start = record s_1 {
        ctrl_msg_q = control dqkd name (outcomes y_t) ∷ [];
        randoms = t ++ ns;
      } in
      rw
        (
          exchange_lem json dqkd (bases theta) (bases theta_hat) (record s { randoms = t ++ ns })
              name (control dqkd name (outcomes y_t) ∷ []) short,
          ◌>>=◌,
        )
        (rw (numbers-ints theta_hat) (
          ap
            (λ r.
              (agree_tests json iterate_set r x theta theta_hat
                  >>= test_devices json iterate_set x theta theta_hat)
                start)
            leads
          ∙ >>=-ok (agree_tests json iterate_set leader x theta theta_hat)
              (test_devices json iterate_set x theta theta_hat) start
              (agree_leader json iterate_set s_1 short name x theta theta_hat t ns
                (control dqkd name (outcomes y_t) ∷ []) sets half found)
          ∙ test_devices_lem json iterate_set
              (sent (record s_1 { randoms = ns }) (control dqkd s.name (rounds t))) short name x
              theta theta_hat t x_t y_t x' sets tested left))

  pub follow_run :
      (y theta theta_hat t x_t y_t y' : List ℕ) (sets : TestSets)
      → s.role ≡ follower
      → test_sets iterate_set theta theta_hat (length y) t ≡ ok sets
      → gather y t ≡ ok y_t
      → gather y sets.remaining ≡ ok y'
      → epr_test json iterate_set y theta_hat (
          expects s (
            control dqkd name (bases theta)
            ∷ control dqkd name (rounds t)
            ∷ control dqkd name (outcomes x_t)
            ∷ []))
        ≡ conclude (check_devices theta_hat theta sets t y_t x_t) y' (follow_after s theta_hat y_t)
  unfolding epr_test get_role item numbers_of sent_all
  follow_run y theta theta_hat t x_t y_t y' sets follows found tested left =
      let s_1 = sent s (control dqkd s.name (bases theta_hat)) in
      let outs = control dqkd name (outcomes x_t) ∷ [] in
      let start = expects s_1 (control dqkd name (rounds t) ∷ outs) in
      rw
        (
          exchange_lem json dqkd (bases theta_hat) (bases theta) s name
              (control dqkd name (rounds t) ∷ outs) short,
          ◌>>=◌,
        )
        (rw (numbers-ints theta) (
          ap
            (λ r.
              (agree_tests json iterate_set r y theta_hat theta
                  >>= test_devices json iterate_set y theta_hat theta)
                start)
            follows
          ∙ >>=-ok (agree_tests json iterate_set follower y theta_hat theta)
              (test_devices json iterate_set y theta_hat theta) start
              (agree_follower json iterate_set s_1 short name y theta theta_hat t outs sets found)
          ∙ test_devices_lem json iterate_set s_1 short name y theta_hat theta t y_t x_t y' sets
              tested left))
