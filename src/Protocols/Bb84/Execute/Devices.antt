-- ===== src/Protocols/Bb84/Execute/Devices.antt =====
-- How both parties distill bits, over any devices.
use qchat.Prelude.{
  ℕ, suc, ◌+◌, ◌≤◌, ◌<◌, ◌≡◌, refl, ap, ◌∙◌, inl, Bool, true, false, List, [], ◌∷◌, ◌++◌, length,
  ok, arith, if◌then◌else◌,
}
use qchat.Messages.{Json, bb84}
use qchat.Ecc.Weight.{IsBits, distance}
use qchat.Protocols.{Session, Action}
use qchat.Protocols.Messaging.{control, expects, sent_all}
use qchat.Protocols.Joint.{IsLocal, Both, Parties, Follows-trans, Follows-Parties, drawn_then_sent}
use qchat.Protocols.Bb84.{distill_tested_data, is_too_high, error_rate}
use qchat.Protocols.Bb84.Sift.{same_basis, select, bases}
use qchat.Protocols.Bb84.Estimate.{differences, InRange}
use qchat.Protocols.Bb84.Estimate.Agreement.{questions, answers}
use qchat.Protocols.Bb84.Distill.{distill_tested_data_agrees}
use qchat.Protocols.Bb84.Execute.Close.{Near}
use qchat.Protocols.Bb84.Execute.Distilling.{distill_tested_data-IsLocal}
use qchat.Protocols.Bb84.Execute.Rounds.{Distillers}

-- What the devices measure in a round: as many bits for each party, more than 25 of them in the same
-- basis; and the leader's next numbers are the 25 indices of the test. Of the sifted bits at most `d`
-- differ.
pub record Measured (a b : List ℕ × List ℕ) (d : ℕ) (is : List ℕ) : Type 0 where
  pub bits_a : IsBits a.0
  pub bits_b : IsBits b.0
  pub same_length : length b.0 ≡ length a.0
  pub enough : 25 < length (select (same_basis a.1 b.1) a.0)
  pub count : length is ≡ 25
  pub range : InRange is (length (select (same_basis a.1 b.1) a.0))
  pub apart : differences (select (same_basis a.1 b.1) a.0) (select (same_basis a.1 b.1) b.0) ≤ d

-- The devices of both parties. `Ready n e l f` says of the numbers that the leader and the follower
-- will draw that they do for `n` steps more, in which `e` of the sifted bits differ in all.
pub record Devices (device_l device_f : Action (List ℕ × List ℕ))
    (Ready : ℕ → ℕ → List ℕ → List ℕ → Type 0) : Type 0 where
  pub local_l : IsLocal device_l
  pub local_f : IsLocal device_f
  pub measures :
      (n e : ℕ) (s t : Session)
      → Parties s t
      → Ready (suc n) e s.randoms t.randoms
      → Both device_l device_f s t (λ a b s' t'.
        (d : ℕ) × (e' : ℕ) × (is : List ℕ) × (ns : List ℕ) × Measured a b d is
        × (s'.randoms ≡ is ++ ns)
        × (d + e' ≤ e)
        × Ready n e' ns t'.randoms)
  pub seeds :
      (n e : ℕ) (l f : List ℕ)
      → Ready (suc n) e l f
      → (y : ℕ) × (ns : List ℕ) × (l ≡ y ∷ ns) × (y < 256) × Ready n e ns f

select-IsBits : (marks : List Bool) (x : List ℕ) → IsBits x → IsBits (select marks x)
unfolding select
select-IsBits [] x h = tt
select-IsBits (true ∷ marks) [] h = tt
select-IsBits (true ∷ marks) (b ∷ x) h = (h.0, select-IsBits marks x h.1)
select-IsBits (false ∷ marks) [] h = tt
select-IsBits (false ∷ marks) (b ∷ x) h = select-IsBits marks x h.1

distance-differences :
    (x y : List ℕ) → IsBits x → IsBits y → length y ≡ length x → distance y x ≡ differences x y
unfolding distance differences
distance-differences [] [] hx hy e = refl
distance-differences [] (b ∷ y) hx hy e = absurd (omega arith)
distance-differences (a ∷ x) [] hx hy e = absurd (omega arith)
distance-differences (a ∷ x) (b ∷ y) hx hy e =
    ground (arith, distance-differences x y hx.1 hy.1 (omega arith))

low_rate :
    (errors : ℕ) (bx : List ℕ)
    → length bx ≡ 25
    → errors ≤ 3
    → is_too_high (error_rate errors bx) ≡ false
unfolding is_too_high error_rate
low_rate errors [] h few = absurd (omega arith)
low_rate errors (b ∷ bx) h few = ground arith

module _ (json : Json) (device_l device_f : Action (List ℕ × List ℕ))
    (Ready : ℕ → ℕ → List ℕ → List ℕ → Type 0) (devices : Devices device_l device_f Ready) where
  abbrev pub FewReady : ℕ → ℕ → List ℕ → List ℕ → Type 0
  FewReady n e l f = (e ≤ 3) × Ready n e l f

  distill_both :
      (n e : ℕ) (s t : Session)
      → Parties s t
      → FewReady (suc n) e s.randoms t.randoms
      → Both
          (distill_tested_data json device_l)
          (distill_tested_data json device_f)
          s
          t
          (λ x y s' t'.
            (d : ℕ) × (e' : ℕ) × Near d x y
            × (0 < length x)
            × (d + e' ≤ e)
            × FewReady n e' s'.randoms t'.randoms)
  distill_both n e s t p (small, ready) =
      let b = devices.measures n e s t p ready in
      let (d, e', is, ns, m, draw, less, later) = b.holds in
      let p' = Follows-Parties s t b.s' b.t' b.lead_follows b.follow_follows p in
      let marks = same_basis b.x.1 b.y.1 in
      let (bx, by_, x', y', split, run_l, run_f) =
        distill_tested_data_agrees json device_l device_f s t b.s' b.t' b.to_lead b.to_follow b.x.0
          b.y.0 b.x.1 b.y.1 is ns p'.leads p'.follows p'.short_lead p'.short_follow m.same_length
          m.range (inl m.count)
          (λ inbox.
            devices.local_l (expects s b.to_lead) inbox b.x (expects b.s' []) b.run_lead
            ∙ ap (λ r. ok (b.x, record b.s' { ctrl_msg_q = inbox; randoms = r })) draw)
          (λ inbox.
            devices.local_f (expects t b.to_follow) inbox b.y (expects b.t' []) b.run_follow) in
      let answered = control bb84 b.t'.name (bases b.y.1) ∷ answers b.t'.name by_ in
      let asked = control bb84 b.s'.name (bases b.x.1) ∷ questions b.s'.name is bx in
      let (follows_l, same_l) = drawn_then_sent b.s' ns asked in
      let (follows_f, same_f) = drawn_then_sent b.t' b.t'.randoms answered in
      let low =
        low_rate (differences bx by_) bx (split.count_x ∙ m.count)
          (omega (arith, split.apart, m.apart, less, small)) in
      let bits_x' = split.bits_x (select-IsBits marks b.x.0 m.bits_a) in
      let bits_y' = split.bits_y (select-IsBits marks b.y.0 m.bits_b) in
      record {
        to_lead = b.to_lead ++ answered;
        to_follow = b.to_follow ++ asked;
        x = x';
        y = y';
        s' = sent_all (record b.s' { randoms = ns }) asked;
        t' = sent_all b.t' answered;
        run_lead =
            run_l
            ∙ ap
                (λ c. ok (
                  if c then [] else x',
                  expects (sent_all (record b.s' { randoms = ns }) asked) [],
                ))
                low;
        run_follow =
            run_f ∙ ap (λ c. ok (if c then [] else y', expects (sent_all b.t' answered) [])) low;
        lead_follows = Follows-trans s b.s' _ b.to_follow asked b.lead_follows follows_l;
        follow_follows = Follows-trans t b.t' _ b.to_lead answered b.follow_follows follows_f;
        holds = (
          d,
          e',
          record {
            bits_x = bits_x';
            bits_y = bits_y';
            same_length = split.left_y;
            near = omega (
              arith,
              distance-differences x' y' bits_x' bits_y' split.left_y,
              split.apart,
              m.apart,
            );
          },
          omega (arith, split.left_x, m.enough, m.count),
          less,
          (omega (arith, less, small), rw (same_l, same_f) later),
        );
      }

  pub distillers :
      Distillers (distill_tested_data json device_l) (distill_tested_data json device_f) FewReady
  distillers = record {
    local_l = distill_tested_data-IsLocal json device_l devices.local_l;
    local_f = distill_tested_data-IsLocal json device_f devices.local_f;
    distills = distill_both;
    seeds = λ n e l f ready.
        let (y, ns, same, byte, later) = devices.seeds n e l f ready.1 in
        (y, ns, same, byte, (ready.0, later));
  }
