-- ===== src/Protocols/Bb84/Execute/Rounds.antt =====
-- The inner loops of `execute`, which collect bits and reconcile them, run by both parties on each
-- other's messages.
use qchat.Prelude.{
  ℕ, zero, suc, ◌+◌, ◌≤◌, ◌<◌, ◌≡◌, refl, List, ◌∷◌, ◌++◌, length, arith, ltb, le→ltb, ltb→ge,
  Bool-cases, inl, inr, length-append,
}
use qchat.Messages.{Json, Kind}
use qchat.Ecc.{chunk}
use qchat.Ecc.Weight.{IsBits}
use qchat.Ecc.Correct.{ecc_golay}
use qchat.Protocols.{Session, Action}
use qchat.Protocols.Joint.{IsLocal, Both, Parties, both_then, both_return}
use qchat.Protocols.Bb84.Reconcile.{whole, left_over}
use qchat.Protocols.Bb84.Execute.{collect, reconcile_enough}
use qchat.Protocols.Bb84.Execute.Close.{
  Near, Near-append, IsBits-append, chunk-Pieces, left_over-Near, whole-IsBits, length-whole,
}
use qchat.Protocols.Bb84.Execute.Local.{reconcile_information-IsLocal, collect-IsLocal}
use qchat.Protocols.Bb84.Execute.Steps.{reconcile_both}

-- How the two parties get bits. `Ready n e l f` says of the numbers that the leader and the follower
-- will draw that they do for `n` steps more, in which the parties' bits differ in `e` places in all.
pub record Distillers (distill_l distill_f : Action (List ℕ))
    (Ready : ℕ → ℕ → List ℕ → List ℕ → Type 0) : Type 0 where
  pub local_l : IsLocal distill_l
  pub local_f : IsLocal distill_f
  pub distills :
      (n e : ℕ) (s t : Session)
      → Parties s t
      → Ready (suc n) e s.randoms t.randoms
      → Both distill_l distill_f s t (λ x y s' t'.
        (d : ℕ) × (e' : ℕ) × Near d x y
        × (0 < length x)
        × (d + e' ≤ e)
        × Ready n e' s'.randoms t'.randoms)
  pub seeds :
      (n e : ℕ) (l f : List ℕ)
      → Ready (suc n) e l f
      → (y : ℕ) × (ns : List ℕ) × (l ≡ y ∷ ns) × (y < 256) × Ready n e ns f

module _ (json : Json) (message_type : Kind) (distill_l distill_f : Action (List ℕ))
    (Ready : ℕ → ℕ → List ℕ → List ℕ → Type 0)
    (distillers : Distillers distill_l distill_f Ready) where
  -- The bits of both, and the numbers that are left for `n` steps more.
  abbrev pub Held : ℕ → List ℕ → List ℕ → Session → Session → Type 0
  Held n x y s t =
      (d : ℕ) × (e : ℕ) × (m : ℕ) × Near d x y
      × (d + e ≤ 3)
      × (n ≤ m)
      × Ready m e s.randoms t.randoms

  pub Held-less : (k n : ℕ) (x y : List ℕ) (s t : Session) → k ≤ n → Held n x y s t → Held k x y s t
  Held-less k n x y s t le (d, e, m, near, few, enough, ready) =
      (d, e, m, near, few, omega (arith, le, enough), ready)

  -- One distillation more.
  distill_both :
      (n : ℕ) (x y : List ℕ) (s t : Session)
      → Parties s t
      → Held (suc n) x y s t
      → Both distill_l distill_f s t
          (λ new new' s' t'. (0 < length new) × Held n (x ++ new) (y ++ new') s' t')
  distill_both n x y s t p (d, e, zero, near, few, enough, ready) = absurd (omega arith)
  distill_both n x y s t p (d, e, suc m, near, few, enough, ready) =
      let b = distillers.distills m e s t p ready in
      let (d', e', near', some, less, later) = b.holds in
      record {
        to_lead = b.to_lead;
        to_follow = b.to_follow;
        x = b.x;
        y = b.y;
        s' = b.s';
        t' = b.t';
        run_lead = b.run_lead;
        run_follow = b.run_follow;
        lead_follows = b.lead_follows;
        follow_follows = b.follow_follows;
        holds = (
          some,
          (
            d + d',
            e',
            m,
            Near-append d d' x y b.x b.y near near',
            omega (arith, few, less),
            omega (arith, enough),
            later,
          ),
        );
      }

  collect_both :
      (fuel k n : ℕ) (x y : List ℕ) (s t : Session)
      → k < fuel
      → 23 ≤ k + length x
      → Parties s t
      → Held (k + n) x y s t
      → Both
          (collect json message_type distill_l ecc_golay fuel x)
          (collect json message_type distill_f ecc_golay fuel y)
          s
          t
          (λ x' y' s' t'. (23 ≤ length x') × Held n x' y' s' t')
  unfolding collect
  collect_both zero k n x y s t more_fuel long p held = absurd (omega arith)
  collect_both (suc fuel) zero n x y s t more_fuel long p held =
      rw
        (
          le→ltb (length x) 23 (omega (arith, long)),
          le→ltb (length y) 23 (omega (arith, long, held.3.same_length)),
        )
        (both_return x y s t _
          (omega (arith, long), Held-less n (0 + n) x y s t (omega arith) held))
  collect_both (suc fuel) (suc k) n x y s t more_fuel long p held =
      elim (Bool-cases (ltb (length x) 23)) [
        | inl few ↦
            rw (held.3.same_length, few)
              (both_then distill_l distill_f _ _ s t _ _ distillers.local_l distillers.local_f p
                (distill_both (k + n) x y s t p
                  (Held-less (suc (k + n)) (suc k + n) x y s t (omega arith) held))
                λ new new' s' t' p' got.
                  collect_both fuel k n (x ++ new) (y ++ new') s' t' (omega arith)
                    (omega (arith, length-append x new, got.0)) p' got.1)
        | inr done ↦
            rw (held.3.same_length, done)
              (both_return x y s t _
                (ltb→ge (length x) 23 done, Held-less n (suc k + n) x y s t (omega arith) held))
      ]

  abbrev pub Enough : ℕ → List ℕ × List ℕ → List ℕ × List ℕ → Session → Session → Type 0
  Enough n a b s t = (b.1 ≡ a.1) × IsBits a.1 × (16 ≤ length a.1) × Held n a.0 b.0 s t

  reconcile_both_sides :
      (fuel n : ℕ) (a b : List ℕ × List ℕ) (s t : Session)
      → Enough n a b s t
      → Both
          (reconcile_enough json message_type distill_l ecc_golay (suc fuel) a.0 a.1)
          (reconcile_enough json message_type distill_f ecc_golay (suc fuel) b.0 b.1)
          s
          t
          (Enough n)
  unfolding reconcile_enough
  reconcile_both_sides fuel n (x, r) (y, r') s t (same, bits, long, held) =
      rw (same, le→ltb (length r) 16 long)
        (both_return (x, r) (y, r) s t (Enough n) (refl, bits, long, held))

  left_Held :
      (n : ℕ) (x y : List ℕ) (s t s' t' : Session)
      → s'.randoms ≡ s.randoms
      → t'.randoms ≡ t.randoms
      → Held n x y s t
      → Held n (left_over (chunk ecc_golay x)) (left_over (chunk ecc_golay y)) s' t'
  left_Held n x y s t s' t' same_l same_f (d, e, m, near, few, enough, ready) = (
    d,
    e,
    m,
    left_over-Near d (chunk ecc_golay x) (chunk ecc_golay y) (chunk-Pieces d x y near),
    few,
    enough,
    rw (same_l, same_f) ready,
  )

  pub reconcile_enough_both :
      (fuel n : ℕ) (x y r : List ℕ) (s t : Session)
      → 25 ≤ fuel
      → IsBits r
      → Parties s t
      → Held (23 + n) x y s t
      → Both
          (reconcile_enough json message_type distill_l ecc_golay fuel x r)
          (reconcile_enough json message_type distill_f ecc_golay fuel y r)
          s
          t
          (Enough n)
  unfolding reconcile_enough
  reconcile_enough_both zero n x y r s t fuels bits p held = absurd (omega arith)
  reconcile_enough_both (suc zero) n x y r s t fuels bits p held = absurd (omega arith)
  reconcile_enough_both (suc (suc fuel)) n x y r s t fuels bits p held =
      elim (Bool-cases (ltb (length r) 16)) [
        | inr done ↦ rw done (
            both_return (x, r) (y, r) s t (Enough n)
              (
                refl,
                bits,
                ltb→ge (length r) 16 done,
                Held-less n (23 + n) x y s t (omega arith) held,
              ))
        | inl few ↦ rw few (
            both_then _ _ _ _ s t _ (Enough n)
              (collect-IsLocal json message_type distill_l ecc_golay distillers.local_l (suc fuel)
                x)
              (collect-IsLocal json message_type distill_f ecc_golay distillers.local_f (suc fuel)
                y)
              p (collect_both (suc fuel) 23 n x y s t (omega arith) (omega arith) p held)
              λ x' y' s' t' p' got.
                both_then _ _ _ _ s' t' _ (Enough n)
                  (reconcile_information-IsLocal json ecc_golay x')
                  (reconcile_information-IsLocal json ecc_golay y') p'
                  (reconcile_both json s' t' p' got.1.0 x' y' (omega (arith, got.1.4)) got.1.3)
                  λ a b s'' t'' p'' shared.
                    let c = chunk ecc_golay x' in
                    let new = whole c in
                    let pieces = chunk-Pieces got.1.0 x' y' got.1.3 in
                    reconcile_both_sides fuel n (a.0, r ++ a.1) (b.0, r ++ b.1) s'' t''
                      (rw (shared.0, shared.1)
                        (
                          refl,
                          IsBits-append r new bits
                              (whole-IsBits got.1.0 c (chunk ecc_golay y') pieces),
                          omega (arith, length-append r new, length-whole x' got.0),
                          left_Held n x' y' s' t' s'' t'' shared.2 shared.3 got.1,
                        )))
      ]
