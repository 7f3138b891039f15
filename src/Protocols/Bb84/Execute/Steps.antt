-- ===== src/Protocols/Bb84/Execute/Steps.antt =====
-- The steps of `execute` that exchange messages, run by both parties.
use qchat.Prelude.{
  ℕ, ◌*◌, ◌/◌, ◌≤◌, ◌<◌, ◌≡◌, refl, ap, ◌∙◌, true, not, List, [], ◌∷◌, ◌++◌, map, length, ok, arith,
  nat_beq, if◌then◌else◌,
}
use qchat.Value.{Text, bool, Fields, end, field, codes}
use qchat.Messages.{Json, Kind, bb84, Message}
use qchat.Ecc.{chunk}
use qchat.Ecc.Correct.{ecc_golay}
use qchat.Protocols.{Session, ◌>>=◌, item, truthy, end_protocol}
use qchat.Protocols.Messaging.{control, expects, sent, sent_all, exchange_lem}
use qchat.Protocols.Joint.{IsLocal, >>=-IsLocal, Both, Parties, sent_all-Follows}
use qchat.Protocols.Joint.Local.{lift-IsLocal, abort_if-IsLocal, exchange-IsLocal}
use qchat.Protocols.Bb84.{ack, reconcile_information, amplify_privacy}
use qchat.Protocols.Bb84.Reconcile.{acks, syndromes, whole, left_over, reconcile_information_agrees}
use qchat.Protocols.Bb84.Amplify.{seed_and_tag, tag, amplify_privacy_agrees}
use qchat.Protocols.Bb84.Execute.Close.{Near, chunk-Pieces, Pieces-AreClose}

nat_beq_self : (n : ℕ) → nat_beq n n ≡ true
nat_beq_self n = ground arith

module _ (json : Json) (s t : Session) (p : Parties s t) where
  -- Reconciliation of bits that differ in at most three places.
  pub reconcile_both :
      (e : ℕ) (x y : List ℕ)
      → e ≤ 3
      → Near e x y
      → Both
          (reconcile_information json ecc_golay x)
          (reconcile_information json ecc_golay y)
          s
          t
          (λ a b s' t'.
            (a ≡ (left_over (chunk ecc_golay x), whole (chunk ecc_golay x)))
            × (b ≡ (left_over (chunk ecc_golay y), whole (chunk ecc_golay x)))
            × (s'.randoms ≡ s.randoms)
            × (t'.randoms ≡ t.randoms))
  reconcile_both e x y le near =
      let to_lead = acks t.name (chunk ecc_golay x) in
      let to_follow = syndromes s.name (chunk ecc_golay x) in
      let (run_l, run_f) =
        reconcile_information_agrees json (expects s to_lead) (expects t to_follow) x y p.leads
          p.follows p.short_lead p.short_follow
          (Pieces-AreClose e (chunk ecc_golay x) (chunk ecc_golay y) le (chunk-Pieces e x y near))
          refl refl in
      let (follows_l, same_l) = sent_all-Follows s to_lead to_follow in
      let (follows_f, same_f) = sent_all-Follows t to_follow to_lead in
      record {
        to_lead = to_lead;
        to_follow = to_follow;
        x = (left_over (chunk ecc_golay x), whole (chunk ecc_golay x));
        y = (left_over (chunk ecc_golay y), whole (chunk ecc_golay x));
        s' = sent_all (expects s to_lead) to_follow;
        t' = sent_all (expects t to_follow) to_lead;
        run_lead = run_l;
        run_follow = run_f;
        lead_follows = follows_l;
        follow_follows = follows_f;
        holds = (refl, refl, same_l, same_f);
      }

  -- Privacy amplification of the same two bytes.
  pub amplify_both :
      (a b y : ℕ) (ns : List ℕ)
      → s.randoms ≡ y ∷ ns
      → y < 256
      → a < 256
      → Both
          (amplify_privacy json (a ∷ b ∷ []))
          (amplify_privacy json (a ∷ b ∷ []))
          s
          t
          (λ k l s' t'.
            (k ≡ (y * a / 256) ∷ [])
            × (l ≡ (y * a / 256) ∷ [])
            × (s'.randoms ≡ ns)
            × (t'.randoms ≡ t.randoms))
  amplify_both a b y ns drawn small byte =
      let fits = nat_beq (tag y a b) (tag y a b) in
      let to_lead : List Message = control bb84 t.name (ack fits) ∷ [] in
      let to_follow : List Message = control bb84 s.name (seed_and_tag y (tag y a b)) ∷ [] in
      let (run_l, run_f) =
        amplify_privacy_agrees json s t a b a b y ns p.leads p.follows p.short_lead p.short_follow
          byte byte small in
      let one : (if fits then (y * a / 256) ∷ [] else []) ≡ (y * a / 256) ∷ [] =
        rw (nat_beq_self (tag y a b)) refl in
      record {
        to_lead = to_lead;
        to_follow = to_follow;
        x = if fits then (y * a / 256) ∷ [] else [];
        y = if fits then (y * a / 256) ∷ [] else [];
        s' = record s {
          outbound_q = s.outbound_q ++ map (λ m. (s.peer, m)) to_follow;
          randoms = ns;
        };
        t' = record t { outbound_q = t.outbound_q ++ map (λ m. (t.peer, m)) to_lead };
        run_lead =
            ap
              (λ r.
                amplify_privacy json (a ∷ b ∷ []) (record s { ctrl_msg_q = to_lead; randoms = r }))
              drawn
            ∙ run_l;
        run_follow = run_f;
        lead_follows = record {
          sends = refl;
          same_peer = refl;
          same_name = refl;
          same_role = refl;
        };
        follow_follows = record {
          sends = refl;
          same_peer = refl;
          same_name = refl;
          same_role = refl;
        };
        holds = (one, one, refl, refl);
      }

  abbrev fin : Fields
  fin = field (codes "FIN") (bool true) end

  end_lem :
      (kind : Kind) (u : Session) (name : Text)
      → length u.name ≤ 16
      → end_protocol json kind (expects u (control kind name fin ∷ []))
        ≡ ok (tt, expects (sent u (control kind u.name fin)) [])
  unfolding end_protocol item truthy
  end_lem kind u name short = rw (exchange_lem json kind fin fin u name [] short, ◌>>=◌) refl

  -- The end of the protocol.
  pub end_both :
      (kind : Kind) → Both (end_protocol json kind) (end_protocol json kind) s t (λ a b s' t'. Unit)
  end_both kind = record {
    to_lead = control kind t.name fin ∷ [];
    to_follow = control kind s.name fin ∷ [];
    x = tt;
    y = tt;
    s' = sent s (control kind s.name fin);
    t' = sent t (control kind t.name fin);
    run_lead = end_lem kind s t.name p.short_lead;
    run_follow = end_lem kind t s.name p.short_follow;
    lead_follows = record { sends = refl; same_peer = refl; same_name = refl; same_role = refl };
    follow_follows = record { sends = refl; same_peer = refl; same_name = refl; same_role = refl };
    holds = tt;
  }

pub end_protocol-IsLocal : (json : Json) (kind : Kind) → IsLocal (end_protocol json kind)
unfolding end_protocol
end_protocol-IsLocal json kind =
    >>=-IsLocal _ _ (exchange-IsLocal json (field (codes "FIN") (bool true) end) kind) λ m.
      >>=-IsLocal _ _ (lift-IsLocal (item (codes "FIN") m.message_data))
        λ v. abort_if-IsLocal (not (truthy v))
