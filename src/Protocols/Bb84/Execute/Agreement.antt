-- ===== src/Protocols/Bb84/Execute/Agreement.antt =====
-- The loops of `execute`, run by both parties on each other's messages.
use mathlib.Core.Path.{subst}
use qchat.Prelude.{
  ℕ, zero, suc, ◌+◌, ◌*◌, ◌/◌, ◌%◌, ◌≤◌, ◌<◌, ◌≡◌, refl, ap, sym, ◌∙◌, List, [], ◌∷◌, ◌++◌, map,
  length, take, drop, ok, arith, lt→ltb, le→ltb, length-append, length-take,
}
use qchat.Value.{Bytes}
use qchat.Value.Words.{to_bytes, to_bytes_two}
use qchat.Messages.{Json, Kind, Message}
use qchat.Ecc.Weight.{IsBits}
use qchat.Ecc.Correct.{ecc_golay}
use qchat.Protocols.{Session, Action, return, lift, ◌>>=◌, ◌>>◌, end_protocol}
use qchat.Protocols.Messaging.{expects}
use qchat.Protocols.Joint.{Both, Parties, both_then, both_return, both_known}
use qchat.Protocols.Bb84.{amplify_privacy}
use qchat.Protocols.Bb84.Execute.{int_of_bits, derive, run}
use qchat.Protocols.Bb84.Execute.Close.{Near-nil, IsBits-take, IsBits-drop, int_of_bits_lem}
use qchat.Protocols.Bb84.Execute.Local.{
  amplify_privacy-IsLocal, reconcile_enough-IsLocal, derive-IsLocal,
}
use qchat.Protocols.Bb84.Execute.Steps.{amplify_both, end_both, end_protocol-IsLocal}
use qchat.Protocols.Bb84.Execute.Rounds.{Distillers, Held, Held-less, reconcile_enough_both}

module _ (json : Json) (message_type : Kind) (distill_l distill_f : Action (List ℕ))
    (Ready : ℕ → ℕ → List ℕ → List ℕ → Type 0)
    (distillers : Distillers distill_l distill_f Ready) where
  abbrev Has : ℕ → List ℕ → List ℕ → Session → Session → Type 0
  Has = Held json message_type distill_l distill_f Ready distillers

  drawn :
      (n : ℕ) (x y : List ℕ) (s t : Session)
      → Has (suc n) x y s t
      → (seed : ℕ) × (ns : List ℕ) × (s.randoms ≡ seed ∷ ns)
        × (seed < 256)
        × ((s' t' : Session) → s'.randoms ≡ ns → t'.randoms ≡ t.randoms → Has n x y s' t')
  drawn n x y s t (d, e, zero, near, few, enough, ready) = absurd (omega arith)
  drawn n x y s t (d, e, suc m, near, few, enough, ready) =
      let (seed, ns, same, small, later) = distillers.seeds m e s.randoms t.randoms ready in
      (
        seed,
        ns,
        same,
        small,
        λ s' t' same_l same_f.
            (d, e, m, near, few, omega (arith, enough), rw (same_l, same_f) later),
      )

  abbrev SameKey : ℕ → Bytes → Bytes → Session → Session → Type 0
  SameKey key_size k l s t = (l ≡ k) × (length k ≡ key_size)

  -- Two bytes of the reconciled bits, hashed to one, and what follows.
  abbrev hash_then : {A : Type 0} → (Bytes → Action A) → List ℕ → Action A
  hash_then f bits = lift (int_of_bits 0 (take 16 bits)) >>= λ n.
      lift (to_bytes 2 n) >>= λ two. amplify_privacy json two >>= f

  hash_both :
      (f g : Bytes → Action Bytes) (R : Bytes → Bytes → Session → Session → Type 0) (n : ℕ)
      (bits x y : List ℕ) (s t : Session)
      → IsBits bits
      → 16 ≤ length bits
      → Parties s t
      → Has (suc n) x y s t
      → ((b : ℕ) (s' t' : Session)
          → Parties s' t'
          → Has n x y s' t'
          → Both (f (b ∷ [])) (g (b ∷ [])) s' t' R)
      → Both (hash_then f bits) (hash_then g bits) s t R
  hash_both f g R n bits x y s t good long p held next =
      let (k, number, bound) = int_of_bits_lem 0 (take 16 bits) (IsBits-take 16 bits good) in
      let sixteen : length (take 16 bits) ≡ 16 = omega (arith, length-take 16 bits, long) in
      let fits : k < 65536 = rw sixteen at bound in
      let (seed, ns, draw, byte, later) = drawn n x y s t held in
      let two : Bytes = k / 256 ∷ k % 256 ∷ [] in
      both_known (int_of_bits 0 (take 16 bits)) (int_of_bits 0 (take 16 bits)) k k
        (λ n. lift (to_bytes 2 n) >>= λ two. amplify_privacy json two >>= f)
        (λ n. lift (to_bytes 2 n) >>= λ two. amplify_privacy json two >>= g) s t R number number
        (both_known (to_bytes 2 k) (to_bytes 2 k) two two (λ two. amplify_privacy json two >>= f)
          (λ two. amplify_privacy json two >>= g) s t R (to_bytes_two k fits) (to_bytes_two k fits)
          (both_then (amplify_privacy json two) (amplify_privacy json two) f g s t _ R
            (amplify_privacy-IsLocal json two) (amplify_privacy-IsLocal json two) p
            (amplify_both json s t p (k / 256) (k % 256) seed ns draw byte (omega (arith, fits)))
            λ new new' s' t' p' got.
              subst (λ c. Both (f c) (g new') s' t' R) (sym got.0)
                (subst (λ c. Both (f ((seed * (k / 256) / 256) ∷ [])) (g c) s' t' R) (sym got.1)
                  (next (seed * (k / 256) / 256) s' t' p' (later s' t' got.2 got.3)))))

  derive_both :
      (fuel r key_size : ℕ) (key : Bytes) (x y bits : List ℕ) (s t : Session)
      → 26 + r ≤ fuel
      → length key + r ≡ key_size
      → IsBits bits
      → Parties s t
      → Has (24 * r) x y s t
      → Both
          (derive json message_type distill_l ecc_golay fuel key_size key x bits)
          (derive json message_type distill_f ecc_golay fuel key_size key y bits)
          s
          t
          (SameKey key_size)
  unfolding derive
  derive_both zero r key_size key x y bits s t fuels size small p held = absurd (omega arith)
  derive_both (suc fuel) zero key_size key x y bits s t fuels size small p held =
      rw (le→ltb (length key) key_size (omega (arith, size)))
        (both_return key key s t (SameKey key_size) (refl, omega (arith, size)))
  derive_both (suc fuel) (suc r) key_size key x y bits s t fuels size small p held =
      rw (lt→ltb (length key) key_size (omega (arith, size))) (
        both_then _ _ _ _ s t _ (SameKey key_size)
          (reconcile_enough-IsLocal json message_type distill_l ecc_golay distillers.local_l fuel x
            bits)
          (reconcile_enough-IsLocal json message_type distill_f ecc_golay distillers.local_f fuel y
            bits)
          p
          (reconcile_enough_both json message_type distill_l distill_f Ready distillers fuel
            (suc (24 * r)) x y bits s t (omega arith) small p
            (Held-less json message_type distill_l distill_f Ready distillers (23 + suc (24 * r))
              (24 * suc r) x y s t (omega arith) held))
          λ a b s' t' p' (same, good, long, left).
            subst
              (λ c.
                Both
                  (hash_then
                    (λ new.
                      derive json message_type distill_l ecc_golay fuel key_size (key ++ new) a.0
                        (drop 16 a.1))
                    a.1)
                  (hash_then
                    (λ new.
                      derive json message_type distill_f ecc_golay fuel key_size (key ++ new) b.0
                        (drop 16 c))
                    c)
                  s' t' (SameKey key_size))
              (sym same)
              (hash_both
                (λ new.
                  derive json message_type distill_l ecc_golay fuel key_size (key ++ new) a.0
                    (drop 16 a.1))
                (λ new.
                  derive json message_type distill_f ecc_golay fuel key_size (key ++ new) b.0
                    (drop 16 a.1))
                (SameKey key_size) (24 * r) a.1 a.0 b.0 s' t' good long p' left
                λ new s'' t'' p'' held'.
                  derive_both fuel r key_size (key ++ new ∷ []) a.0 b.0 (drop 16 a.1) s'' t''
                    (omega arith) (omega (arith, length-append key (new ∷ []), size))
                    (IsBits-drop 16 a.1 good) p'' held'))

  -- A whole key agreement, the two parties, with names of at most 16 characters, run on each other's
  -- messages, when their numbers do for 24 steps for each byte of the key and the distilled bits differ
  -- in at most three places in all: there are messages for each party, exactly those that the other
  -- one sends, with which both end, within 26 rounds more than the key has bytes, and both return the
  -- same key, of the length asked for.
  pub run_agrees :
      (key_size : ℕ) (lead follow : Session)
      → Parties lead follow
      → Ready (24 * key_size) 3 lead.randoms follow.randoms
      → (key : Bytes) × (to_lead : List Message) × (to_follow : List Message) × (lead' : Session)
        × (follow' : Session) × (length key ≡ key_size)
        × (run json message_type distill_l ecc_golay (26 + key_size) key_size (expects lead to_lead)
            ≡ ok (key, expects lead' []))
        × (run json message_type distill_f ecc_golay
              (26 + key_size)
              key_size
              (expects follow to_follow)
            ≡ ok (key, expects follow' []))
        × (lead'.outbound_q ≡ lead.outbound_q ++ map (λ m. (lead.peer, m)) to_follow)
        × (follow'.outbound_q ≡ follow.outbound_q ++ map (λ m. (follow.peer, m)) to_lead)
  unfolding run
  run_agrees key_size lead follow p ready =
      let b =
        both_then (derive json message_type distill_l ecc_golay (26 + key_size) key_size [] [] [])
          (derive json message_type distill_f ecc_golay (26 + key_size) key_size [] [] [])
          (λ key. end_protocol json message_type >> return key)
          (λ key. end_protocol json message_type >> return key) lead follow (SameKey key_size)
          (SameKey key_size)
          (derive-IsLocal json message_type distill_l ecc_golay distillers.local_l (26 + key_size)
            key_size [] [] [])
          (derive-IsLocal json message_type distill_f ecc_golay distillers.local_f (26 + key_size)
            key_size [] [] [])
          p
          (derive_both (26 + key_size) key_size key_size [] [] [] [] lead follow (omega arith)
            (omega arith) tt p (0, 3, 24 * key_size, Near-nil, omega arith, omega arith, ready))
          (λ k l s' t' p' same.
            both_then (end_protocol json message_type) (end_protocol json message_type)
              (λ _. return k) (λ _. return l) s' t' _ (SameKey key_size)
              (end_protocol-IsLocal json message_type) (end_protocol-IsLocal json message_type) p'
              (end_both json s' t' p' message_type)
              λ u v s'' t'' p'' done. both_return k l s'' t'' (SameKey key_size) same) in
      (
        b.x,
        b.to_lead,
        b.to_follow,
        b.s',
        b.t',
        b.holds.1,
        b.run_lead,
        b.run_follow ∙ ap (λ k. ok (k, expects b.t' [])) b.holds.0,
        b.lead_follows.sends,
        b.follow_follows.sends,
      )
