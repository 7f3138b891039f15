-- ===== src/Protocols/Bb84/Reconcile.antt =====
-- Information reconciliation, run by both parties on each other's messages.
use qchat.Prelude.{
  ℕ, ◌⊎◌, ◌≤◌, ◌<◌, ◌≡◌, refl, ap, sym, ◌∙◌, true, List, [], ◌∷◌, ◌++◌, length, Result, ok, arith,
  append-nil, append_assoc, ltb, ltb→ge, Bool-cases, inl, inr, if◌then◌else◌,
}
use qchat.Value.{Text, arr, Fields, end, field, codes}
use qchat.Messages.{Json, bb84, Message}
use qchat.Ecc.{h_golay, chunk, decode}
use qchat.Ecc.Weight.{IsBits, IsWord, distance, distance_self}
use qchat.Ecc.Syndrome.{syndrome}
use qchat.Ecc.Correct.{ecc_golay, encode_lem, decode-encode}
use qchat.Protocols.{leader, follower, Session, lift, ◌>>=◌, >>=-ok, item, truthy, ints}
use qchat.Protocols.Messaging.{sent_all, control, expects, sent, exchange_lem}
use qchat.Protocols.Bb84.{
  ack, row_of, entries, exchange_syndrome, reconcile_chunks, reconcile_information,
}

-- The messages of a run over the leader's codewords: a syndrome each from the leader, an
-- acknowledgement each from the follower, up to the first codeword that is too short.
abbrev pub syndrome_of : List ℕ → Fields
syndrome_of codeword = field (codes "s") (arr (ints (syndrome h_golay codeword))) end

unfoldable pub syndromes : Text → List (List ℕ) → List Message
syndromes name [] = []
syndromes name (c ∷ cs) =
    if ltb (length c) 23 then [] else control bb84 name (syndrome_of c) ∷ syndromes name cs

unfoldable pub acks : Text → List (List ℕ) → List Message
acks name [] = []
acks name (c ∷ cs) = if ltb (length c) 23 then [] else control bb84 name (ack true) ∷ acks name cs

-- The bits of the whole codewords, and the bits that are left for the next round.
unfoldable pub whole : List (List ℕ) → List ℕ
whole [] = []
whole (c ∷ cs) = if ltb (length c) 23 then [] else c ++ whole cs

unfoldable pub left_over : List (List ℕ) → List ℕ
left_over [] = []
left_over (c ∷ cs) = if ltb (length c) 23 then c else left_over cs

-- Codewords of the two parties side by side: bits, of one length, 23 at most, and where they are
-- whole codewords, different in at most three places.
abbrev pub AreClose : List (List ℕ) → List (List ℕ) → Type 0
AreClose [] [] = Unit
AreClose [] (d ∷ ds) = ⊥
AreClose (c ∷ cs) [] = ⊥
AreClose (c ∷ cs) (d ∷ ds) =
    (IsBits c
      × IsBits d
      × (length d ≡ length c)
      × (length c ≤ 23)
      × ((length c < 23) ⊎ (distance d c ≤ 3)))
    × AreClose cs ds

entries-ints : (ns : List ℕ) → entries (ints ns) ≡ ok ns
unfolding entries ints
entries-ints [] = refl
entries-ints (n ∷ ns) = rw (entries-ints ns)

module _ (json : Json) (s : Session) (short : length s.name ≤ 16) (name : Text)
    (rest : List Message) where
  leader_step :
      (c : List ℕ)
      → IsWord 23 c
      → exchange_syndrome json ecc_golay c leader (expects s (control bb84 name (ack true) ∷ rest))
        ≡ ok (syndrome h_golay c, expects (sent s (control bb84 s.name (syndrome_of c))) rest)
  unfolding exchange_syndrome item truthy
  leader_step c w =
      rw (encode_lem c w.1)
        (rw (exchange_lem json bb84 (syndrome_of c) (ack true) s name rest short, ◌>>=◌))

  follower_step :
      (c d : List ℕ)
      → exchange_syndrome json ecc_golay d follower
          (expects s (control bb84 name (syndrome_of c) ∷ rest))
        ≡ ok (syndrome h_golay c, expects (sent s (control bb84 s.name (ack true))) rest)
  unfolding exchange_syndrome item row_of
  follower_step c d =
      rw (exchange_lem json bb84 (ack true) (syndrome_of c) s name rest short, ◌>>=◌)
        (rw (entries-ints (syndrome h_golay c)))

-- A leader's own codeword, decoded with its own syndrome, is itself.
decode_own : (c : List ℕ) → IsWord 23 c → decode ecc_golay c (syndrome h_golay c) ≡ ok c
decode_own c w = rw (encode_lem c w.1) at (decode-encode c c w w (omega (arith, distance_self c)))

decode_close :
    (c d : List ℕ)
    → IsWord 23 c
    → IsWord 23 d
    → distance d c ≤ 3
    → decode ecc_golay d (syndrome h_golay c) ≡ ok c
decode_close c d wc wd near = rw (encode_lem c wc.1) at (decode-encode d c wd wc near)

-- One round of the loop on a whole codeword.
round :
    (json : Json) (own syn c : List ℕ) (owns : List (List ℕ)) (acc : List ℕ) (s s' : Session)
    (out : Result ((List ℕ × List ℕ) × Session))
    → exchange_syndrome json ecc_golay own s.role s ≡ ok (syn, s')
    → decode ecc_golay own syn ≡ ok c
    → reconcile_chunks json ecc_golay owns (acc ++ c) s' ≡ out
    → (exchange_syndrome json ecc_golay own s.role >>= λ x.
          lift (decode ecc_golay own x) >>= λ corrected.
          reconcile_chunks json ecc_golay owns (acc ++ corrected))
        s
      ≡ out
round json own syn c owns acc s s' out exchanged decoded later =
    >>=-ok (exchange_syndrome json ecc_golay own s.role)
      (λ x. lift (decode ecc_golay own x) >>= λ corrected.
        reconcile_chunks json ecc_golay owns (acc ++ corrected))
      s exchanged
    ∙ >>=-ok (lift (decode ecc_golay own syn))
        (λ corrected. reconcile_chunks json ecc_golay owns (acc ++ corrected)) s'
        (ap (λ r. lift r s') decoded)
    ∙ later

module _ (json : Json) (name : Text) (rest : List Message) where
  reconcile_leader :
      (cs : List (List ℕ)) (acc : List ℕ) (s : Session)
      → s.role ≡ leader
      → length s.name ≤ 16
      → AreClose cs cs
      → reconcile_chunks json ecc_golay cs acc (expects s (acks name cs ++ rest))
        ≡ ok ((left_over cs, acc ++ whole cs), expects (sent_all s (syndromes s.name cs)) rest)
  unfolding reconcile_chunks left_over whole acks syndromes sent_all
  reconcile_leader [] acc s role short close =
      ap (λ x. ok (([], x), expects s rest)) (sym (append-nil acc))
  reconcile_leader (c ∷ cs) acc s role short close = elim (Bool-cases (ltb (length c) 23)) [
    | inl piece ↦ rw piece (ap (λ x. ok ((c, x), expects s rest)) (sym (append-nil acc)))
    | inr full ↦
        let word : IsWord 23 c = (close.0.0, omega (arith, ltb→ge (length c) 23 full, close.0.3)) in
        let start = expects s (control bb84 name (ack true) ∷ (acks name cs ++ rest)) in
        let next = sent s (control bb84 s.name (syndrome_of c)) in
        rw full (
          round json c (syndrome h_golay c) c cs acc start (expects next (acks name cs ++ rest)) _
            (ap (λ r. exchange_syndrome json ecc_golay c r start) role
              ∙ leader_step json s short name (acks name cs ++ rest) c word)
            (decode_own c word)
            (reconcile_leader cs (acc ++ c) next role short close.1
              ∙ ap (λ x. ok ((left_over cs, x), expects (sent_all next (syndromes s.name cs)) rest))
                  (append_assoc acc c (whole cs))))
  ]

  reconcile_follower :
      (cs ds : List (List ℕ)) (acc : List ℕ) (s : Session)
      → s.role ≡ follower
      → length s.name ≤ 16
      → AreClose cs ds
      → reconcile_chunks json ecc_golay ds acc (expects s (syndromes name cs ++ rest))
        ≡ ok ((left_over ds, acc ++ whole cs), expects (sent_all s (acks s.name cs)) rest)
  unfolding reconcile_chunks left_over whole acks syndromes sent_all
  reconcile_follower [] [] acc s role short close =
      ap (λ x. ok (([], x), expects s rest)) (sym (append-nil acc))
  reconcile_follower [] (d ∷ ds) acc s role short close = absurd close
  reconcile_follower (c ∷ cs) [] acc s role short close = absurd close
  reconcile_follower (c ∷ cs) (d ∷ ds) acc s role short close =
      elim (Bool-cases (ltb (length c) 23)) [
        | inl piece ↦
            rw (piece, close.0.2, piece)
              (ap (λ x. ok ((d, x), expects s rest)) (sym (append-nil acc)))
        | inr full ↦
            let word : IsWord 23 c =
              (close.0.0, omega (arith, ltb→ge (length c) 23 full, close.0.3)) in
            let start =
              expects s (control bb84 name (syndrome_of c) ∷ (syndromes name cs ++ rest)) in
            let next = sent s (control bb84 s.name (ack true)) in
            rw (full, close.0.2, full)
              (round json d (syndrome h_golay c) c ds acc start
                (expects next (syndromes name cs ++ rest)) _
                (ap (λ r. exchange_syndrome json ecc_golay d r start) role
                  ∙ follower_step json s short name (syndromes name cs ++ rest) c d)
                (decode_close c d word (close.0.1, close.0.2 ∙ word.1)
                  (omega (arith, close.0.4, word.1)))
                (reconcile_follower cs ds (acc ++ c) next role short close.1
                  ∙ ap (λ x. ok ((left_over ds, x), expects (sent_all next (acks s.name cs)) rest))
                      (append_assoc acc c (whole cs))))
      ]

AreClose-self : (cs ds : List (List ℕ)) → AreClose cs ds → AreClose cs cs
AreClose-self [] [] h = tt
AreClose-self [] (d ∷ ds) h = absurd h
AreClose-self (c ∷ cs) [] h = absurd h
AreClose-self (c ∷ cs) (d ∷ ds) h =
    ((h.0.0, h.0.0, refl, h.0.3, inr (omega (arith, distance_self c))), AreClose-self cs ds h.1)

-- Reconciliation, the two parties, with names of at most 16 characters, run on each other's messages: the leader holds `x`, the follower
-- `y`, which differ in at most three places of each codeword. Each sends exactly what the other
-- waits for, so both end; both have reconciled the same bits, the leader's whole codewords; and
-- each keeps its own bits of the last, short piece.
pub reconcile_information_agrees :
    (json : Json) (lead follow : Session) (x y : List ℕ)
    → lead.role ≡ leader
    → follow.role ≡ follower
    → length lead.name ≤ 16
    → length follow.name ≤ 16
    → AreClose (chunk ecc_golay x) (chunk ecc_golay y)
    → lead.ctrl_msg_q ≡ acks follow.name (chunk ecc_golay x)
    → follow.ctrl_msg_q ≡ syndromes lead.name (chunk ecc_golay x)
    → (reconcile_information json ecc_golay x lead
        ≡ ok (
          (left_over (chunk ecc_golay x), whole (chunk ecc_golay x)),
          expects (sent_all lead (syndromes lead.name (chunk ecc_golay x))) [],
        ))
      × (reconcile_information json ecc_golay y follow
          ≡ ok (
            (left_over (chunk ecc_golay y), whole (chunk ecc_golay x)),
            expects (sent_all follow (acks follow.name (chunk ecc_golay x))) [],
          ))
unfolding reconcile_information
reconcile_information_agrees json lead follow x y leads follows short_l short_f close to_lead
      to_follow =
    let cs = chunk ecc_golay x in
    let ds = chunk ecc_golay y in
    (
      ap (λ q. reconcile_chunks json ecc_golay cs [] (expects lead q))
            (to_lead ∙ sym (append-nil (acks follow.name cs)))
          ∙ reconcile_leader json follow.name [] cs [] lead leads short_l
              (AreClose-self cs ds close),
      ap (λ q. reconcile_chunks json ecc_golay ds [] (expects follow q))
            (to_follow ∙ sym (append-nil (syndromes lead.name cs)))
          ∙ reconcile_follower json lead.name [] cs ds [] follow follows short_f close,
    )
