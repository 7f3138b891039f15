-- ===== src/Protocols/Bb84/Amplify.antt =====
-- Privacy amplification, run by both parties on each other's messages.
use qchat.Prelude.{
  ℕ, ◌+◌, ◌*◌, ◌/◌, ◌%◌, ◌≤◌, ◌<◌, ◌≡◌, ap, ◌∙◌, Bool, true, false, List, [], ◌∷◌, ◌++◌, map,
  length, ok, arith, nat_beq, if◌then◌else◌,
}
use qchat.Value.{Text, int, pos, Fields, end, field, codes}
use qchat.Value.Words.{to_bytes_two, to_bytes_one}
use qchat.Messages.{Json, bb84}
use qchat.Protocols.{leader, follower, Session, ◌>>=◌, item, truthy, get_role, randint}
use qchat.Protocols.Messaging.{control, expects, sent, exchange_lem, send_lem, wait_lem}
use qchat.Protocols.Bb84.{ack, byte_at, factor, equals, answer, amplify_as, amplify_privacy}

-- The tag of two bytes under a seed, and the byte that is extracted.
abbrev pub tag : ℕ → ℕ → ℕ → ℕ
tag y a b = y * a % 256 + b

abbrev pub seed_and_tag : ℕ → ℕ → Fields
seed_and_tag y t = field (codes "Y") (int (pos y)) (field (codes "T") (int (pos t)) end)

product_fits : (y a : ℕ) → y < 256 → a < 256 → y * a < 65536
product_fits y a hy ha = grind arith

module _ (json : Json) (s : Session) (short : length s.name ≤ 16) (name : Text) (y : ℕ)
    (small : y < 256) where
  amplify_leader :
      (a b : ℕ) (ns : List ℕ) (fits : Bool)
      → a < 256
      → amplify_as json leader
          (a ∷ b ∷ [])
          (record s { ctrl_msg_q = control bb84 name (ack fits) ∷ []; randoms = y ∷ ns })
        ≡ ok (
          if fits then (y * a / 256) ∷ [] else [],
          record s {
            ctrl_msg_q = [];
            outbound_q =
                s.outbound_q ++ (s.peer, control bb84 s.name (seed_and_tag y (tag y a b))) ∷ [];
            randoms = ns;
          },
        )
  unfolding amplify_as randint byte_at item truthy
  amplify_leader a b ns true ha =
      let high : y * a / 256 < 256 = omega (arith, product_fits y a small ha) in
      rw (to_bytes_two (y * a) (product_fits y a small ha)) (
        rw
          (
            exchange_lem json bb84 (seed_and_tag y (tag y a b)) (ack true)
                (record s { randoms = ns }) name [] short,
            ◌>>=◌,
          )
          (rw (to_bytes_one (y * a / 256) high)))
  amplify_leader a b ns false ha = rw (to_bytes_two (y * a) (product_fits y a small ha)) (
      rw (
        exchange_lem json bb84 (seed_and_tag y (tag y a b)) (ack false) (record s { randoms = ns })
            name [] short,
        ◌>>=◌,
      ))

  answer_lem :
      (fits : Bool) (r : ℕ)
      → r < 256
      → answer json fits r (expects s [])
        ≡ ok (if fits then r ∷ [] else [], expects (sent s (control bb84 s.name (ack fits))) [])
  unfolding answer
  answer_lem true r h =
      rw (send_lem json bb84 (ack true) (expects s []) short, ◌>>=◌) (rw (to_bytes_one r h))
  answer_lem false r h = rw (send_lem json bb84 (ack false) (expects s []) short, ◌>>=◌)

  amplify_follower :
      (a b t : ℕ)
      → a < 256
      → amplify_as json follower
          (a ∷ b ∷ [])
          (expects s (control bb84 name (seed_and_tag y t) ∷ []))
        ≡ ok (
          if nat_beq (b + y * a % 256) t then (y * a / 256) ∷ [] else [],
          expects (sent s (control bb84 s.name (ack (nat_beq (b + y * a % 256) t)))) [],
        )
  unfolding amplify_as byte_at item factor equals
  amplify_follower a b t ha =
      rw (wait_lem json bb84 (seed_and_tag y t) s name [], ◌>>=◌)
        (rw (to_bytes_two (y * a) (product_fits y a small ha)) (
          answer_lem (nat_beq (b + y * a % 256) t) (y * a / 256)
            (omega (arith, product_fits y a small ha))))

-- Privacy amplification, the two parties, with names of at most 16 characters, run on each other's messages: the leader holds the bytes
-- `a b`, the follower `c d`, and the leader's seed is `y`. Each sends exactly what the other waits
-- for. If the follower finds the leader's tag on its own bytes, both return one byte, the high
-- byte of the product of the seed with the party's first byte; else both return none, so the two
-- keys always keep one length.
pub amplify_privacy_agrees :
    (json : Json) (lead follow : Session) (a b c d y : ℕ) (ns : List ℕ)
    → lead.role ≡ leader
    → follow.role ≡ follower
    → length lead.name ≤ 16
    → length follow.name ≤ 16
    → a < 256
    → c < 256
    → y < 256
    → let fits = nat_beq (tag y c d) (tag y a b) in
      let to_lead = control bb84 follow.name (ack fits) ∷ [] in
      let to_follow = control bb84 lead.name (seed_and_tag y (tag y a b)) ∷ [] in
      (amplify_privacy json (a ∷ b ∷ []) (record lead { ctrl_msg_q = to_lead; randoms = y ∷ ns })
        ≡ ok (
          if fits then (y * a / 256) ∷ [] else [],
          record lead {
            ctrl_msg_q = [];
            outbound_q = lead.outbound_q ++ map (λ m. (lead.peer, m)) to_follow;
            randoms = ns;
          },
        ))
      × (amplify_privacy json (c ∷ d ∷ []) (record follow { ctrl_msg_q = to_follow })
          ≡ ok (
            if fits then (y * c / 256) ∷ [] else [],
            record follow {
              ctrl_msg_q = [];
              outbound_q = follow.outbound_q ++ map (λ m. (follow.peer, m)) to_lead;
            },
          ))
unfolding amplify_privacy get_role
amplify_privacy_agrees json lead follow a b c d y ns leads follows short_l short_f ha hc hy =
    let t = tag y a b in
    let fits = nat_beq (tag y c d) t in
    let sum : d + y * c % 256 ≡ tag y c d = omega arith in
    (
      ap
            (λ r. amplify_as json r (a ∷ b ∷ []) (record lead {
              ctrl_msg_q = control bb84 follow.name (ack fits) ∷ [];
              randoms = y ∷ ns;
            }))
            leads
          ∙ amplify_leader json lead short_l follow.name y hy a b ns fits ha,
      ap
            (λ r.
              amplify_as json r (c ∷ d ∷ [])
                (expects follow (control bb84 lead.name (seed_and_tag y t) ∷ [])))
            follows
          ∙ amplify_follower json follow short_f lead.name y hy c d t hc
          ∙ ap
              (λ n. ok (
                if nat_beq n t then (y * c / 256) ∷ [] else [],
                expects (sent follow (control bb84 follow.name (ack (nat_beq n t)))) [],
              ))
              sum,
    )
