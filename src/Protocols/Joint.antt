-- ===== src/Protocols/Joint.antt =====
-- Two parties that run on each other's messages, one step after the other.
pub mod Local
use mathlib.Core.Path.{subst}
use qchat.Prelude.{
  ℕ, ◌≤◌, length, Error, append_assoc, append-nil, ◌≡◌, refl, ap, sym, ◌∙◌, List, [], ◌∷◌, ◌++◌,
  map, Result, ok, err, ok≢err, Result-cases, inl, inr,
}
use qchat.Value.{Bytes}
use qchat.Value.Utf8.{utf8_encode}
use qchat.Messages.{Message}
use qchat.Protocols.{Role, leader, follower, Session, Action, return, lift, ◌>>=◌, >>=-ok}
use qchat.Protocols.Messaging.{expects, sent, sent_all}

-- A session with more messages at the end of its queue.
abbrev pub more : Session → List Message → Session
more s rest = expects s (s.ctrl_msg_q ++ rest)

-- An action that succeeds takes its messages from the front of the queue: those that come later stay.
abbrev pub IsLocal : {A : Type 0} → Action A → Type 0
IsLocal {A} m =
    (s : Session) (rest : List Message) (a : A) (s' : Session)
    → m s ≡ ok (a, s')
    → m (more s rest) ≡ ok (a, more s' rest)

>>=-err :
    {A B : Type 0} (m : Action A) (f : A → Action B) (s : Session) (e : Error)
    → m s ≡ err e
    → (m >>= f) s ≡ err e
>>=-err m f s e h = rw (h, ◌>>=◌)

pub >>=-IsLocal :
    {A B : Type 0} (m : Action A) (f : A → Action B)
    → IsLocal m
    → ((a : A) → IsLocal (f a))
    → IsLocal (m >>= f)
>>=-IsLocal m f here later s rest b s' h = elim (Result-cases (m s)) [
  | inl (e, raised) ↦ absurd (ok≢err (sym h ∙ >>=-err m f s e raised))
  | inr ((a, s_1), ran) ↦
      >>=-ok m f (more s rest) (here s rest a s_1 ran)
      ∙ later a s_1 rest b s' (sym (>>=-ok m f s ran) ∙ h)
]

-- What a party has sent its peer, and that it is still the same party.
pub record Follows (s s' : Session) (out : List Message) : Type 0 where
  pub sends : s'.outbound_q ≡ s.outbound_q ++ map (λ m. (s.peer, m)) out
  pub same_peer : s'.peer ≡ s.peer
  pub same_name : s'.name ≡ s.name
  pub same_role : s'.role ≡ s.role

-- Two runs in which each party gets exactly the messages that the other one sends; `Q` holds of the
-- results and of the sessions after the runs.
pub record Both {A B : Type 0} (a : Action A) (b : Action B) (s t : Session)
    (Q : A → B → Session → Session → Type 0) : Type 0 where
  pub to_lead : List Message
  pub to_follow : List Message
  pub x : A
  pub y : B
  pub s' : Session
  pub t' : Session
  pub run_lead : a (expects s to_lead) ≡ ok (x, expects s' [])
  pub run_follow : b (expects t to_follow) ≡ ok (y, expects t' [])
  pub lead_follows : Follows s s' to_follow
  pub follow_follows : Follows t t' to_lead
  pub holds : Q x y s' t'

-- The first session is the leader's, the second the follower's; their names fit a message, and the
-- leader's is a text that can be encoded.
pub record Parties (s t : Session) : Type 0 where
  pub leads : s.role ≡ leader
  pub follows : t.role ≡ follower
  pub short_lead : length s.name ≤ 16
  pub short_follow : length t.name ≤ 16
  pub short_peer : length s.peer ≤ 16
  pub text_lead : (bs : Bytes) × (utf8_encode s.name ≡ ok bs)

pub Follows-Parties :
    {out_l out_f : List Message} (s t s' t' : Session)
    → Follows s s' out_l
    → Follows t t' out_f
    → Parties s t
    → Parties s' t'
Follows-Parties s t s' t' l f p = record {
  leads = l.same_role ∙ p.leads;
  follows = f.same_role ∙ p.follows;
  short_lead = rw l.same_name p.short_lead;
  short_follow = rw f.same_name p.short_follow;
  short_peer = rw l.same_peer p.short_peer;
  text_lead = rw l.same_name p.text_lead;
}

map-append : {A B : Type 0} (f : A → B) (l m : List A) → map f (l ++ m) ≡ map f l ++ map f m
map-append f [] m = refl
map-append f (a ∷ l) m = ap (λ r. f a ∷ r) (map-append f l m)

pub Follows-trans :
    (s s' s'' : Session) (out out' : List Message)
    → Follows s s' out
    → Follows s' s'' out'
    → Follows s s'' (out ++ out')
Follows-trans s s' s'' out out' h k = record {
  sends =
      k.sends
      ∙ ap (λ p. s'.outbound_q ++ map (λ m. (p, m)) out') h.same_peer
      ∙ ap (λ q. q ++ map (λ m. (s.peer, m)) out') h.sends
      ∙ append_assoc s.outbound_q (map (λ m. (s.peer, m)) out) (map (λ m. (s.peer, m)) out')
      ∙ ap (λ r. s.outbound_q ++ r) (sym (map-append (λ m. (s.peer, m)) out out'));
  same_peer = k.same_peer ∙ h.same_peer;
  same_name = k.same_name ∙ h.same_name;
  same_role = k.same_role ∙ h.same_role;
}

module _ {A B C D : Type 0} (a : Action A) (b : Action B) (f : A → Action C) (g : B → Action D)
    (s t : Session) (Q : A → B → Session → Session → Type 0)
    (R : C → D → Session → Session → Type 0) where
  -- One step of both parties, and then the next.
  pub both_then :
      IsLocal a
      → IsLocal b
      → Parties s t
      → Both a b s t Q
      → ((x : A) (y : B) (s' t' : Session) → Parties s' t' → Q x y s' t' → Both (f x) (g y) s' t' R)
      → Both (a >>= f) (b >>= g) s t R
  both_then local_a local_b p first next =
      let second =
        next first.x first.y first.s' first.t'
          (Follows-Parties s t first.s' first.t' first.lead_follows first.follow_follows p)
          first.holds in
      record {
        to_lead = first.to_lead ++ second.to_lead;
        to_follow = first.to_follow ++ second.to_follow;
        x = second.x;
        y = second.y;
        s' = second.s';
        t' = second.t';
        run_lead =
            >>=-ok a f (expects s (first.to_lead ++ second.to_lead)) (
              local_a (expects s first.to_lead) second.to_lead first.x (expects first.s' [])
                first.run_lead)
            ∙ second.run_lead;
        run_follow =
            >>=-ok b g (expects t (first.to_follow ++ second.to_follow)) (
              local_b (expects t first.to_follow) second.to_follow first.y (expects first.t' [])
                first.run_follow)
            ∙ second.run_follow;
        lead_follows =
            Follows-trans s first.s' second.s' first.to_follow second.to_follow first.lead_follows
              second.lead_follows;
        follow_follows =
            Follows-trans t first.t' second.t' first.to_lead second.to_lead first.follow_follows
              second.follow_follows;
        holds = second.holds;
      }

Follows-refl : (s : Session) → Follows s s []
Follows-refl s = record {
  sends = sym (append-nil s.outbound_q);
  same_peer = refl;
  same_name = refl;
  same_role = refl;
}

-- Steps without messages.
pub both_lift :
    {A B : Type 0} (r : Result A) (q : Result B) (x : A) (y : B) (s t : Session)
    (Q : A → B → Session → Session → Type 0)
    → r ≡ ok x
    → q ≡ ok y
    → Q x y s t
    → Both (lift r) (lift q) s t Q
both_lift r q x y s t Q e k holds = record {
  to_lead = [];
  to_follow = [];
  x = x;
  y = y;
  s' = s;
  t' = t;
  run_lead = ap (λ o. lift o (expects s [])) e;
  run_follow = ap (λ o. lift o (expects t [])) k;
  lead_follows = Follows-refl s;
  follow_follows = Follows-refl t;
  holds = holds;
}

pub both_return :
    {A B : Type 0} (x : A) (y : B) (s t : Session) (Q : A → B → Session → Session → Type 0)
    → Q x y s t
    → Both (return x) (return y) s t Q
both_return x y s t Q holds = both_lift (ok x) (ok y) x y s t Q refl refl holds

-- Steps that compute what is known.
pub both_known :
    {A B C D : Type 0} (r : Result A) (q : Result B) (x : A) (y : B) (f : A → Action C)
    (g : B → Action D) (s t : Session) (R : C → D → Session → Session → Type 0)
    → r ≡ ok x
    → q ≡ ok y
    → Both (f x) (g y) s t R
    → Both (lift r >>= f) (lift q >>= g) s t R
both_known r q x y f g s t R e k h =
    subst (λ o. Both (lift o >>= f) (lift q >>= g) s t R) (sym e)
      (subst (λ o. Both (lift (ok x) >>= f) (lift o >>= g) s t R) (sym k) h)

-- A party after it has sent messages.
pub sent_all-Follows :
    (s : Session) (q ms : List Message)
    → Follows s (sent_all (expects s q) ms) ms × ((sent_all (expects s q) ms).randoms ≡ s.randoms)
unfolding sent_all
sent_all-Follows s q [] = (
  record {
    sends = sym (append-nil s.outbound_q);
    same_peer = refl;
    same_name = refl;
    same_role = refl;
  },
  refl,
)
sent_all-Follows s q (m ∷ ms) =
    let (rest, same) = sent_all-Follows (sent s m) q ms in
    (
      record {
        sends =
            rest.sends ∙ append_assoc s.outbound_q ((s.peer, m) ∷ []) (map (λ m. (s.peer, m)) ms);
        same_peer = rest.same_peer;
        same_name = rest.same_name;
        same_role = rest.same_role;
      },
      same,
    )

-- A party that draws numbers and then sends messages.
pub drawn_then_sent :
    (s : Session) (ns : List ℕ) (ms : List Message)
    → Follows s (sent_all (record s { randoms = ns }) ms) ms
      × ((sent_all (record s { randoms = ns }) ms).randoms ≡ ns)
drawn_then_sent s ns ms =
    let (f, same) = sent_all-Follows (record s { randoms = ns }) s.ctrl_msg_q ms in
    (
      record {
        sends = f.sends;
        same_peer = f.same_peer;
        same_name = f.same_name;
        same_role = f.same_role;
      },
      same,
    )
