-- ===== src/Protocols/Joint/Local.antt =====
-- The actions of a protocol take their messages from the front of the queue.
use qchat.Prelude.{
  index_error, protocol_exception, ℕ, ◌≡◌, ap, sym, Bool, true, false, List, [], ◌∷◌, ◌++◌, Result,
  ok, err, ok≢err, ok-injective, Bool-cases, inl, inr, if◌then◌else◌,
}
use qchat.Value.{Fields}
use qchat.Messages.{Json, Kind, Message, fields, init_message}
use qchat.Protocols.{
  Role, leader, follower, Session, Action, return, lift, ◌>>◌, abort_if, is_instance, randint,
  get_role, wait_for_control_message, send_control_message, exchange_as, exchange_messages,
}
use qchat.Protocols.Messaging.{expects}
use qchat.Protocols.Joint.{IsLocal, more, >>=-IsLocal}

-- What is returned, and the session, under one equation.
moved :
    {A : Type 0} (a b : A) (s s' : Session) (rest : List Message)
    → return a s ≡ return b s'
    → return a (more s rest) ≡ return b (more s' rest)
moved a b s s' rest h = ap (λ r. return r.0 (more r.1 rest)) (ok-injective h)

pub lift-IsLocal : {A : Type 0} (r : Result A) → IsLocal (lift r)
lift-IsLocal (ok a) s rest b s' h = moved a b s s' rest h
lift-IsLocal (err e) s rest b s' h = absurd (ok≢err (sym h))

pub return-IsLocal : {A : Type 0} (a : A) → IsLocal (return a)
return-IsLocal a = lift-IsLocal (ok a)

pub abort_if-IsLocal : (b : Bool) → IsLocal (abort_if b)
abort_if-IsLocal true s rest b s' h = absurd (ok≢err (sym h))
abort_if-IsLocal false s rest b s' h = moved tt b s s' rest h

pub if-IsLocal :
    {A : Type 0} (c : Bool) (m n : Action A) → IsLocal m → IsLocal n → IsLocal (if c then m else n)
if-IsLocal true m n lm ln = lm
if-IsLocal false m n lm ln = ln

pub get_role-IsLocal : IsLocal get_role
unfolding get_role
get_role-IsLocal s rest b s' h = moved s.role b s s' rest h

pub randint-IsLocal : IsLocal randint
unfolding randint
randint-IsLocal s rest b s' h = numbers s.randoms h
  where
    numbers :
        (ns : List ℕ)
        → elim ns as (λ _. Result (ℕ × Session)) [
          | [] ↦ err index_error
          | n ∷ ns ↦ ok (n, record s { randoms = ns })
        ]
          ≡ ok (b, s')
        → elim ns as (λ _. Result (ℕ × Session)) [
          | [] ↦ err index_error
          | n ∷ ns ↦ ok (n, record (more s rest) { randoms = ns })
        ]
          ≡ ok (b, more s' rest)
    numbers [] h = absurd (ok≢err (sym h))
    numbers (n ∷ ns) h = moved n b (record s { randoms = ns }) s' rest h

abbrev take_first : Kind → Session → List Message → Result (Message × Session)
take_first kind s [] = err protocol_exception
take_first kind s (m ∷ q) =
    if is_instance m kind then ok (m, record s { ctrl_msg_q = q }) else err protocol_exception

take_first-more :
    (kind : Kind) (s s' : Session) (rest q : List Message) (b : Message)
    → take_first kind s q ≡ ok (b, s')
    → take_first kind (more s rest) (q ++ rest) ≡ ok (b, more s' rest)
take_first-more kind s s' rest [] b h = absurd (ok≢err (sym h))
take_first-more kind s s' rest (m ∷ q) b h = elim (Bool-cases (is_instance m kind)) [
  | inl fits ↦ rw fits (moved m b (expects s q) s' rest (rw fits at h))
  | inr bad ↦ absurd (ok≢err (sym (rw bad at h)))
]

pub wait-IsLocal : (kind : Kind) → IsLocal (wait_for_control_message kind)
unfolding wait_for_control_message
wait-IsLocal kind s rest b s' h = take_first-more kind s s' rest s.ctrl_msg_q b h

abbrev put_out : Session → Result Message → Result (Unit {0} × Session)
put_out s (err e) = err e
put_out s (ok m) = ok (tt, record s { outbound_q = s.outbound_q ++ (s.peer, m) ∷ [] })

put_out-more :
    (s s' : Session) (rest : List Message) (o : Result Message) (b : Unit {0})
    → put_out s o ≡ ok (b, s')
    → put_out (more s rest) o ≡ ok (b, more s' rest)
put_out-more s s' rest (err e) b h = absurd (ok≢err (sym h))
put_out-more s s' rest (ok m) b h =
    moved tt b (record s { outbound_q = s.outbound_q ++ (s.peer, m) ∷ [] }) s' rest h

module _ (json : Json) where
  pub send-IsLocal : (d : Fields) (kind : Kind) → IsLocal (send_control_message json d kind)
  unfolding send_control_message
  send-IsLocal d kind s rest b s' h =
      put_out-more s s' rest (init_message json kind s.name (fields d)) b h

  exchange_as-IsLocal : (r : Role) (d : Fields) (kind : Kind) → IsLocal (exchange_as json r d kind)
  unfolding exchange_as
  exchange_as-IsLocal leader d kind =
      >>=-IsLocal (send_control_message json d kind) (λ _. wait_for_control_message kind)
        (send-IsLocal d kind) λ _. wait-IsLocal kind
  exchange_as-IsLocal follower d kind =
      >>=-IsLocal (wait_for_control_message kind)
        (λ m. send_control_message json d kind >> return m) (wait-IsLocal kind)
        λ m.
          >>=-IsLocal (send_control_message json d kind) (λ _. return m) (send-IsLocal d kind)
            λ _. return-IsLocal m

  pub exchange-IsLocal : (d : Fields) (kind : Kind) → IsLocal (exchange_messages json d kind)
  unfolding exchange_messages
  exchange-IsLocal d kind =
      >>=-IsLocal get_role (λ r. exchange_as json r d kind) get_role-IsLocal
        λ r. exchange_as-IsLocal r d kind
