-- ===== src/Protocols/Messaging.antt =====
-- Two parties exchange a message each: what both sessions are afterwards.
use qchat.Prelude.{
  ◌≤◌, ◌≡◌, refl, ◌∙◌, true, List, [], ◌∷◌, ◌++◌, length, ok, le→ltb, nat_eq, list_eq,
  list_beq_self,
}
use qchat.Value.{Text, dict, Fields}
use qchat.Messages.{Json, Kind, header, Message, init_message, unpack_message_data}
use qchat.Protocols.{
  Role, leader, follower, Session, >>=-ok, return, ◌>>=◌, get_role, is_instance,
  wait_for_control_message, send_control_message, exchange_as, exchange_messages,
}

-- The control message that a party of the given name sends.
abbrev pub control : Kind → Text → Fields → Message
control kind name d = record { kind = kind; sender = name; message_data = dict d }

-- A party with a message still to come, and after it has received it and sent one.
abbrev pub expects : Session → List Message → Session
expects s inbox = record s { ctrl_msg_q = inbox }

abbrev pub sent : Session → Message → Session
sent s m = record s { outbound_q = s.outbound_q ++ (s.peer, m) ∷ [] }

-- A session after its party has sent the messages.
unfoldable pub sent_all : Session → List Message → Session
sent_all s [] = s
sent_all s (m ∷ ms) = sent_all (sent s m) ms

is_instance_self :
    (kind : Kind) (name : Text) (d : Fields) → is_instance (control kind name d) kind ≡ true
unfolding is_instance
is_instance_self Kind.mssg name d = refl
is_instance_self kind name d = list_beq_self (header kind)

module _ (json : Json) (kind : Kind) (d : Fields) where
  pub send_lem :
      (s : Session)
      → length s.name ≤ 16
      → send_control_message json d kind s ≡ ok (tt, sent s (control kind s.name d))
  unfolding send_control_message init_message unpack_message_data
  send_lem s short = rw (le→ltb 16 (length s.name) short, send_control_message)

  pub wait_lem :
      (s : Session) (name : Text) (rest : List Message)
      → wait_for_control_message kind (expects s (control kind name d ∷ rest))
        ≡ ok (control kind name d, expects s rest)
  unfolding wait_for_control_message
  wait_lem s name rest = rw (is_instance_self kind name d, wait_for_control_message)

module _ (json : Json) (kind : Kind) (mine theirs : Fields) (s : Session) (name : Text)
    (rest : List Message) (short : length s.name ≤ 16) where
  exchange_as_lem :
      (r : Role)
      → exchange_as json r mine kind (expects s (control kind name theirs ∷ rest))
        ≡ ok (control kind name theirs, expects (sent s (control kind s.name mine)) rest)
  unfolding exchange_as
  exchange_as_lem leader =
      >>=-ok (send_control_message json mine kind) (λ _. wait_for_control_message kind)
        (expects s (control kind name theirs ∷ rest))
        (send_lem json kind mine (expects s (control kind name theirs ∷ rest)) short)
      ∙ wait_lem json kind theirs (sent s (control kind s.name mine)) name rest
  exchange_as_lem follower =
      >>=-ok (wait_for_control_message kind)
        (λ m. send_control_message json mine kind >>= λ _. return m)
        (expects s (control kind name theirs ∷ rest)) (wait_lem json kind theirs s name rest)
      ∙ >>=-ok (send_control_message json mine kind) (λ _. return (control kind name theirs))
          (expects s rest) (send_lem json kind mine (expects s rest) short)

  -- An exchange succeeds when the peer's message is the next to come: it leaves the queue, and the
  -- party's own message goes out; the role decides the order only.
  pub exchange_lem :
      exchange_messages json mine kind (expects s (control kind name theirs ∷ rest))
      ≡ ok (control kind name theirs, expects (sent s (control kind s.name mine)) rest)
  unfolding exchange_messages get_role
  exchange_lem = exchange_as_lem s.role
