-- ===== src/Protocols.antt =====
-- qchat/protocols.py: a party of a protocol, its control messages, and the signalling of a key
-- protocol. A method runs on the party's session: the control messages that its peer sends, in
-- order, what it has put on the outbound queue, and the numbers that `random.randint` will return.
-- An exception ends the protocol. A party that waits with no message left to come times out.
pub mod Messaging
pub mod Bb84
pub mod Factory
pub mod Joint
pub mod SuperDense
pub mod Diqkd
use qchat.Prelude.{
  ℕ, ◌≡◌, refl, Bool, true, false, not, ◌||◌, List, [], ◌∷◌, ◌++◌, map, Result, ok, err,
  protocol_exception, type_error, index_error, key_error, ◌==◌, nat_eq, list_eq, if◌then◌else◌,
}
use qchat.Value.{
  Text, Bytes, Value, null, bool, int, str, bytes, arr, dict, pos, negsuc, Items, nil, cons, Fields,
  end, field, codes, subscript,
}
use qchat.Messages.{Json, Kind, mssg, ptcl, header, Message, init_message, fields}

-- `LEADER_ROLE` and `FOLLOW_ROLE`
pub data Role : Type 0 where
  leader follower : Role

pub record Session : Type 0 where
  pub role : Role
  -- `self.connection.name`
  pub name : Text
  -- `self.peer_info["user"]`
  pub peer : Text
  pub ctrl_msg_q : List Message
  pub outbound_q : List (Text × Message)
  pub randoms : List ℕ

abbrev pub Action : Type 0 → Type 0
Action A = Session → Result (A × Session)

abbrev pub return : {A : Type 0} → A → Action A
return a s = ok (a, s)

abbrev pub lift : {A : Type 0} → Result A → Action A
lift (ok a) s = ok (a, s)
lift (err e) s = err e

infixl 5 ◌>>=◌ ◌>>◌
abbrev pub ◌>>=◌ : {A B : Type 0} → Action A → (A → Action B) → Action B
◌>>=◌ m f s = elim (m s) [ err e ↦ err e | ok (a, s') ↦ f a s' ]

abbrev pub ◌>>◌ : {A B : Type 0} → Action A → Action B → Action B
m >> k = m >>= λ _. k

-- A step that succeeds hands on its value and the session after it.
pub >>=-ok :
    {A B : Type 0} {s' : Session} {a : A} (m : Action A) (f : A → Action B) (s : Session)
    → m s ≡ ok (a, s')
    → (m >>= f) s ≡ f a s'
>>=-ok m f s h = rw (h, ◌>>=◌)

-- `if failed: raise ProtocolException(...)`
abbrev pub abort_if : Bool → Action (Unit {0})
abort_if true s = err protocol_exception
abort_if false s = ok (tt, s)

-- `d[k]` of a value that should be a dict
unfoldable pub item : Text → Value → Result Value
unfolding subscript
item k (dict d) = subscript k d
item k v = err type_error

-- The test of a value under `if`.
unfoldable pub truthy : Value → Bool
truthy null = false
truthy (bool b) = b
truthy (int (pos n)) = not (n == 0)
truthy (int (negsuc n)) = true
truthy (str t) = not (t == [])
truthy (bytes bs) = not (bs == [])
truthy (arr nil) = false
truthy (arr (cons v vs)) = true
truthy (dict end) = false
truthy (dict (field k v d)) = true

-- `isinstance(message, message_type)`; the classes are told apart by their headers.
unfoldable pub is_instance : Message → Kind → Bool
unfolding header
is_instance m mssg = true
is_instance m k = header m.kind == header k

-- `random.randint`, from the session's numbers
unfoldable pub randint : Action ℕ
randint s = elim s.randoms [ [] ↦ err index_error | n ∷ ns ↦ ok (n, record s { randoms = ns }) ]

unfoldable pub get_role : Action Role
get_role s = ok (s.role, s)

unfoldable pub wait_for_control_message : Kind → Action Message
unfolding is_instance
wait_for_control_message message_type s = elim s.ctrl_msg_q [
  | [] ↦ err protocol_exception
  | message ∷ rest ↦
      if is_instance message message_type
      then ok (message, record s { ctrl_msg_q = rest })
      else err protocol_exception
]

-- A list of numbers, as JSON holds it.
unfoldable pub ints : List ℕ → Items
ints [] = nil
ints (n ∷ ns) = cons (int (pos n)) (ints ns)

-- `v == "ACK"`
unfoldable pub is_ack : Value → Bool
is_ack (str t) = t == codes "ACK"
is_ack v = false

module _ (json : Json) where
  unfoldable pub send_control_message : Fields → Kind → Action (Unit {0})
  send_control_message message_data message_type s =
      elim (init_message json message_type s.name (fields message_data)) [
        | err e ↦ err e
        | ok message ↦ ok (tt, record s { outbound_q = s.outbound_q ++ (s.peer, message) ∷ [] })
      ]

  unfoldable pub exchange_as : Role → Fields → Kind → Action Message
  unfolding send_control_message wait_for_control_message
  exchange_as leader message_data message_type = do
    send_control_message message_data message_type
    wait_for_control_message message_type
  exchange_as follower message_data message_type = do
    m ← wait_for_control_message message_type
    send_control_message message_data message_type
    return m

  unfoldable pub exchange_messages : Fields → Kind → Action Message
  unfolding exchange_as get_role
  exchange_messages message_data message_type = do
    role ← get_role
    exchange_as role message_data message_type

  -- `QChatKeyProtocol`, for the protocol of the given name and message class
  unfoldable pub lead_protocol : Text → ℕ → Kind → Action (Unit {0})
  unfolding send_control_message wait_for_control_message is_ack
  lead_protocol name key_size message_type = do
    send_control_message
        (field (codes "name") (str name) (field (codes "key_size") (int (pos key_size)) end)) ptcl
    response ← wait_for_control_message message_type
    ack ← lift (item (codes "ACK") response.message_data)
    abort_if (not (is_ack ack))

  unfoldable pub follow_protocol : Kind → Action (Unit {0})
  unfolding send_control_message
  follow_protocol message_type =
      send_control_message (field (codes "ACK") (str (codes "ACK")) end) message_type

  unfoldable pub end_protocol : Kind → Action (Unit {0})
  unfolding exchange_messages
  end_protocol message_type = do
    m ← exchange_messages (field (codes "FIN") (bool true) end) message_type
    fin ← lift (item (codes "FIN") m.message_data)
    abort_if (not (truthy fin))
