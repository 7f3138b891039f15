-- ===== src/Client/Keys.antt =====
-- qchat/protocols.py and qchat/client.py: protocol objects for keys as a client makes and runs them on
-- its node. The object reads the control queue of its peer and writes the node's outbound queue.
pub mod Runs
pub mod Agreement
pub mod Chat
mod Tests
use qchat.Prelude.{
  ℕ, List, [], ◌∷◌, ◌++◌, Result, ok, err, type_error, attribute_error, nat_eq, list_eq,
}
use qchat.Prelude.Dict.{insert}
use qchat.Value.{Text, Bytes, Value, ℤ, pos, int, dict, Fields, codes}
use qchat.Messages.{Json, Kind, bb84, dqkd, spds, Message}
use qchat.Ecc.{Ecc}
use qchat.Db.{user_key}
use qchat.Protocols.{Role, leader, follower, Session, Action, lead_protocol}
use qchat.Protocols as Base
use qchat.Protocols.Factory.{ProtocolClass, bb84_purified, diqkd, super_dense_coding, protocol_name}
use qchat.Protocols.Bb84.Execute.{run}
use qchat.Prelude
use qchat.Device.{Cqc, Relay}
use qchat.Device.Outcomes.{receive_bb84_states}
use qchat.Protocols.Bb84.{distill_tested_data}
use qchat.Protocols.Diqkd.Execute.{distill_over_devices}
use qchat.Core.{
  host_key, port_key, Node, Handler, lift, raise, ◌>>=◌, ◌>>◌, get_node, item, name_of,
  take_keyword, no_more_keywords,
}
use qchat.Core.Process.{queue_of}
use qchat.Client.{Protocols}

-- `message_type` of the classes
unfoldable pub message_type : ProtocolClass → Kind
message_type bb84_purified = bb84
message_type diqkd = dqkd
message_type super_dense_coding = spds

-- What an object meets while it runs: the messages that come from its peer, the numbers that it will
-- draw, the CQC library with how often a device asks it for a qubit, and the order in which Python goes
-- through a set; and the fuel of its loops.
pub record World : Type 1 where
  pub coming : List Message
  pub randoms : List ℕ
  pub cqc : Cqc
  pub attempts : ℕ
  pub iterate_set : List ℕ → List ℕ
  pub fuel : ℕ

-- An object of the class, with its device.
pub record KeyProtocol : Type 0 where
  pub class : ProtocolClass
  pub key_size : ℕ
  pub device : Relay
  pub session : Session

-- The size of a key; the objects here have sizes that are natural numbers.
unfoldable pub size_of : Value → Result ℕ
size_of (int (pos n)) = ok n
size_of v = err type_error

-- A step of the object: what it has put on the outbound queue, and what it has left of its peer's
-- control queue, are the node's; what it has sent before it raises is not kept.
unfoldable pub on_node : {A : Type 0} → Action A → Session → Handler (A × Session)
unfolding insert
on_node m p s = elim (m p) [
  | err e ↦ (err e, s)
  | ok (a, session) ↦ (
    ok (a, session),
    record s {
      outbound_queue = session.outbound_q;
      control_message_queue = insert session.peer session.ctrl_msg_q s.control_message_queue;
    },
  )
]

module _ (json : Json) (ecc : Ecc) (world : World) where
  -- What `QChatProtocol.__init__` stores, with `self.control_message_queue[user]` as its control queue.
  unfoldable pub new_session : Role → Text → Node → Session
  unfolding queue_of
  new_session role peer node = record {
    role = role;
    name = node.name;
    peer = peer;
    ctrl_msg_q = queue_of peer node.control_message_queue ++ world.coming;
    outbound_q = node.outbound_queue;
    randoms = world.randoms;
  }

  -- `LeadDevice(self.connection, self.relay_info)` and `FollowDevice(...)`
  unfoldable pub new_device : Value → Result Relay
  unfolding item
  new_device relay_info = Prelude.◌>>=◌ (item host_key relay_info) (λ host.
      Prelude.◌>>=◌ (item port_key relay_info)
        (λ port. ok (record { relay_host = host; relay_port = port; attempts = world.attempts })))

  -- The preliminary steps of `QChatProtocol.__init__`: the device, and the role's part of the hand shake.
  unfoldable pub hand_shake : Role → ProtocolClass → ℕ → Value → Action Relay
  unfolding lead_protocol qchat.Protocols.follow_protocol protocol_name message_type new_device
  hand_shake leader c key_size relay_info =
      Base.◌>>=◌ (Base.lift (new_device relay_info)) (λ device.
        Base.◌>>=◌ (lead_protocol json (protocol_name c) key_size (message_type c))
          (λ u. Base.return device))
  hand_shake follower c key_size relay_info =
      Base.◌>>=◌ (Base.lift (new_device relay_info)) (λ device.
        Base.◌>>=◌ (Base.follow_protocol json (message_type c)) (λ u. Base.return device))

  -- The constructor of a key protocol.
  unfoldable pub new_key_protocol : ProtocolClass → Role → Fields → Fields → Handler KeyProtocol
  unfolding take_keyword no_more_keywords size_of item name_of new_session hand_shake on_node
  new_key_protocol c role kwargs peer_info = do
    (size, rest) ← lift (take_keyword (codes "key_size") kwargs)
    lift (no_more_keywords rest)
    key_size ← lift (size_of size)
    user ← lift (item user_key (dict peer_info))
    peer ← lift (name_of user)
    node ← get_node
    (device, session) ←
        on_node (hand_shake role c key_size node.root_config) (new_session role peer node)
    λ s. (ok (record { class = c; key_size = key_size; device = device; session = session }), s)

  -- A protocol object of one of the key protocols; no object of `SuperDenseCoding` is made here.
  unfoldable pub start : ProtocolClass → Role → Fields → Fields → Handler KeyProtocol
  unfolding new_key_protocol
  start super_dense_coding role kwargs peer_info = raise attribute_error
  start c role kwargs peer_info = new_key_protocol c role kwargs peer_info

  -- How the class gets bits over the device.
  unfoldable pub distill_of : ProtocolClass → Relay → Action (List ℕ)
  unfolding distill_tested_data receive_bb84_states distill_over_devices
  distill_of bb84_purified device =
      distill_tested_data json (receive_bb84_states json world.cqc device)
  distill_of diqkd device = distill_over_devices json world.iterate_set world.cqc device
  distill_of super_dense_coding device = λ s. err attribute_error

  -- `p.execute()`
  unfoldable pub execute_key : KeyProtocol → Handler Bytes
  unfolding run message_type on_node distill_of
  execute_key p = do
    (key, session) ←
        on_node
          (run json (message_type p.class) (distill_of p.class p.device) ecc world.fuel p.key_size)
          p.session
    λ s. (ok key, s)

  -- The key protocols, which have no `send_message` and no `receive_message`.
  abbrev pub key_protocols : Protocols
  key_protocols = record {
    Protocol = KeyProtocol;
    start = start;
    execute = execute_key;
    send_message = λ p message. raise attribute_error;
    receive_message = λ p. raise attribute_error;
  }
