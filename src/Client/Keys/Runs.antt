-- ===== src/Client/Keys/Runs.antt =====
-- One client's run of a key protocol: the hand shake, the run on the node, and the key that is stored.
use qchat.Prelude.{
  ℕ, ◌+◌, ◌*◌, ◌≤◌, ◌≡◌, refl, ap, sym, ◌∙◌, not, true, Bool, List, [], ◌∷◌, ◌++◌, map, length,
  append_assoc, Option, none, some, Result, ok, err, arith, nat_eq, list_eq, ◌==◌, ==_self,
  if◌then◌else◌,
}
use qchat.Prelude.Dict.{insert}
use qchat.Value.{
  Text, Bytes, Value, pos, int, str, bytes, dict, Fields, end, field, codes, get, put, update,
  get-put,
}
use qchat.Messages.{Json, ptcl, bb84, Message}
use qchat.Ecc.Correct.{ecc_golay}
use qchat.Db.{
  UserDb, user_key, message_key, has_user, known_info, get_or_null, get_connection_info,
  get_message_key, info_or_new, change_user_info,
}
use qchat.Db.Records.{get_user-change_user_info}
use qchat.Protocols.{
  Role, leader, follower, Session, Action, >>=-ok, wait_for_control_message, send_control_message,
  lead_protocol,
}
use qchat.Protocols as Base
use qchat.Protocols.Messaging.{control, expects, sent, send_lem, wait_lem}
use qchat.Protocols.Factory.{bb84_purified, protocol_name}
use qchat.Protocols.Bb84.Execute.{run}
use qchat.Core.{Node, Handler, >>=-returns, item}
use qchat.Device.{Relay}
use qchat.Core.{host_key, port_key}
use qchat.Core.Process.{queue_of}
use qchat.Client.{info_of_peer, store_key, establish_key, follow_protocol}
use qchat.Client.Keys.{
  World, KeyProtocol, on_node, new_session, hand_shake, new_device, distill_of, new_key_protocol,
  start, execute_key, key_protocols,
}

-- The leader's request, and the follower's answer.
abbrev pub request : Text → ℕ → Message
request name key_size = control ptcl name (
    field (codes "name") (str (codes "BB84_PURIFIED"))
      (field (codes "key_size") (int (pos key_size)) end))

abbrev pub answer : Text → Message
answer name = control bb84 name (field (codes "ACK") (str (codes "ACK")) end)

lead_protocol_lem :
    (json : Json) (key_size : ℕ) (peer : Text) (rest : List Message) (s : Session)
    → length s.name ≤ 16
    → lead_protocol json (codes "BB84_PURIFIED") key_size bb84 (expects s (answer peer ∷ rest))
      ≡ ok (tt, expects (sent s (request s.name key_size)) rest)
unfolding lead_protocol qchat.Protocols.item qchat.Protocols.is_ack qchat.Value.subscript
lead_protocol_lem json key_size peer rest s short =
    >>=-ok (send_control_message json _ ptcl) _ (expects s (answer peer ∷ rest))
      (send_lem json ptcl _ (expects s (answer peer ∷ rest)) short)
    ∙ >>=-ok (wait_for_control_message bb84)
        (λ response.
          Base.◌>>=◌ (Base.lift (Base.item (codes "ACK") response.message_data))
            (λ ack. Base.abort_if (not (Base.is_ack ack))))
        (sent (expects s (answer peer ∷ rest)) (request s.name key_size))
        (wait_lem json bb84 _ (sent s (request s.name key_size)) peer rest)

known_put : (k : Text) (v : Value) (d : Fields) → known_info (some (put k v d)) ≡ ok (put k v d)
unfolding put known_info
known_put k v end = refl
known_put k v (field j w d) = ground arith

-- A key that is stored is the key that is found.
pub get_message_key-change :
    (user : Text) (key : Bytes) (db : UserDb)
    → has_user user db ≡ true
    → get_message_key user (change_user_info user (field message_key (bytes key) end) db)
      ≡ ok (bytes key)
unfolding get_message_key update get_or_null
get_message_key-change user key db known =
    rw
      (
        get_user-change_user_info user user (field message_key (bytes key) end) db,
        known,
        ==_self user,
      )
      (rw (known_put message_key (bytes key) (info_or_new user db))
        (rw (get-put message_key message_key (bytes key) (info_or_new user db), get_or_null) refl))

-- A node that knows the peer, with a place for it, has no control message of the peer's left, and has a
-- place for the relay in its configuration of the root server.
pub record Knows (s : Node) (peer : Text) : Type 0 where
  pub place : Fields
  pub known : has_user peer s.user_db ≡ true
  pub placed : get_connection_info peer s.user_db ≡ ok (dict place)
  pub named : item user_key (dict (update (field user_key (str peer) end) place)) ≡ ok (str peer)
  pub quiet : queue_of peer s.control_message_queue ≡ []
  pub relay_host : Value
  pub relay_port : Value
  pub hosted : item host_key s.root_config ≡ ok relay_host
  pub ported : item port_key s.root_config ≡ ok relay_port

-- A node after a protocol object has run: what the object leaves, and the key.
abbrev pub after_run : Session → Node → Node
after_run session s = record s {
  outbound_queue = session.outbound_q;
  control_message_queue = insert session.peer session.ctrl_msg_q s.control_message_queue;
}

on_node_lem :
    {A : Type 0} (m : Action A) (p : Session) (a : A) (session : Session) (s : Node)
    → m p ≡ ok (a, session)
    → on_node m p s ≡ (ok (a, session), after_run session s)
unfolding on_node
on_node_lem m p a session s ran = rw (ran, on_node) refl

module _ (json : Json) (world : World) (s : Node) (peer : Text) (k : Knows s peer)
    (key_size : ℕ) where
  -- The device that the object makes.
  abbrev pub device : Relay
  device = record {
    relay_host = k.relay_host;
    relay_port = k.relay_port;
    attempts = world.attempts;
  }

  abbrev made : Session → KeyProtocol
  made session = record {
    class = bb84_purified;
    key_size = key_size;
    device = device;
    session = session;
  }

  info_lem : info_of_peer peer s ≡ (ok (update (field user_key (str peer) end) k.place), s)
  unfolding info_of_peer qchat.Client.peer_info
  info_lem = rw k.placed refl

  abbrev quiet_session : Role → Session
  quiet_session role = record {
    role = role;
    name = s.name;
    peer = peer;
    ctrl_msg_q = [];
    outbound_q = s.outbound_queue;
    randoms = world.randoms;
  }

  pub shake_leads :
      (rest : List Message)
      → world.coming ≡ answer peer ∷ rest
      → length s.name ≤ 16
      → hand_shake json ecc_golay world leader bb84_purified key_size s.root_config
          (new_session json ecc_golay world leader peer s)
        ≡ ok (device, expects (sent (quiet_session leader) (request s.name key_size)) rest)
  unfolding hand_shake new_device new_session protocol_name qchat.Client.Keys.message_type
  shake_leads rest coming short =
      rw (k.quiet, coming)
        (rw (k.hosted, k.ported)
          (>>=-ok (lead_protocol json (codes "BB84_PURIFIED") key_size bb84)
            (λ u. Base.return device) (expects (quiet_session leader) (answer peer ∷ rest))
            (lead_protocol_lem json key_size peer rest (quiet_session leader) short)))

  pub shake_follows :
      length s.name ≤ 16
      → hand_shake json ecc_golay world follower bb84_purified key_size s.root_config
          (new_session json ecc_golay world follower peer s)
        ≡ ok (device, expects (sent (quiet_session follower) (answer s.name)) world.coming)
  unfolding hand_shake new_device new_session qchat.Client.Keys.message_type
      qchat.Protocols.follow_protocol
  shake_follows short = rw k.quiet (
      rw (k.hosted, k.ported)
        (>>=-ok (send_control_message json (field (codes "ACK") (str (codes "ACK")) end) bb84)
          (λ u. Base.return device) (expects (quiet_session follower) world.coming)
          (send_lem json bb84 _ (expects (quiet_session follower) world.coming) short)))

  start_lem :
      (role : Role) (session : Session)
      → hand_shake json ecc_golay world role bb84_purified key_size s.root_config
          (new_session json ecc_golay world role peer s)
        ≡ ok (device, session)
      → start json ecc_golay world bb84_purified role
          (field (codes "key_size") (int (pos key_size)) end)
          (update (field user_key (str peer) end) k.place)
          s
        ≡ (ok (made session), after_run session s)
  unfolding start new_key_protocol qchat.Core.take_keyword qchat.Core.no_more_keywords
      qchat.Client.Keys.size_of qchat.Core.name_of get qchat.Value.remove
  start_lem role session shaken = rw k.named (
      >>=-returns
        (on_node (hand_shake json ecc_golay world role bb84_purified key_size s.root_config)
          (new_session json ecc_golay world role peer s))
        _ s
        (on_node_lem (hand_shake json ecc_golay world role bb84_purified key_size s.root_config)
          (new_session json ecc_golay world role peer s) device session s shaken))

  execute_lem :
      (session session' : Session) (key : Bytes) (u : Node)
      → run json bb84
          (distill_of json ecc_golay world bb84_purified device)
          ecc_golay
          world.fuel
          key_size
          session
        ≡ ok (key, session')
      → execute_key json ecc_golay world (made session) u ≡ (ok key, after_run session' u)
  unfolding execute_key qchat.Client.Keys.message_type
  execute_lem session session' key u ran =
      >>=-returns
        (on_node
          (run json bb84 (distill_of json ecc_golay world bb84_purified device) ecc_golay world.fuel
            key_size)
          session)
        _ u
        (on_node_lem
          (run json bb84 (distill_of json ecc_golay world bb84_purified device) ecc_golay world.fuel
            key_size)
          session key session' u ran)

  pub establish_lem :
      (session session' : Session) (key : Bytes) (r : Result (Unit {0}) × Node)
      → hand_shake json ecc_golay world leader bb84_purified key_size s.root_config
          (new_session json ecc_golay world leader peer s)
        ≡ ok (device, session)
      → run json bb84
          (distill_of json ecc_golay world bb84_purified device)
          ecc_golay
          world.fuel
          key_size
          session
        ≡ ok (key, session')
      → store_key peer key (after_run session' (after_run session s)) ≡ r
      → establish_key json (key_protocols json ecc_golay world) peer (pos key_size) bb84_purified s
        ≡ r
  unfolding establish_key
  establish_lem session session' key r shaken ran stored = rw k.known (
      >>=-returns (info_of_peer peer) _ s info_lem
      ∙ >>=-returns
          (start json ecc_golay world bb84_purified leader
            (field (codes "key_size") (int (pos key_size)) end)
            (update (field user_key (str peer) end) k.place))
          _ s (start_lem leader session shaken)
      ∙ >>=-returns (execute_key json ecc_golay world (made session)) _ (after_run session s)
          (execute_lem session session' key (after_run session s) ran)
      ∙ stored)

  pub follow_lem :
      (session session' : Session) (key : Bytes)
      → hand_shake json ecc_golay world follower bb84_purified key_size s.root_config
          (new_session json ecc_golay world follower peer s)
        ≡ ok (device, session)
      → run json bb84
          (distill_of json ecc_golay world bb84_purified device)
          ecc_golay
          world.fuel
          key_size
          session
        ≡ ok (key, session')
      → follow_protocol json (key_protocols json ecc_golay world) (request peer key_size) s
        ≡ store_key peer key (after_run session' (after_run session s))
  unfolding follow_protocol qchat.Core.pop_item get qchat.Value.remove qchat.Client.protocol_class
      qchat.Protocols.Factory.create_protocol qchat.Protocols.Factory.protocol_mapping protocol_name
      qchat.Prelude.Dict.lookup qchat.Client.follow qchat.Client.is_key_protocol
  follow_lem session session' key shaken ran =
      >>=-returns (info_of_peer peer) _ s info_lem
      ∙ >>=-returns
          (start json ecc_golay world bb84_purified follower
            (field (codes "key_size") (int (pos key_size)) end)
            (update (field user_key (str peer) end) k.place))
          _ s (start_lem follower session shaken)
      ∙ >>=-returns (execute_key json ecc_golay world (made session)) _ (after_run session s)
          (execute_lem session session' key (after_run session s) ran)
