-- ===== src/Core/Threads/Tests.antt =====
-- Two messages of Alice's in Bob's queue, and messages on Bob's outbound queue.
use qchat.Prelude.{
  ℕ, zero, suc, ◌+◌, ◌≡◌, refl, sym, ◌∙◌, true, false, Bool, List, [], ◌∷◌, ◌++◌, length, replicate,
  none, some, Result, ok, err, Error, connection_error, arith, nat_eq, list_eq, if◌then◌else◌,
}
use qchat.Value.{Text, Bytes, Value, null, int, pos, str, bytes, dict, Fields, end, field, codes}
use qchat.Messages.{bb84, qcht, verify, Message, encode_message}
use qchat.Cryptobox.{sign}
use qchat.Db.{UserDb, get_user, has_user, get_connection_info, pub_key, connection}
use qchat.Core.{Node, Environment, Handler, sig_key, lift, skip, ◌>>◌, host_key, port_key}
use qchat.Core.Signature.{strip_signature, verify_message, sign_message}
use qchat.Core.Signed.{with_data, process_message_known}
use qchat.Core.Requests.{send_message}
use qchat.Core.Process.{
  ProcMap, handle, queue_of, store_control_message, check_and_handle, process_message,
}
use qchat.Core.Samples.{alice_name, bob_name, toy_crypto, toy_json, signature, still, node, bob}
use qchat.Core.Threads.{Host, Steps, send_outbound_messages}
use qchat.Core.Threads.Runs.{process_all, all_messages_handled, threads_reorder}
use qchat.Core.Threads.Outbound.{
  Delivers, send_outbound_messages_in_order, send_outbound_messages_stops,
}

abbrev no_handlers : ProcMap
no_handlers k = none

-- Control messages of the BB84 protocol, as they come and as they are stored.
abbrev control : ℕ → Fields → Message
control round d = with_data bb84 alice_name (field (codes "round") (int (pos round)) d)

is_checked : verify bb84 ≡ true
unfolding verify
is_checked = refl

known : has_user alice_name bob.user_db ≡ true
unfolding has_user get_user qchat.Prelude.Dict.lookup
known = refl

stripped : (round : ℕ) → strip_signature (control round signature) ≡ ok (control round end, 65 ∷ [])
unfolding strip_signature qchat.Core.pop_item qchat.Value.get qchat.Value.remove
stripped round = refl

verified :
    (round : ℕ)
    → verify_message toy_json toy_crypto bob.user_db (control round end) (65 ∷ []) ≡ ok tt
unfolding verify_message qchat.Value.Utf8.utf8_encode qchat.Value.Words.to_bytes
verified round = refl

allowed_or_checked :
    (b : Bool) (f : Handler (Unit {0})) (s : Node)
    → ((if b then skip else lift (ok tt)) >> f) s ≡ f s
allowed_or_checked true f s = refl
allowed_or_checked false f s = refl

stored :
    (round : ℕ) (s : Node)
    → s.user_db ≡ bob.user_db
    → process_message toy_json toy_crypto still no_handlers (control round signature) s
      ≡ store_control_message (control round end) s
unfolding check_and_handle handle
stored round s same =
    process_message_known toy_json toy_crypto still no_handlers (control round signature) s
      is_checked (rw same known)
    ∙ rw (stripped round) (
        rw (same, verified round)
          (allowed_or_checked s.allow_invalid_signatures
            (handle toy_json toy_crypto still no_handlers (control round end))
            (record s { user_db = bob.user_db })))

abbrev host : Host
host = record {
  node = bob;
  message_queue = control 1 signature ∷ control 2 signature ∷ [];
  started = [];
}

threads_reorder_example :
    (in_order : Host) × (reversed : Host) × Steps toy_json toy_crypto still no_handlers host
      in_order
    × Steps toy_json toy_crypto still no_handlers host reversed
    × (queue_of alice_name in_order.node.control_message_queue
        ≡ queue_of alice_name bob.control_message_queue ++ control 1 end ∷ control 2 end ∷ [])
    × (queue_of alice_name reversed.node.control_message_queue
        ≡ queue_of alice_name bob.control_message_queue ++ control 2 end ∷ control 1 end ∷ [])
threads_reorder_example =
    threads_reorder toy_json toy_crypto still no_handlers host (control 1 signature)
      (control 2 signature) (control 1 end) (control 2 end) alice_name refl refl refl refl
      (stored 1) (stored 2)

all_messages_handled_example :
    (h : Host) × Steps toy_json toy_crypto still no_handlers host h
    × (h.message_queue ≡ [])
    × (h.started ≡ [])
    × (h.node ≡ process_all toy_json toy_crypto still no_handlers ([] ++ host.message_queue) bob)
all_messages_handled_example = all_messages_handled toy_json toy_crypto still no_handlers host

-- Bob knows Carol's place and Dave's, and cannot reach Dave's.
abbrev place : ℕ → Value
place port = dict (field host_key (str (codes "localhost")) (field port_key (int (pos port)) end))

abbrev friends : UserDb
friends =
    (codes "carol", field connection (place 8002) end)
    ∷ (codes "dave", field connection (place 0) end)
    ∷ []

abbrev reach : Value → Value → Result (Unit {0})
reach h (int (pos zero)) = err connection_error
reach h p = ok tt

abbrev network : Environment
network = record { connect = reach; meanwhile = λ s. s }

abbrev hello : Message
hello = with_data qcht bob_name end

abbrev hello_signed : Message
hello_signed = with_data qcht bob_name signature

abbrev hello_wire : Bytes
hello_wire = codes "QCHT" ++ (replicate 13 0 ++ codes "bob" ++ (0 ∷ 0 ∷ 0 ∷ 2 ∷ codes "{}"))

abbrev to_carol : Value × Value × Bytes
to_carol = (str (codes "localhost"), int (pos 8002), hello_wire)

carol_gets_it :
    Delivers toy_json toy_crypto network friends (codes "key") (codes "carol") hello to_carol
unfolding encode_message qchat.Value.Utf8.utf8_encode qchat.Value.Words.to_bytes sign_message sign
    qchat.Core.Signature.set_item qchat.Value.put has_user get_user get_connection_info
    qchat.Db.known_info qchat.Prelude.Dict.lookup qchat.Value.get qchat.Core.item
    qchat.Db.get_or_null
carol_gets_it = record {
  place = place 8002;
  signed_message = hello_signed;
  known = refl;
  placed = refl;
  hosted = refl;
  ported = refl;
  signs = refl;
  encodes = refl;
  reached = refl;
}

abbrev sender : List (Text × Message) → Node
sender queue = record (node bob_name friends) { outbound_queue = queue }

send_outbound_messages_in_order_example :
    send_outbound_messages toy_json toy_crypto network 3
      (sender ((codes "carol", hello) ∷ (codes "carol", hello) ∷ []))
    ≡ (ok tt, record (sender []) { wire = to_carol ∷ to_carol ∷ [] })
send_outbound_messages_in_order_example =
    send_outbound_messages_in_order toy_json toy_crypto network friends (codes "key")
      (to_carol ∷ to_carol ∷ []) 0 (sender ((codes "carol", hello) ∷ (codes "carol", hello) ∷ []))
      refl refl (carol_gets_it, (carol_gets_it, tt))

dave_is_away :
    send_message toy_json toy_crypto network
      (codes "dave")
      hello
      (record (sender ((codes "carol", hello) ∷ [])) { wire = to_carol ∷ [] })
    ≡ (err connection_error, record (sender ((codes "carol", hello) ∷ [])) { wire = to_carol ∷ [] })
unfolding send_message qchat.Core.Requests.ensure_user qchat.Core.Requests.signed
    qchat.Core.Requests.send_bytes encode_message qchat.Value.Utf8.utf8_encode
    qchat.Value.Words.to_bytes sign_message sign qchat.Core.Signature.set_item qchat.Value.put
    has_user get_user get_connection_info qchat.Db.known_info qchat.Prelude.Dict.lookup
    qchat.Value.get qchat.Core.item qchat.Db.get_or_null
dave_is_away = refl

send_outbound_messages_stops_example :
    send_outbound_messages toy_json toy_crypto network 2
      (sender ((codes "carol", hello) ∷ (codes "dave", hello) ∷ (codes "carol", hello) ∷ []))
    ≡ (err connection_error, record (sender ((codes "carol", hello) ∷ [])) { wire = to_carol ∷ [] })
send_outbound_messages_stops_example =
    send_outbound_messages_stops toy_json toy_crypto network friends (codes "key")
      ((codes "carol", hello) ∷ []) ((codes "carol", hello) ∷ []) (codes "dave") hello
      (to_carol ∷ []) connection_error 0
      (sender ((codes "carol", hello) ∷ (codes "dave", hello) ∷ (codes "carol", hello) ∷ [])) refl
      refl refl (carol_gets_it, tt) dave_is_away
