-- ===== src/Core/Process.antt =====
-- qchat/core.py: `process_message`, over the table of handlers that a subclass gives.
use qchat.Prelude.{List, [], ◌∷◌, ◌++◌, Option, none, some, ok, nat_eq, list_eq, if◌then◌else◌}
use qchat.Prelude.Dict.{Dict, lookup, insert}
use qchat.Value.{Text, Bytes}
use qchat.Messages.{Json, Kind, verify, strip, Message}
use qchat.Cryptobox.{Crypto}
use qchat.Core.{Environment, Handler, lift, ◌>>=◌, ◌>>◌, skip, get_node}
use qchat.Core.Signature.{strip_signature, verify_message}
use qchat.Core.Requests.{ensure_user}

-- `self.control_message_queue[sender]`, a `defaultdict(list)`
unfoldable pub queue_of : Text → Dict Text (List Message) → List Message
unfolding lookup
queue_of sender queues = elim (lookup sender queues) [ none ↦ [] | some q ↦ q ]

-- `_store_control_message`
unfoldable pub store_control_message : Message → Handler (Unit {0})
unfolding queue_of insert
store_control_message message s =
    let queues = s.control_message_queue in
    let queue = queue_of message.sender queues ++ message ∷ [] in
    (ok tt, record s { control_message_queue = insert message.sender queue queues })

-- `self.proc_map`, by the class of the message
abbrev pub ProcMap : Type 0
ProcMap = Kind → Option (Message → Handler (Unit {0}))

module _ (json : Json) (crypto : Crypto) (env : Environment) (proc_map : ProcMap) where
  -- The last step: the class's handler, or the control queue.
  unfoldable pub handle : Message → Handler (Unit {0})
  unfolding store_control_message
  handle message = elim (proc_map message.kind) [
    | none ↦ store_control_message message
    | some handler ↦ handler message
  ]

  -- The check, unless invalid signatures are allowed, and the handler.
  unfoldable pub check_and_handle : Message × Bytes → Handler (Unit {0})
  unfolding verify_message handle
  check_and_handle (message, signature) = do
    node ← get_node
    let check : Handler (Unit {0}) =
        lift (verify_message json crypto node.user_db message signature)
    if node.allow_invalid_signatures then skip else check
    handle message

  unfoldable pub process_verified : Message → Handler (Unit {0})
  unfolding ensure_user strip_signature check_and_handle
  process_verified message = do
    ensure_user json crypto env message.sender
    stripped ← lift (strip_signature message)
    check_and_handle stripped

  unfoldable pub process_stripped : Message → Handler (Unit {0})
  unfolding strip_signature handle
  process_stripped message = do (message', _) ← lift (strip_signature message); handle message'

  unfoldable pub process_message : Message → Handler (Unit {0})
  unfolding verify strip process_verified process_stripped handle
  process_message message =
      if verify message.kind
      then process_verified message
      else if strip message.kind
      then process_stripped message
      else handle message
