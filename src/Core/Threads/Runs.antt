-- ===== src/Core/Threads/Runs.antt =====
-- Runs of a host's threads: all of them, and two of them in both orders.
use mathlib.Core.Path.{subst}
use qchat.Prelude.{
  ◌≡◌, refl, ap, sym, ◌∙◌, List, [], ◌∷◌, ◌++◌, Option, none, some, Result, ok, err, append-nil,
  append_assoc, nat_eq, list_eq, ==_self, if◌then◌else◌,
}
use qchat.Prelude.Dict.{lookup, lookup-insert}
use qchat.Value.{Text}
use qchat.Messages.{Json, Message}
use qchat.Cryptobox.{Crypto}
use qchat.Connection.{recv_message, pop_message_from_queue}
use qchat.Core.{Node, Environment}
use qchat.Core.Process.{ProcMap, queue_of, store_control_message, process_message}
use qchat.Core.Threads.{
  Host, Step, reads, runs, Steps, here, then_, start_process_thread, read_from_connection,
}

abbrev read_result : Host → Result (Option Message × List Message) → Host
read_result h (err e) = h
read_result h (ok (none, rest)) = record h { message_queue = rest }
read_result h (ok (some message, rest)) = record h {
  message_queue = rest;
  started = h.started ++ message ∷ [];
}

read_result-node :
    (h : Host) (r : Result (Option Message × List Message)) → (read_result h r).node ≡ h.node
read_result-node h (err e) = refl
read_result-node h (ok (none, rest)) = refl
read_result-node h (ok (some message, rest)) = refl

read-node : (h : Host) → (read_from_connection h).node ≡ h.node
unfolding read_from_connection start_process_thread
read-node h = read_result-node h (recv_message h.message_queue)

module _ (json : Json) (crypto : Crypto) (env : Environment) (proc_map : ProcMap) where
  -- Messages handled one after the other.
  unfoldable pub process_all : List Message → Node → Node
  process_all [] s = s
  process_all (m ∷ ms) s = process_all ms (process_message json crypto env proc_map m s).1

  abbrev Runs : Host → Host → Type 0
  Runs = Steps json crypto env proc_map

  Runs-trans : (h h' h'' : Host) → Runs h h' → Runs h' h'' → Runs h h''
  Runs-trans h h' h'' a here = a
  Runs-trans h h' h'' a (then_ b step) = then_ (Runs-trans h h' _ a b) step

  starts_thread :
      (h : Host) (m : Message) (ms : List Message)
      → Step json crypto env proc_map
          (record h { message_queue = m ∷ ms })
          (record h { message_queue = ms; started = h.started ++ m ∷ [] })
  unfolding read_from_connection recv_message pop_message_from_queue start_process_thread
  starts_thread h m ms = reads

  read_all :
      (h : Host) (ms : List Message)
      → Runs
          (record h { message_queue = ms })
          (record h { message_queue = []; started = h.started ++ ms })
  read_all h [] =
      subst
        (λ l. Runs (record h { message_queue = [] }) (record h { message_queue = []; started = l }))
        (sym (append-nil h.started)) here
  read_all h (m ∷ ms) =
      Runs-trans _ (record h { message_queue = ms; started = h.started ++ m ∷ [] }) _
        (then_ here (starts_thread h m ms))
        (subst
          (λ l.
            Runs (record h { message_queue = ms; started = h.started ++ m ∷ [] })
              (record h { message_queue = []; started = l }))
          (append_assoc h.started (m ∷ []) ms)
          (read_all (record h { started = h.started ++ m ∷ [] }) ms))

  run_all :
      (h : Host) (ms : List Message)
      → Runs (record h { started = ms }) (record h { started = []; node = process_all ms h.node })
  unfolding process_all
  run_all h [] = here
  run_all h (m ∷ ms) =
      Runs-trans _
        (record h { started = ms; node = (process_message json crypto env proc_map m h.node).1 }) _
        (then_ here (runs [] m ms refl))
        (run_all (record h { node = (process_message json crypto env proc_map m h.node).1 }) ms)

  -- From every state of a host there are steps after which no message is in the queue and no thread is
  -- left, and which handle every message exactly once: those of the threads that had started, and then
  -- those of the queue, in order.
  pub all_messages_handled :
      (h : Host)
      → (h' : Host) × Runs h h'
        × (h'.message_queue ≡ [])
        × (h'.started ≡ [])
        × (h'.node ≡ process_all (h.started ++ h.message_queue) h.node)
  all_messages_handled h = (
    record h {
      message_queue = [];
      started = [];
      node = process_all (h.started ++ h.message_queue) h.node;
    },
    Runs-trans h (record h { message_queue = []; started = h.started ++ h.message_queue }) _
        (read_all h h.message_queue)
        (run_all (record h { message_queue = [] }) (h.started ++ h.message_queue)),
    refl,
    refl,
    refl,
  )

abbrev queue_at : Option (List Message) → List Message
queue_at none = []
queue_at (some q) = q

queue_of-store :
    (m : Message) (sender : Text) (s : Node)
    → m.sender ≡ sender
    → queue_of sender (store_control_message m s).1.control_message_queue
      ≡ queue_of sender s.control_message_queue ++ m ∷ []
unfolding queue_of store_control_message
queue_of-store m sender s from =
    subst
      (λ u.
        queue_of u (store_control_message m s).1.control_message_queue
        ≡ queue_of u s.control_message_queue ++ m ∷ [])
      from
      (ap queue_at (lookup-insert m.sender m.sender queue s.control_message_queue)
        ∙ ap (λ c. queue_at (if c then some queue else lookup m.sender s.control_message_queue))
            (==_self m.sender))
  where
    queue : List Message
    queue = queue_of m.sender s.control_message_queue ++ m ∷ []

stored_twice :
    (json : Json) (crypto : Crypto) (env : Environment) (proc_map : ProcMap) (x y x' y' : Message)
    (sender : Text) (s : Node)
    → x'.sender ≡ sender
    → y'.sender ≡ sender
    → ((u : Node)
        → u.user_db ≡ s.user_db
        → process_message json crypto env proc_map x u ≡ store_control_message x' u)
    → ((u : Node)
        → u.user_db ≡ s.user_db
        → process_message json crypto env proc_map y u ≡ store_control_message y' u)
    → queue_of sender
        (process_message json crypto env proc_map y
          (process_message json crypto env proc_map x s).1).1.control_message_queue
      ≡ queue_of sender s.control_message_queue ++ x' ∷ y' ∷ []
unfolding store_control_message
stored_twice json crypto env proc_map x y x' y' sender s from_x from_y stores_x stores_y =
    let s_1 : Node = (store_control_message x' s).1 in
    ap (λ u. queue_of sender (process_message json crypto env proc_map y u).1.control_message_queue)
      (ap (λ r. r.1) (stores_x s refl))
    ∙ ap (λ r. queue_of sender r.1.control_message_queue) (stores_y s_1 refl)
    ∙ queue_of-store y' sender s_1 from_y
    ∙ ap (λ q. q ++ y' ∷ []) (queue_of-store x' sender s from_x)
    ∙ append_assoc (queue_of sender s.control_message_queue) (x' ∷ []) (y' ∷ [])

-- Two control messages of one sender that wait in the queue, which the node stores as `a'` and `b'`:
-- since each is handled by a thread of its own, there are steps after which the sender's control queue
-- ends in `a'`, `b'`, and steps after which it ends in `b'`, `a'`.
pub threads_reorder :
    (json : Json) (crypto : Crypto) (env : Environment) (proc_map : ProcMap) (h : Host)
    (a b a' b' : Message) (sender : Text)
    → h.message_queue ≡ a ∷ b ∷ []
    → h.started ≡ []
    → a'.sender ≡ sender
    → b'.sender ≡ sender
    → ((s : Node)
        → s.user_db ≡ h.node.user_db
        → process_message json crypto env proc_map a s ≡ store_control_message a' s)
    → ((s : Node)
        → s.user_db ≡ h.node.user_db
        → process_message json crypto env proc_map b s ≡ store_control_message b' s)
    → (in_order : Host) × (reversed : Host) × Steps json crypto env proc_map h in_order
      × Steps json crypto env proc_map h reversed
      × (queue_of sender in_order.node.control_message_queue
          ≡ queue_of sender h.node.control_message_queue ++ a' ∷ b' ∷ [])
      × (queue_of sender reversed.node.control_message_queue
          ≡ queue_of sender h.node.control_message_queue ++ b' ∷ a' ∷ [])
threads_reorder json crypto env proc_map h a b a' b' sender waiting none_ from_a from_b stores_a
      stores_b =
    let node = h.node in
    let both : Host = record h { message_queue = []; started = a ∷ b ∷ [] } in
    let to_both : Steps json crypto env proc_map h both =
      subst (λ q. Steps json crypto env proc_map (record h { message_queue = q }) both)
        (sym waiting)
        (subst
          (λ l.
            Steps json crypto env proc_map (record h { message_queue = a ∷ b ∷ [] })
              (record h { message_queue = []; started = l ++ a ∷ b ∷ [] }))
          none_ (read_all json crypto env proc_map h (a ∷ b ∷ []))) in
    let after_a = (process_message json crypto env proc_map a node).1 in
    let after_b = (process_message json crypto env proc_map b node).1 in
    (
      record h {
        message_queue = [];
        started = [];
        node = (process_message json crypto env proc_map b after_a).1;
      },
      record h {
        message_queue = [];
        started = [];
        node = (process_message json crypto env proc_map a after_b).1;
      },
      then_ (then_ to_both (runs [] a (b ∷ []) refl)) (runs [] b [] refl),
      then_ (then_ to_both (runs (a ∷ []) b [] refl)) (runs [] a [] refl),
      stored_twice json crypto env proc_map a b a' b' sender node from_a from_b stores_a stores_b,
      stored_twice json crypto env proc_map b a b' a' sender node from_b from_a stores_b stores_a,
    )
