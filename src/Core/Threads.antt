-- ===== src/Core/Threads.antt =====
-- qchat/core.py and qchat/client.py: the threads of a host. `read_from_connection` starts a thread for
-- every message of the inbound queue; a thread handles its message in one step, in any order with the
-- others; and a client's thread sends what is on the outbound queue.
pub mod Runs
pub mod Outbound
mod Tests
use qchat.Prelude.{
  ℕ, zero, suc, List, [], ◌∷◌, ◌++◌, Option, none, some, Result, ok, err, no_fuel, ◌≡◌,
}
use qchat.Value.{Text}
use qchat.Messages.{Json, Message}
use qchat.Cryptobox.{Crypto}
use qchat.Connection.{Socket, handle_connection, recv_message}
use qchat.Core.{Node, Environment, Handler, lift, ◌>>=◌, ◌>>◌, skip}
use qchat.Core.Requests.{send_message}
use qchat.Core.Process.{ProcMap, process_message}

pub record Host : Type 0 where
  pub node : Node
  -- `self.connection.message_queue`
  pub message_queue : List Message
  -- The messages of the threads that have started and not yet run.
  pub started : List Message

-- `start_process_thread`
unfoldable pub start_process_thread : Message → Host → Host
start_process_thread message h = record h { started = h.started ++ message ∷ [] }

-- A pass of `read_from_connection`; `if message` finds every message true.
unfoldable pub read_from_connection : Host → Host
unfolding recv_message start_process_thread
read_from_connection h = elim (recv_message h.message_queue) [
  | err e ↦ h
  | ok (none, rest) ↦ record h { message_queue = rest }
  | ok (some message, rest) ↦ start_process_thread message (record h { message_queue = rest })
]

module _ (json : Json) (crypto : Crypto) (env : Environment) where
  module _ (proc_map : ProcMap) where
    -- What a host does: a connection brings a message, the reader starts a thread, or a thread runs, and
    -- ends whether it returns or raises.
    pub data Step : Host → Host → Type 0 where
      arrives :
          {h : Host} (conn : Socket) (queue : List Message)
          → handle_connection json conn h.message_queue ≡ ok queue
          → Step h (record h { message_queue = queue })
      reads : {h : Host} → Step h (read_from_connection h)
      runs :
          {h : Host} (before : List Message) (message : Message) (after : List Message)
          → h.started ≡ before ++ message ∷ after
          → Step h (record h {
            node = (process_message json crypto env proc_map message h.node).1;
            started = before ++ after;
          })

    -- Any number of steps.
    pub data Steps (h : Host) : Host → Type 0 where
      here : Steps h h
      then_ : {h' h'' : Host} → Steps h h' → Step h' h'' → Steps h h''

  -- A pass of `send_outbound_messages`, on fuel: an exception of `sendMessage` ends the thread.
  unfoldable pub send_outbound_messages : ℕ → Handler (Unit {0})
  unfolding send_message
  send_outbound_messages zero s = (err no_fuel, s)
  send_outbound_messages (suc fuel) s = elim s.outbound_queue [
    | [] ↦ (ok tt, s)
    | (user, message) ∷ rest ↦
        (send_message json crypto env user message >> send_outbound_messages fuel)
          (record s { outbound_queue = rest })
  ]
