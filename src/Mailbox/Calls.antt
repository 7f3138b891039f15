-- ===== src/Mailbox/Calls.antt =====
-- Sequences of calls on the mailbox: what the pops return, and what is left.
use qchat.Prelude.{◌≡◌, ap, sym, ◌∙◌, List, [], ◌∷◌, ◌++◌, append-nil, append_assoc}
use qchat.Messages.{Message}
use qchat.Mailbox.{Mailbox, store_message, get_messages, pop_messages}

pub data Call : Type 0 where
  store : Message → Call
  get pop : Call

-- What the pops have returned, joined, and the mailbox after the calls.
unfoldable pub run_calls : List Call → Mailbox → List Message × Mailbox
unfolding store_message pop_messages
run_calls [] box = ([], box)
run_calls (store m ∷ calls) box = run_calls calls (store_message m box)
run_calls (get ∷ calls) box = run_calls calls box
run_calls (pop ∷ calls) box =
    let (out, box') = pop_messages box in
    let (later, end) = run_calls calls box' in (out ++ later, end)

unfoldable pub stored : List Call → List Message
stored [] = []
stored (store m ∷ calls) = m ∷ stored calls
stored (get ∷ calls) = stored calls
stored (pop ∷ calls) = stored calls

-- After any calls, what was popped and then what `getMessages` returns is what was in the mailbox at
-- first and then what was stored, in order.
pub run_calls-stored :
    (calls : List Call) (box : Mailbox)
    → (run_calls calls box).0 ++ get_messages (run_calls calls box).1
      ≡ get_messages box ++ stored calls
unfolding run_calls stored get_messages
run_calls-stored [] box = sym (append-nil box.messages)
run_calls-stored (store m ∷ calls) box =
    run_calls-stored calls _ ∙ append_assoc box.messages (m ∷ []) (stored calls)
run_calls-stored (get ∷ calls) box = run_calls-stored calls box
run_calls-stored (pop ∷ calls) box =
    append_assoc box.messages _ _ ∙ ap (λ x. box.messages ++ x) (run_calls-stored calls _)
