-- ===== src/Mailbox/Tests.antt =====
-- The mailbox on a run of calls.
use qchat.Prelude.{◌≡◌, List, [], ◌∷◌, ◌++◌}
use qchat.Value.{dict, end, codes}
use qchat.Messages.{Message, mssg}
use qchat.Mailbox.{new_mailbox, get_messages}
use qchat.Mailbox.Calls.{Call, store, pop, run_calls, stored, run_calls-stored}

abbrev hello : Message
hello = record { kind = mssg; sender = codes "alice"; message_data = dict end }

abbrev calls : List Call
calls = store hello ∷ pop ∷ store hello ∷ Call.get ∷ []

run_calls-stored_example :
    (run_calls calls new_mailbox).0 ++ get_messages (run_calls calls new_mailbox).1
    ≡ get_messages new_mailbox ++ stored calls
run_calls-stored_example = run_calls-stored calls new_mailbox
