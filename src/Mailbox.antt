-- ===== src/Mailbox.antt =====
-- qchat/mailbox.py: `QChatMailbox`. Each method holds the lock while it reads or writes the list, so
-- the calls of all threads are one sequence.
pub mod Calls
mod Tests
use qchat.Prelude.{List, [], ◌∷◌, ◌++◌}
use qchat.Messages.{Message}

pub record Mailbox : Type 0 where
  pub messages : List Message

abbrev pub new_mailbox : Mailbox
new_mailbox = record { messages = [] }

unfoldable pub store_message : Message → Mailbox → Mailbox
store_message message self = record self { messages = self.messages ++ message ∷ [] }

unfoldable pub get_messages : Mailbox → List Message
get_messages self = self.messages

unfoldable pub pop_messages : Mailbox → List Message × Mailbox
pop_messages self = (self.messages, record self { messages = [] })
