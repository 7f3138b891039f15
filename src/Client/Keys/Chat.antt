-- ===== src/Client/Keys/Chat.antt =====
-- A key agreement of two clients, and then a chat message between them.
use qchat.Prelude.{nat_eq, list_eq}
use qchat.Client.{Protocols}
