-- ===== src/Client/History.antt =====
-- The message history: what it shows, in which order, and what a message that cannot be read costs.
use qchat.Prelude.{
  ◌≡◌, refl, ap, sym, ◌∙◌, List, [], ◌∷◌, ◌++◌, All, ok, err, Error, arith, nat_eq, list_eq,
  list_beq_iff, ◌==◌, if◌then◌else◌, append-nil, append_assoc, ok-injective, Bool-cases, inl, inr,
}
use qchat.Prelude.Dict.{Dict, lookup-insert}
use qchat.Value.{Text, Value}
use qchat.Messages.{Message}
use qchat.Mailbox.{new_mailbox, pop_messages}
use qchat.Cryptobox.{Crypto}
use qchat.Db.{UserDb}
use qchat.Core.{Node}
use qchat.Client.Chat.{read_message, entries_of, append_to, collect_messages, get_message_history}

-- The values of the messages of one sender, in order.
unfoldable pub values_from : (Message → Value) → Text → List Message → List Value
values_from value sender [] = []
values_from value sender (qm ∷ qms) =
    let rest = values_from value sender qms in if sender == qm.sender then value qm ∷ rest else rest

entries_of-append_to :
    (sender other : Text) (v : Value) (messages : Dict Text (List Value))
    → entries_of other (append_to sender v messages)
      ≡ (if other == sender then entries_of other messages ++ v ∷ [] else entries_of other messages)
unfolding entries_of append_to
entries_of-append_to sender other v messages = ground (
  arith,
  list_beq_iff other sender,
  lookup-insert sender other (entries_of sender messages ++ v ∷ []) messages,
)

module _ (crypto : Crypto) (db : UserDb) (value : Message → Value) where
  abbrev pub IsReadable : Message → Type 0
  IsReadable qm = read_message crypto db qm ≡ ok (value qm)

  appended :
      (sender : Text) (qm : Message) (later : List Value) (messages : Dict Text (List Value))
      → entries_of sender (append_to qm.sender (value qm) messages) ++ later
        ≡ entries_of sender messages ++ (if sender == qm.sender then value qm ∷ later else later)
  appended sender qm later messages = elim (Bool-cases (sender == qm.sender)) [
    | inl same ↦
        rw (entries_of-append_to qm.sender sender (value qm) messages, same)
          (append_assoc (entries_of sender messages) (value qm ∷ []) later)
    | inr other ↦ rw (entries_of-append_to qm.sender sender (value qm) messages, other) refl
  ]

  collect_messages-reads :
      (qms : List Message) (messages : Dict Text (List Value))
      → All IsReadable qms
      → (out : Dict Text (List Value)) × (collect_messages crypto db qms messages ≡ ok out)
  unfolding collect_messages
  collect_messages-reads [] messages h = (messages, refl)
  collect_messages-reads (qm ∷ qms) messages h =
      let (out, rest) = collect_messages-reads qms (append_to qm.sender (value qm) messages) h.1 in
      (out, rw (h.0, collect_messages) rest)

  entries_of-collect_messages :
      (sender : Text) (qms : List Message) (messages out : Dict Text (List Value))
      → All IsReadable qms
      → collect_messages crypto db qms messages ≡ ok out
      → entries_of sender out ≡ entries_of sender messages ++ values_from value sender qms
  unfolding collect_messages values_from
  entries_of-collect_messages sender [] messages out h e =
      ap (entries_of sender) (sym (ok-injective e)) ∙ sym (append-nil (entries_of sender messages))
  entries_of-collect_messages sender (qm ∷ qms) messages out h e =
      entries_of-collect_messages sender qms (append_to qm.sender (value qm) messages) out h.1
        (rw (h.0, collect_messages) at e)
      ∙ appended sender qm (values_from value sender qms) messages

  collect_messages-raises :
      (before after : List Message) (bad : Message) (e : Error) (messages : Dict Text (List Value))
      → All IsReadable before
      → read_message crypto db bad ≡ err e
      → collect_messages crypto db (before ++ bad ∷ after) messages ≡ err e
  unfolding collect_messages
  collect_messages-raises [] after bad e messages h raised = rw (raised, collect_messages) refl
  collect_messages-raises (qm ∷ before) after bad e messages h raised =
      rw (h.0, collect_messages)
        (collect_messages-raises before after bad e (append_to qm.sender (value qm) messages) h.1
          raised)

  -- The history, when every message in the mailbox can be read: it succeeds, the mailbox is empty
  -- after it, and for each sender it holds the values of that sender's messages, in the order in which
  -- they were stored.
  pub get_message_history-readable :
      (s : Node) (sender : Text)
      → s.user_db ≡ db
      → All IsReadable s.mailbox.messages
      → (out : Dict Text (List Value)) × (get_message_history crypto s
          ≡ (ok out, record s { mailbox = new_mailbox }))
        × (entries_of sender out ≡ values_from value sender s.mailbox.messages)
  unfolding get_message_history pop_messages entries_of
  get_message_history-readable s sender same h =
      let (out, run) = collect_messages-reads s.mailbox.messages [] h in
      (out, rw (same, run) refl, entries_of-collect_messages sender s.mailbox.messages [] out h run)

  -- One message that cannot be read, after others that can, costs all of them: the call raises, and
  -- the mailbox is empty.
  pub get_message_history_loses :
      (s : Node) (before after : List Message) (bad : Message) (e : Error)
      → s.user_db ≡ db
      → s.mailbox.messages ≡ before ++ bad ∷ after
      → All IsReadable before
      → read_message crypto db bad ≡ err e
      → get_message_history crypto s ≡ (err e, record s { mailbox = new_mailbox })
  unfolding get_message_history pop_messages
  get_message_history_loses s before after bad e same held h raised =
      rw (same, held, collect_messages-raises before after bad e [] h raised) refl
