-- ===== src/Core/Threads/Outbound.antt =====
-- qchat/client.py: what the thread of `send_outbound_messages` sends, and what ends it.
use mathlib.Core.Path.{subst}
use qchat.Prelude.{
  arith, ℕ, suc, ◌+◌, ◌≡◌, refl, ap, sym, ◌∙◌, true, List, [], ◌∷◌, ◌++◌, length, Result, ok, err,
  Error, append-nil, append_assoc,
}
use qchat.Value.{Text, Bytes, Value}
use qchat.Messages.{Json, Message, encode_message}
use qchat.Cryptobox.{Crypto}
use qchat.Db.{UserDb, has_user, get_connection_info}
use qchat.Core.{Node, Environment, >>=-returns, >>=-raises, item, host_key, port_key}
use qchat.Core.Signature.{sign_message}
use qchat.Core.Signed.{ensure_user-known}
use qchat.Core.Requests.{ensure_user, signed, send_bytes, send_message}
use qchat.Core.Threads.{send_outbound_messages}

module _ (json : Json) (crypto : Crypto) (env : Environment) (db : UserDb) (signer : Bytes) where
  -- A message for a user whom the node knows, at a place that can be reached, and what is sent for it.
  pub record Delivers (user : Text) (message : Message) (out : Value × Value × Bytes) : Type 0 where
    pub place : Value
    pub signed_message : Message
    pub known : has_user user db ≡ true
    pub placed : get_connection_info user db ≡ ok place
    pub hosted : item host_key place ≡ ok out.0
    pub ported : item port_key place ≡ ok out.1
    pub signs : sign_message json crypto signer message ≡ ok signed_message
    pub encodes : encode_message json signed_message ≡ ok out.2
    pub reached : env.connect out.0 out.1 ≡ ok tt

  abbrev pub AllDeliver : List (Text × Message) → List (Value × Value × Bytes) → Type 0
  AllDeliver [] [] = Unit
  AllDeliver [] (o ∷ outs) = ⊥
  AllDeliver (q ∷ queue) [] = ⊥
  AllDeliver (q ∷ queue) (o ∷ outs) = Delivers q.0 q.1 o × AllDeliver queue outs

  send_message_lem :
      (user : Text) (message : Message) (out : Value × Value × Bytes) (s : Node)
      → s.user_db ≡ db
      → s.signer ≡ signer
      → Delivers user message out
      → send_message json crypto env user message s
        ≡ (ok tt, record s { wire = s.wire ++ out ∷ [] })
  unfolding send_message signed send_bytes
  send_message_lem user message out s same_db same_signer d =
      >>=-returns (ensure_user json crypto env user) _ s
        (ensure_user-known json crypto env user s (rw same_db d.known))
      ∙ rw (same_db, d.placed)
          (rw (d.hosted, d.ported) (rw (same_signer, d.signs) (rw (d.encodes, d.reached) refl)))

  -- The messages before, each sent in its turn; then the rest of the queue.
  sends_first :
      (queue rest : List (Text × Message)) (outs : List (Value × Value × Bytes)) (fuel : ℕ)
      (s : Node) (r : Result (Unit {0}) × Node)
      → s.user_db ≡ db
      → s.signer ≡ signer
      → AllDeliver queue outs
      → send_outbound_messages json crypto env fuel
          (record s { outbound_queue = rest; wire = s.wire ++ outs })
        ≡ r
      → send_outbound_messages json crypto env
          (length queue + fuel)
          (record s { outbound_queue = queue ++ rest })
        ≡ r
  unfolding send_outbound_messages
  sends_first [] rest [] fuel s r same_db same_signer all later =
      ap (λ n. send_outbound_messages json crypto env n (record s { outbound_queue = rest }))
        (omega arith)
      ∙ subst
          (λ w.
            send_outbound_messages json crypto env fuel
              (record s { outbound_queue = rest; wire = w })
            ≡ r)
          (append-nil s.wire) later
  sends_first [] rest (o ∷ outs) fuel s r same_db same_signer all later = absurd all
  sends_first (q ∷ queue) rest [] fuel s r same_db same_signer all later = absurd all
  sends_first (q ∷ queue) rest (o ∷ outs) fuel s r same_db same_signer all later =
      ap
        (λ n.
          send_outbound_messages json crypto env n
            (record s { outbound_queue = q ∷ (queue ++ rest) }))
        plus
      ∙ >>=-returns (send_message json crypto env q.0 q.1) _
          (record s { outbound_queue = queue ++ rest })
          (send_message_lem q.0 q.1 o (record s { outbound_queue = queue ++ rest }) same_db
            same_signer all.0)
      ∙ sends_first queue rest outs fuel (record s { wire = s.wire ++ o ∷ [] }) r same_db
          same_signer all.1
          (subst
            (λ w.
              send_outbound_messages json crypto env fuel
                (record s { outbound_queue = rest; wire = w })
              ≡ r)
            (sym (append_assoc s.wire (o ∷ []) outs)) later)
    where
      plus : suc (length queue) + fuel ≡ suc (length queue + fuel)
      plus = omega arith

  -- When every message of the outbound queue can be delivered, a pass of the thread returns, sends all
  -- of them in the queue's order, and leaves an empty queue and the rest of the node as it was; fuel of
  -- one more than the queue's length is enough.
  pub send_outbound_messages_in_order :
      (outs : List (Value × Value × Bytes)) (fuel : ℕ) (s : Node)
      → s.user_db ≡ db
      → s.signer ≡ signer
      → AllDeliver s.outbound_queue outs
      → send_outbound_messages json crypto env (length s.outbound_queue + suc fuel) s
        ≡ (ok tt, record s { outbound_queue = []; wire = s.wire ++ outs })
  unfolding send_outbound_messages
  send_outbound_messages_in_order outs fuel s same_db same_signer all =
      ap
        (λ q.
          send_outbound_messages json crypto env (length s.outbound_queue + suc fuel)
            (record s { outbound_queue = q }))
        (sym (append-nil s.outbound_queue))
      ∙ sends_first s.outbound_queue [] outs (suc fuel) s _ same_db same_signer all refl

  -- When the messages before one of the outbound queue can be delivered, and sending that one raises and
  -- leaves the node as it is otherwise, the exception ends the thread: the messages before it are sent, it is on no queue any more, and those
  -- after it stay on the outbound queue, unsent.
  pub send_outbound_messages_stops :
      (before after : List (Text × Message)) (user : Text) (message : Message)
      (outs : List (Value × Value × Bytes)) (e : Error) (fuel : ℕ) (s : Node)
      → s.user_db ≡ db
      → s.signer ≡ signer
      → s.outbound_queue ≡ before ++ (user, message) ∷ after
      → AllDeliver before outs
      → send_message json crypto env user message
          (record s { outbound_queue = after; wire = s.wire ++ outs })
        ≡ (err e, record s { outbound_queue = after; wire = s.wire ++ outs })
      → send_outbound_messages json crypto env (length before + suc fuel) s
        ≡ (err e, record s { outbound_queue = after; wire = s.wire ++ outs })
  unfolding send_outbound_messages
  send_outbound_messages_stops before after user message outs e fuel s same_db same_signer waiting
        all raises =
      ap
        (λ q.
          send_outbound_messages json crypto env (length before + suc fuel)
            (record s { outbound_queue = q }))
        waiting
      ∙ sends_first before ((user, message) ∷ after) outs (suc fuel) s _ same_db same_signer all (
          >>=-raises (send_message json crypto env user message) _
            (record s { outbound_queue = after; wire = s.wire ++ outs }) raises)
