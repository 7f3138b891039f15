-- ===== src/Protocols/SuperDense/Agreement.antt =====
-- Superdense coding, run by both parties on each other's messages.
use qchat.Prelude.{◌≤◌, ◌<◌, ◌≡◌, refl, ap, ◌∙◌, List, [], ◌∷◌, ◌++◌, All, length, ok}
use qchat.Value.{Text, Bytes}
use qchat.Messages.{Json, spds, Message}
use qchat.Protocols.{Session, ◌>>=◌, item, truthy, end_protocol}
use qchat.Protocols.Messaging.{control, expects, sent, exchange_lem}
use qchat.Protocols.Messaging.{sent_all}
use qchat.Protocols.SuperDense.{Qubits, count_of, check_ack, send_message, receive_message}
use qchat.Protocols.SuperDense.Bits.{BellLaws, pairs_of}
use qchat.Protocols.SuperDense.Runs.{
  ack, fin, length_of, acked, two_each, three_each, qubits_of, sent_all-append, sent_all-name,
  send_all_lem, receive_all_lem,
}

-- Everything that the sender sends, and everything that the receiver sends.
abbrev pub of_sender : Text → Bytes → List Message
of_sender name message =
    control spds name (length_of message)
    ∷ (two_each name (pairs_of message) ++ control spds name fin ∷ [])

abbrev pub of_receiver : Text → Bytes → List Message
of_receiver name message =
    acked name ∷ (three_each name (pairs_of message) ++ control spds name fin ∷ [])

end_protocol_lem :
    (json : Json) (name : Text) (s : Session) (ms : List Message)
    → length s.name ≤ 16
    → end_protocol json spds (expects (sent_all s ms) (control spds name fin ∷ []))
      ≡ ok (tt, expects (sent_all s (ms ++ control spds s.name fin ∷ [])) [])
unfolding end_protocol item truthy sent_all
end_protocol_lem json name s ms short =
    let same = sent_all-name s ms in
    rw
      (
        exchange_lem json spds fin fin (sent_all s ms) name [] (rw same short),
        ◌>>=◌,
        sent_all-append s ms (control spds s.name fin ∷ []),
      )
      (ap (λ n. ok (tt, expects (sent (sent_all s ms) (control spds n fin)) [])) same)

module _ (json : Json) (qubits : Qubits) (name : Text) (message : Bytes) (s : Session)
    (short : length s.name ≤ 16) where
  sender_run :
      send_message json qubits message (expects s (of_receiver name message))
      ≡ ok (qubits_of qubits (pairs_of message), expects (sent_all s (of_sender s.name message)) [])
  unfolding send_message check_ack item truthy sent_all
  sender_run =
      let s_1 = sent s (control spds s.name (length_of message)) in
      let ms = two_each s.name (pairs_of message) in
      let fins = control spds name fin ∷ [] in
      rw
        (
          exchange_lem json spds (length_of message) ack s name
              (three_each name (pairs_of message) ++ fins) short,
          ◌>>=◌,
        )
        (rw (send_all_lem json qubits name message s_1 fins short, ◌>>=◌)
          (rw (end_protocol_lem json name s_1 ms short, ◌>>=◌) refl))

  receiver_run :
      BellLaws qubits
      → All (λ b. b < 256) message
      → receive_message json qubits
          (qubits_of qubits (pairs_of message))
          (expects s (of_sender name message))
        ≡ ok (message, expects (sent_all s (of_receiver s.name message)) [])
  unfolding receive_message item count_of sent_all
  receiver_run laws small =
      let s_1 = sent s (acked s.name) in
      let ms = three_each s.name (pairs_of message) in
      let fins = control spds name fin ∷ [] in
      rw
        (
          exchange_lem json spds ack (length_of message) s name
              (two_each name (pairs_of message) ++ fins) short,
          ◌>>=◌,
        )
        (rw (receive_all_lem json qubits name laws message [] s_1 fins short small, ◌>>=◌)
          (rw (end_protocol_lem json name s_1 ms short, ◌>>=◌) refl))

-- Superdense coding, the two parties, with names of at most 16 characters, run on each other's
-- messages, over a CQC library whose gates and measurements do to the states of superdense coding what
-- quantum mechanics says: the leader sends any message of bytes, and the follower receives the pairs
-- of qubits that the leader has worked on. Each sends exactly what the other waits for, so both end,
-- and the follower has the message.
pub receive_message-send_message :
    (json : Json) (qubits : Qubits)
    → BellLaws qubits
    → (lead follow : Session) (message : Bytes) → length lead.name ≤ 16
    → length follow.name ≤ 16
    → All (λ b. b < 256) message
    → lead.ctrl_msg_q ≡ of_receiver follow.name message
    → follow.ctrl_msg_q ≡ of_sender lead.name message
    → (pairs : List qubits.Register) × (send_message json qubits message lead
        ≡ ok (pairs, expects (sent_all lead (of_sender lead.name message)) []))
      × (receive_message json qubits pairs follow
          ≡ ok (message, expects (sent_all follow (of_receiver follow.name message)) []))
receive_message-send_message json qubits laws lead follow message short_l short_f small to_lead
      to_follow =
    (
      qubits_of qubits (pairs_of message),
      ap (λ q. send_message json qubits message (expects lead q)) to_lead
          ∙ sender_run json qubits follow.name message lead short_l,
      ap (λ q. receive_message json qubits (qubits_of qubits (pairs_of message)) (expects follow q))
            to_follow
          ∙ receiver_run json qubits lead.name message follow short_f laws small,
    )
