-- ===== src/Device/Runs.antt =====
-- qchat/protocols.py, `_receive_bb84_states`: one party's qubits on its peer's acknowledgements.
use qchat.Prelude.{
  arith, ℕ, zero, suc, ◌≤◌, ◌≡◌, refl, ap, sym, ◌∙◌, true, not, List, [], ◌∷◌, ◌++◌, length, map,
  ok, ok-injective, nat_eq, ◌==◌, le→ltb, if◌then◌else◌,
}
use qchat.Value.{Text, Bytes, Value, bool, str, Fields, end, field, codes}
use qchat.Value.Utf8.{utf8_encode}
use qchat.Messages.{Json, bb84, rqqb, Message, init_message, unpack_message_data, encode_message}
use qchat.Protocols.{
  Role, leader, follower, Session, Action, return, >>=-ok, ◌>>=◌, item, truthy, randint, get_role,
}
use qchat.Protocols.Messaging.{control, expects, sent, sent_all, exchange_lem}
use qchat.Protocols.Joint.{IsLocal, more, >>=-IsLocal}
use qchat.Protocols.Joint.Local.{
  lift-IsLocal, return-IsLocal, abort_if-IsLocal, get_role-IsLocal, randint-IsLocal,
  exchange-IsLocal,
}
use qchat.Device.{Cqc, Relay, try_to_receive, request_epr, receive_epr, exchange_ready}
use qchat.Device.Outcomes.{request_as_leader, receive_qubits}

-- A library whose calls return: both ways to get a qubit give one, a measurement gives the session's
-- next number, and messages are delivered.
pub record Works (cqc : Cqc) : Type 0 where
  pub epr : cqc.Qubit
  pub qubit : cqc.Qubit
  pub receives_epr : (s : Session) → cqc.recv_epr s ≡ ok (epr, s)
  pub receives_qubit : (s : Session) → cqc.recv_qubit s ≡ ok (qubit, s)
  pub measures : (q : cqc.Qubit) (s : Session) → cqc.measure q s ≡ randint s
  pub delivers :
      (host port : Value) (message : Bytes) (s : Session)
      → cqc.send_message host port message s ≡ ok (tt, s)

-- Requests for pairs can be written as messages.
abbrev pub EncodesRequests : Json → Type 0
EncodesRequests json =
    (name user : Text) (coded : Bytes)
    → length name ≤ 16
    → utf8_encode name ≡ ok coded
    → length user ≤ 16
    → (bs : Bytes) × (encode_message json (control rqqb name (field (codes "user") (str user) end))
        ≡ ok bs)

steady-IsLocal : {A : Type 0} (m : Action A) (a : A) → ((s : Session) → m s ≡ ok (a, s)) → IsLocal m
steady-IsLocal m a law s rest b s' h =
    law (more s rest) ∙ ap (λ r. return r.0 (more r.1 rest)) (ok-injective (sym (law s) ∙ h))

abbrev ack : Fields
ack = field (codes "ack") (bool true) end

abbrev pub acked : Text → Message
acked name = control bb84 name ack

-- An acknowledgement for every qubit.
unfoldable pub acks : Text → List (ℕ × ℕ) → List Message
acks name [] = []
acks name (p ∷ ps) = acked name ∷ acks name ps

-- The numbers of a round: the basis and the outcome of every qubit.
unfoldable pub draws : List (ℕ × ℕ) → List ℕ → List ℕ
draws [] ns = ns
draws (p ∷ ps) ns = p.0 ∷ p.1 ∷ draws ps ns

abbrev pub outcomes : List (ℕ × ℕ) → List ℕ
outcomes ps = map (λ p. p.1) ps

abbrev pub thetas : List (ℕ × ℕ) → List ℕ
thetas ps = map (λ p. p.0) ps

module _ (json : Json) (cqc : Cqc) (relay : Relay) (works : Works cqc) where
  request-IsLocal : (r : Role) → IsLocal (request_as_leader json cqc relay r)
  unfolding request_as_leader request_epr
  request-IsLocal leader s rest a s' h =
      >>=-IsLocal _ _ (lift-IsLocal _)
        (λ m. >>=-IsLocal _ _ (lift-IsLocal (encode_message json m)) (λ bs.
          steady-IsLocal (cqc.send_message relay.relay_host relay.relay_port bs) tt
            (works.delivers relay.relay_host relay.relay_port bs)))
        s rest a s' h
  request-IsLocal follower s rest a s' h = return-IsLocal tt s rest a s' h

  -- A device gets the qubit of its role.
  qubit_of : Role → cqc.Qubit
  qubit_of leader = works.epr
  qubit_of follower = works.qubit

  module _ (tries : ℕ) (some_tries : relay.attempts ≡ suc tries) where
    receive_epr_lem : (r : Role) (s : Session) → receive_epr json cqc relay r s ≡ ok (qubit_of r, s)
    unfolding receive_epr try_to_receive qubit_of
    receive_epr_lem leader s = rw some_tries (rw (works.receives_epr s, try_to_receive) refl)
    receive_epr_lem follower s = rw some_tries (rw (works.receives_qubit s, try_to_receive) refl)

    measure-IsLocal : (q : cqc.Qubit) → IsLocal (cqc.measure q)
    measure-IsLocal q s rest b s' h =
        works.measures q (more s rest) ∙ randint-IsLocal s rest b s' (sym (works.measures q s) ∙ h)

    exchange_ready-IsLocal : IsLocal (exchange_ready json cqc relay bb84)
    unfolding exchange_ready
    exchange_ready-IsLocal = >>=-IsLocal _ _ (exchange-IsLocal json ack bb84) λ r.
        >>=-IsLocal _ _ (lift-IsLocal (item (codes "ack") r.message_data))
          λ v. abort_if-IsLocal (not (truthy v))

    pub receive_qubits-IsLocal : (n : ℕ) → IsLocal (receive_qubits json cqc relay n)
    unfolding receive_qubits
    receive_qubits-IsLocal zero = return-IsLocal ([], [])
    receive_qubits-IsLocal (suc n) = >>=-IsLocal get_role _ get_role-IsLocal λ role.
        >>=-IsLocal _ _ (request-IsLocal role) λ _.
          >>=-IsLocal _ _
            (steady-IsLocal (receive_epr json cqc relay role) (qubit_of role)
              (receive_epr_lem role))
            λ q. >>=-IsLocal randint _ randint-IsLocal λ basisflip.
              >>=-IsLocal _ _ (measure-IsLocal (if basisflip == 0 then q else cqc.h q)) λ outcome.
                >>=-IsLocal _ _ exchange_ready-IsLocal λ _.
                  >>=-IsLocal _ _ (receive_qubits-IsLocal n)
                    λ r. return-IsLocal (outcome ∷ r.0, basisflip ∷ r.1)

    exchange_ready_lem :
        (s : Session) (name : Text) (rest : List Message)
        → length s.name ≤ 16
        → exchange_ready json cqc relay bb84 (expects s (acked name ∷ rest))
          ≡ ok (tt, expects (sent s (acked s.name)) rest)
    unfolding exchange_ready item truthy
    exchange_ready_lem s name rest short =
        rw (exchange_lem json bb84 ack ack s name rest short, ◌>>=◌) refl

    -- A party's round of qubits: its numbers are the bases and the outcomes, and for every qubit it
    -- waits for an acknowledgement of its peer and sends one.
    pub receive_qubits_lem :
        (ps : List (ℕ × ℕ)) (ns : List ℕ) (name : Text) (rest : List Message) (s : Session)
        → length s.name ≤ 16
        → ((q : List Message) (out : List (Text × Message)) (l : List ℕ)
            → request_as_leader json cqc relay s.role
                (record s { ctrl_msg_q = q; outbound_q = out; randoms = l })
              ≡ ok (tt, record s { ctrl_msg_q = q; outbound_q = out; randoms = l }))
        → receive_qubits json cqc relay
            (length ps)
            (record s { ctrl_msg_q = acks name ps ++ rest; randoms = draws ps ns })
          ≡ ok (
            (outcomes ps, thetas ps),
            expects (sent_all (record s { randoms = ns }) (acks s.name ps)) rest,
          )
    unfolding receive_qubits acks draws sent_all get_role randint
    receive_qubits_lem [] ns name rest s short asks = refl
    receive_qubits_lem (p ∷ ps) ns name rest s short asks =
        let q = acked name ∷ (acks name ps ++ rest) in
        let role = s.role in
        let here : List ℕ → Session = λ l. record s { ctrl_msg_q = q; randoms = l } in
        let all = p.0 ∷ p.1 ∷ draws ps ns in
        let got = qubit_of role in
        let turned : ℕ → cqc.Qubit → cqc.Qubit = λ b h. if b == 0 then h else cqc.h h in
        let k_6 : ℕ → ℕ → List ℕ × List ℕ → Action (List ℕ × List ℕ) =
          λ b o r. return (o ∷ r.0, b ∷ r.1) in
        let k_5 : ℕ → ℕ → Unit {0} → Action (List ℕ × List ℕ) =
          λ b o u. receive_qubits json cqc relay (length ps) >>= k_6 b o in
        let k_4 : ℕ → ℕ → Action (List ℕ × List ℕ) =
          λ b o. exchange_ready json cqc relay bb84 >>= k_5 b o in
        let k_3 : cqc.Qubit → ℕ → Action (List ℕ × List ℕ) =
          λ h b. cqc.measure (turned b h) >>= k_4 b in
        let k_2 : cqc.Qubit → Action (List ℕ × List ℕ) = λ h. randint >>= k_3 h in
        >>=-ok (request_as_leader json cqc relay role)
          (λ u. receive_epr json cqc relay role >>= k_2) (here all) (asks q s.outbound_q all)
        ∙ >>=-ok (receive_epr json cqc relay role) k_2 (here all) (receive_epr_lem role (here all))
        ∙ >>=-ok (cqc.measure (turned p.0 got)) (k_4 p.0) (here (p.1 ∷ draws ps ns))
            (works.measures (turned p.0 got) (here (p.1 ∷ draws ps ns)))
        ∙ >>=-ok (exchange_ready json cqc relay bb84) (k_5 p.0 p.1) (here (draws ps ns)) (
            exchange_ready_lem (record s { randoms = draws ps ns }) name (acks name ps ++ rest)
              short)
        ∙ >>=-ok (receive_qubits json cqc relay (length ps)) (k_6 p.0 p.1)
            (record (sent s (acked s.name)) {
              ctrl_msg_q = acks name ps ++ rest;
              randoms = draws ps ns;
            })
            (receive_qubits_lem ps ns name rest (sent s (acked s.name)) short
              (λ q_1 out l. asks q_1 out l))

    -- A leader's request, when it can be written.
    pub request_lem :
        (r : Role) (s : Session) (bs : Bytes)
        → length s.name ≤ 16
        → encode_message json (control rqqb s.name (field (codes "user") (str s.peer) end)) ≡ ok bs
        → request_as_leader json cqc relay r s ≡ ok (tt, s)
    unfolding request_as_leader request_epr init_message unpack_message_data
    request_lem leader s bs short coded =
        rw (le→ltb 16 (length s.name) short)
          (rw (coded, ◌>>=◌) (works.delivers relay.relay_host relay.relay_port bs s))
    request_lem follower s bs short coded = refl

    -- A follower asks for nothing.
    pub request_follower :
        (r : Role) (s : Session) → r ≡ follower → request_as_leader json cqc relay r s ≡ ok (tt, s)
    unfolding request_as_leader
    request_follower leader s h = absurd cc
    request_follower follower s h = refl

pub acks-length :
    (name : Text) (ps qs : List (ℕ × ℕ)) → length ps ≡ length qs → acks name ps ≡ acks name qs
unfolding acks
acks-length name [] [] h = refl
acks-length name [] (q ∷ qs) h = absurd (omega arith)
acks-length name (p ∷ ps) [] h = absurd (omega arith)
acks-length name (p ∷ ps) (q ∷ qs) h =
    ap (λ ms. acked name ∷ ms) (acks-length name ps qs (omega arith))
