-- ===== src/Protocols/SuperDense.antt =====
-- qchat/protocols.py, `QChatMessageProtocol` and `SuperDenseCoding`. The gates and the measurements are
-- CQC's: the sender gives the pairs of qubits that it makes and works on, in order, and the receiver
-- takes these pairs.
pub mod Bits
pub mod Runs
pub mod Agreement
mod Tests
use qchat.Prelude.{
  ℕ, zero, suc, ◌+◌, ◌*◌, ◌/◌, ◌%◌, ◌^◌, Bool, true, false, not, List, [], ◌∷◌, ◌++◌, length,
  Result, ok, err, exception, type_error, ◌==◌, nat_eq, if◌then◌else◌,
}
use qchat.Value.{Text, Bytes, Value, bool, int, str, pos, negsuc, Fields, end, field, codes}
use qchat.Value.Words.{to_bytes}
use qchat.Messages.{Json, Kind, ptcl, spds, Message}
use qchat.Protocols.{
  Action, return, lift, ◌>>=◌, ◌>>◌, abort_if, item, truthy, is_ack, wait_for_control_message,
  send_control_message, exchange_messages, end_protocol,
}

-- `(b >> k) & 1`
abbrev pub bit : ℕ → ℕ → ℕ
bit b k = b / 2 ^ k % 2

-- `range(4)`
abbrev pub positions : List ℕ
positions = 0 ∷ 1 ∷ 2 ∷ 3 ∷ []

-- CQC's operations on a pair of qubits that the parties share, on the state of the pair: the sender's
-- half is `qa`, the receiver's is `qb`.
pub record Qubits : Type 1 where
  pub Register : Type 0
  pub create_epr : Register
  pub x : Register → Register
  pub z : Register → Register
  pub cnot : Register → Register
  pub h : Register → Register
  pub measure_a : Register → ℕ × Register
  pub measure_b : Register → ℕ × Register

-- What a pair of qubits carries: `b1`, then `b2`.
abbrev pub Pair : Type 0
Pair = ℕ × ℕ

-- `range(message_length)`, for a value of the peer's
unfoldable pub count_of : Value → Result ℕ
count_of (int (pos n)) = ok n
count_of (int (negsuc n)) = ok 0
count_of (bool true) = ok 1
count_of (bool false) = ok 0
count_of v = err type_error

-- `recvEPR` and `recvQubit`: the peer's next pair. With none left to come, the device raises.
unfoldable pub next_pair : {R : Type 0} → List R → Result (R × List R)
next_pair [] = err exception
next_pair (r ∷ pairs) = ok (r, pairs)

-- The sender's gates: `X` if `b2` is set, `Z` if `b1` is.
unfoldable pub encode_pair : (qubits : Qubits) → ℕ → ℕ → qubits.Register → qubits.Register
encode_pair qubits b1 b2 qa =
    let flipped = if b2 == 0 then qa else qubits.x qa in
    if b1 == 0 then flipped else qubits.z flipped

-- The receiver's gates and measurements: `b1`, then `b2`.
unfoldable pub decode_pair : (qubits : Qubits) → qubits.Register → Pair
decode_pair qubits pair =
    let (b1, rest) = qubits.measure_a (qubits.h (qubits.cnot pair)) in
    (b1, (qubits.measure_b rest).0)

module _ (json : Json) where
  -- `QChatMessageProtocol._lead_protocol`, for the protocol of the given name and message class
  unfoldable pub lead_message_protocol : Text → Kind → Action (Unit {0})
  unfolding send_control_message wait_for_control_message is_ack
  lead_message_protocol name message_type = do
    send_control_message json (field (codes "name") (str name) end) ptcl
    response ← wait_for_control_message message_type
    ack ← lift (item (codes "ACK") response.message_data)
    abort_if (not (is_ack ack))

  -- `if not m.data["ack"]: raise`
  unfoldable pub check_ack : Message → Action (Unit {0})
  unfolding item truthy
  check_ack m = do
    acknowledged ← lift (item (codes "ack") m.message_data)
    abort_if (not (truthy acknowledged))

  -- An exchange of acknowledgements.
  unfoldable pub exchange_acks : Action (Unit {0})
  unfolding exchange_messages check_ack
  exchange_acks = do
    m ← exchange_messages json (field (codes "ack") (bool true) end) spds
    check_ack m

module _ (json : Json) (qubits : Qubits) where
  -- The body of `for p in range(4)`.
  unfoldable pub send_pair : ℕ → ℕ → Action qubits.Register
  unfolding encode_pair exchange_acks wait_for_control_message check_ack
  send_pair b p = do
    let b2 = bit b (2 * p)
    let b1 = bit b (2 * p + 1)
    let epr = qubits.create_epr
    exchange_acks json
    let qa = encode_pair qubits b1 b2 epr
    exchange_acks json
    m ← wait_for_control_message spds
    check_ack json m
    return qa

  unfoldable pub send_byte : ℕ → List ℕ → Action (List qubits.Register)
  unfolding send_pair
  send_byte b [] = return []
  send_byte b (p ∷ ps) = do pair ← send_pair b p; rest ← send_byte b ps; return (pair ∷ rest)

  unfoldable pub send_all : Bytes → Action (List qubits.Register)
  unfolding send_byte
  send_all [] = return []
  send_all (b ∷ message) = do
    pairs ← send_byte b positions
    rest ← send_all message
    return (pairs ++ rest)

  -- `send_message`: the pairs of qubits that it sends, in order.
  unfoldable pub send_message : Bytes → Action (List qubits.Register)
  unfolding exchange_messages check_ack send_all end_protocol
  send_message message = do
    m ←
        exchange_messages json (field (codes "message_length") (int (pos (length message))) end)
          spds
    check_ack json m
    pairs ← send_all message
    end_protocol json spds
    return pairs

  -- The loop over `p` of `receive_message`. The bits of `b` at the new places are 0 before, so that
  -- `|=` adds.
  unfoldable pub receive_byte :
      List ℕ → ℕ → List qubits.Register → Action (ℕ × List qubits.Register)
  unfolding exchange_acks next_pair decode_pair send_control_message
  receive_byte [] b pairs = return (b, pairs)
  receive_byte (p ∷ ps) b pairs = do
    exchange_acks json
    exchange_acks json
    (qa_qb, rest) ← lift (next_pair pairs)
    let (b1, b2) = decode_pair qubits qa_qb
    send_control_message json (field (codes "ack") (bool true) end) spds
    receive_byte ps (b + b2 * 2 ^ (2 * p) + b1 * 2 ^ (2 * p + 1)) rest

  unfoldable pub receive_all : ℕ → Bytes → List qubits.Register → Action Bytes
  unfolding receive_byte
  receive_all zero message pairs = return message
  receive_all (suc n) message pairs = do
    (b, rest) ← receive_byte positions 0 pairs
    byte ← lift (to_bytes 1 b)
    receive_all n (message ++ byte) rest

  -- `receive_message`, given the pairs of qubits that come
  unfoldable pub receive_message : List qubits.Register → Action Bytes
  unfolding exchange_messages item count_of receive_all end_protocol
  receive_message pairs = do
    m ← exchange_messages json (field (codes "ack") (bool true) end) spds
    message_length ← lift (item (codes "message_length") m.message_data)
    n ← lift (count_of message_length)
    message ← receive_all n [] pairs
    end_protocol json spds
    return message
