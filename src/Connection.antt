-- ===== src/Connection.antt =====
-- qchat/connection.py: the handler of an incoming connection and the queue of inbound messages.
-- A socket is the list of the segments in which its peer's bytes arrive, its end the peer's close;
-- `recv n` takes at most `n` bytes of the segment at hand, and none at the end.
pub mod Stream
pub mod RoundTrip
pub mod Delivered
mod Tests
use qchat.Prelude.{
  ℕ, zero, suc, ◌+◌, ◌≡◌, Bool, true, false, ◌||◌, not, List, [], ◌∷◌, ◌++◌, length, take, drop,
  Option, none, some, Result, ok, err, connection_error, index_error, no_fuel, ◌>>=◌, ◌>>◌,
  raise_if, ltb, leb, ◌==◌, nat_beq, nat_eq, list_eq, if◌then◌else◌,
}
use qchat.Prelude.Dict.{lookup}
use qchat.Value.{Text, Bytes}
use qchat.Value.Utf8.{utf8_decode}
use qchat.Value.Words.{from_bytes}
use qchat.Messages.{
  Json, Message, raw, header_length, payload_size, max_sender_length, message_mapping,
  create_message,
}

abbrev pub Socket : Type 0
Socket = List Bytes

unfoldable pub recv : ℕ → Socket → Bytes × Socket
recv n [] = ([], [])
recv n ([] ∷ segments) = recv n segments
recv n ((b ∷ seg) ∷ segments) = (take n (b ∷ seg), drop n (b ∷ seg) ∷ segments)

-- The bytes that are still to come.
unfoldable pub pending : Socket → Bytes
pending [] = []
pending (seg ∷ segments) = seg ++ pending segments

-- `padded_sender.replace(b'\x00', b'')`
unfoldable pub remove_zeros : Bytes → Bytes
remove_zeros [] = []
remove_zeros (b ∷ bs) = if b == 0 then remove_zeros bs else b ∷ remove_zeros bs

abbrev pub is_empty {ℓ} : {A : Type ℓ} → List A → Bool
is_empty [] = true
is_empty (x ∷ xs) = false

abbrev pub is_none {ℓ} : {A : Type ℓ} → Option A → Bool
is_none none = true
is_none (some a) = false

-- `while len(message_data) < data_length`, on fuel.
unfoldable pub recv_data : ℕ → ℕ → Bytes → Socket → Result (Bytes × Socket)
unfolding recv
recv_data zero data_length message_data conn = err no_fuel
recv_data (suc fuel) data_length message_data conn =
    let (bytes, conn') = recv 1024 conn in
    let rest = recv_data fuel data_length (message_data ++ bytes) conn' in
    if not (ltb (length message_data) data_length)
    then ok (message_data, conn)
    else if is_empty bytes
    then err connection_error
    else rest

module _ (json : Json) where
  -- `_handle_connection` up to the message that it hands over.
  unfoldable pub receive : Socket → Result Message
  receive conn = do
    let (header, conn_1) = recv header_length conn
    raise_if (is_none (lookup header message_mapping)) connection_error
    let (padded_sender, conn_2) = recv max_sender_length conn_1
    raise_if (not (length padded_sender == max_sender_length)) connection_error
    sender ← utf8_decode (remove_zeros padded_sender)
    raise_if (length sender == 0) connection_error
    let (size, conn_3) = recv payload_size conn_2
    raise_if (not (length size == payload_size)) connection_error
    let data_length = from_bytes size
    (message_data, conn_4) ← recv_data (suc (length (pending conn_3))) data_length [] conn_3
    let (extra, conn_5) = recv 1 conn_4
    raise_if (ltb data_length (length message_data) || not (is_empty extra)) connection_error
    create_message json header sender (raw message_data)

  -- `_handle_connection`: the queue after it, or the exception that ends its thread.
  unfoldable pub handle_connection : Socket → List Message → Result (List Message)
  unfolding receive
  handle_connection conn message_queue = do m ← receive conn; ok (message_queue ++ m ∷ [])

-- `_pop_message_from_queue`, `self.message_queue.pop(0)`
unfoldable pub pop_message_from_queue : List Message → Result (Message × List Message)
pop_message_from_queue [] = err index_error
pop_message_from_queue (m ∷ message_queue) = ok (m, message_queue)

-- `recv_message`
unfoldable pub recv_message : List Message → Result (Option Message × List Message)
unfolding pop_message_from_queue
recv_message message_queue =
    if is_empty message_queue
    then ok (none, message_queue)
    else (do (m, rest) ← pop_message_from_queue message_queue; ok (some m, rest))
