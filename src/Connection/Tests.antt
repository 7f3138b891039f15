-- ===== src/Connection/Tests.antt =====
-- A message on its way from one connection to another.
use qchat.Prelude.{
  ℕ, ◌+◌, ◌≤◌, ◌<◌, ◌≡◌, refl, List, [], ◌∷◌, ◌++◌, take, drop, length, replicate, Result, ok, err,
  connection_error, overflow_error, no_fuel, ◌≢◌, ◌⊎◌, All, arith,
}
use qchat.Value.{Bytes, Value, dict, end, codes}
use qchat.Messages.{Json, Message, mssg, encode_message}
use qchat.Messages.Encoding.{IsSendable}
use qchat.Connection.{recv_data, Socket, pending, handle_connection}
use qchat.Connection.RoundTrip.{handle_connection-encode_message}
use qchat.Connection.Delivered.{Carries, handle_connection_sound, handle_connection_split_header}
use qchat.Connection.Stream.{recv_data_terminates}
use qchat.Messages.Bounds.{encode_message_bounds}
use qchat.Value.Utf8.{utf8_encode}

-- A `json` module that knows the empty dict alone.
abbrev empty_json : Json
empty_json = record { dumps = λ v. ok (codes "{}"); loads = λ t. ok (dict end) }

abbrev hello : Message
hello = record { kind = mssg; sender = codes "alice"; message_data = dict end }

abbrev wire : Bytes
wire = codes "MSSG" ++ (replicate 11 0 ++ codes "alice" ++ (0 ∷ 0 ∷ 0 ∷ 2 ∷ codes "{}"))

-- The wire, cut after its first byte of data.
abbrev first : Bytes
first = take 25 wire

abbrev second : Bytes
second = drop 25 wire

hello-IsSendable : IsSendable empty_json hello
unfolding qchat.Value.Utf8.utf8_encode
hello-IsSendable = record {
  name = codes "alice";
  content = codes "{}";
  sender_text = ground arith;
  sender_plain = omega arith;
  sender_some = omega arith;
  named = refl;
  short = omega arith;
  written = refl;
  content_text = ground arith;
  read_back = refl;
}

hello_encoded : encode_message empty_json hello ≡ ok wire
unfolding encode_message qchat.Value.Utf8.utf8_encode qchat.Value.Words.to_bytes
hello_encoded = refl

arrived : pending (first ∷ second ∷ []) ≡ wire
unfolding pending
arrived = refl

handle_connection-encode_message_example :
    handle_connection empty_json (first ∷ second ∷ []) [] ≡ ok (hello ∷ [])
handle_connection-encode_message_example =
    handle_connection-encode_message empty_json hello wire first (second ∷ []) [] hello-IsSendable
      hello_encoded arrived (omega arith)

handled : handle_connection empty_json (first ∷ second ∷ []) [] ≡ ok (hello ∷ [])
unfolding handle_connection qchat.Prelude.Dict.lookup qchat.Messages.message_mapping
    qchat.Connection.recv qchat.Value.Utf8.utf8_decode qchat.Connection.remove_zeros
    qchat.Connection.recv_data qchat.Value.Words.from_bytes pending qchat.Messages.create_message
    qchat.Messages.init_message qchat.Messages.unpack_message_data
handled = refl

handle_connection_sound_example :
    (m : Message) × (hello ∷ [] ≡ [] ++ m ∷ [])
    × Carries empty_json (pending (first ∷ second ∷ [])) m
handle_connection_sound_example =
    handle_connection_sound empty_json (first ∷ second ∷ []) [] (hello ∷ []) handled

handle_connection_split_header_example :
    handle_connection empty_json (take 2 wire ∷ drop 2 wire ∷ []) [] ≡ err connection_error
handle_connection_split_header_example =
    handle_connection_split_header empty_json (take 2 wire) (drop 2 wire ∷ []) [] (omega arith)
      (omega arith)

content_encoded : utf8_encode (codes "{}") ≡ ok (codes "{}")
unfolding utf8_encode
content_encoded = refl

encode_message_bounds_example :
    ((2 < 4294967296)
      × (bs : Bytes) × (encode_message empty_json hello ≡ ok bs)
      × (length bs ≡ 26)
      × All (λ b. b < 256) bs)
    ⊎ ((4294967296 ≤ 2) × (encode_message empty_json hello ≡ err overflow_error))
unfolding hello-IsSendable
encode_message_bounds_example =
    encode_message_bounds empty_json hello hello-IsSendable (codes "{}") content_encoded

recv_data_terminates_example :
    recv_data 52 2 [] ((1 ∷ []) ∷ drop 1 wire ∷ (2 ∷ replicate 24 0) ∷ []) ≢ err no_fuel
unfolding pending
recv_data_terminates_example =
    recv_data_terminates 2 [] ((1 ∷ []) ∷ drop 1 wire ∷ (2 ∷ replicate 24 0) ∷ [])
