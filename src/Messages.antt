-- ===== src/Messages.antt =====
-- qchat/messages.py: the message classes, their encoding as bytes, and `MessageFactory`.
-- Python's `json` module is a parameter.
pub mod Encoding
pub mod Bounds
use qchat.Prelude.{
  ℕ, zero, suc, ◌+◌, ◌-◌, ◌*◌, ◌/◌, ◌%◌, ◌^◌, ◌≡◌, Bool, true, false, List, [], ◌∷◌, ◌++◌, length,
  drop, replicate, Option, none, some, Result, ok, err, Error, malformed, key_error, overflow_error,
  ◌>>=◌, ◌>>◌, raise_if, ltb, leb, ◌==◌, nat_eq, list_eq, if◌then◌else◌,
}
use qchat.Prelude.Dict.{Dict, lookup}
use qchat.Value.{Text, Bytes, Value, dict, Fields, codes}
use qchat.Value.Utf8.{utf8_encode, utf8_decode}
use qchat.Value.Words.{to_bytes}

abbrev pub header_length : ℕ
header_length = 4

abbrev pub payload_size : ℕ
payload_size = 4

abbrev pub max_sender_length : ℕ
max_sender_length = 16

-- `json.dumps` and `json.loads`.
pub record Json : Type 0 where
  pub dumps : Value → Result Text
  pub loads : Text → Result Value

-- `Message` and its subclasses.
pub data Kind : Type 0 where
  mssg rgst auth qcht getu putu ptcl rqqb bb84 dqkd spds : Kind

unfoldable pub header : Kind → Bytes
header mssg = codes "MSSG"
header rgst = codes "RGST"
header auth = codes "AUTH"
header qcht = codes "QCHT"
header getu = codes "GETU"
header putu = codes "PUTU"
header ptcl = codes "PTCL"
header rqqb = codes "RQQB"
header bb84 = codes "BB84"
header dqkd = codes "DQKD"
header spds = codes "SPDS"

-- The class attributes `verify` and `strip`.
unfoldable pub verify : Kind → Bool
verify qcht = true
verify ptcl = true
verify bb84 = true
verify dqkd = true
verify spds = true
verify _ = false

unfoldable pub strip : Kind → Bool
strip qcht = true
strip getu = true
strip putu = true
strip ptcl = true
strip bb84 = true
strip dqkd = true
strip spds = true
strip _ = false

pub record Message : Type 0 where
  pub kind : Kind
  pub sender : Text
  pub message_data : Value

-- What `Message.__init__` is given as its data: a dict, a JSON text, its bytes, or anything else.
pub data Payload : Type 0 where
  fields : Fields → Payload
  text : Text → Payload
  raw : Bytes → Payload
  other : Payload

-- `except Exception: raise MalformedMessage`
abbrev pub or_malformed {ℓ} : {A : Type ℓ} → Result A → Result A
or_malformed (ok a) = ok a
or_malformed (err e) = err malformed

-- `(b'\x00'*MAX_SENDER_LENGTH + bytes(self.sender, 'utf-8'))[-16:]`
unfoldable pub padded_sender : Text → Result Bytes
padded_sender sender = do
  bs ← utf8_encode sender
  let padded = replicate max_sender_length 0 ++ bs
  ok (drop (length padded - 16) padded)

unfoldable pub message_mapping : Dict Bytes Kind
unfolding header
message_mapping =
    (header mssg, mssg)
    ∷ (header rgst, rgst)
    ∷ (header auth, auth)
    ∷ (header putu, putu)
    ∷ (header getu, getu)
    ∷ (header qcht, qcht)
    ∷ (header bb84, bb84)
    ∷ (header ptcl, ptcl)
    ∷ (header rqqb, rqqb)
    ∷ (header spds, spds)
    ∷ (header dqkd, dqkd)
    ∷ []

module _ (json : Json) where
  unfoldable pub unpack_message_data : Payload → Result Value
  unpack_message_data (fields d) = ok (dict d)
  unpack_message_data (text t) = or_malformed (json.loads t)
  unpack_message_data (raw bs) = or_malformed (utf8_decode bs >>= json.loads)
  unpack_message_data other = err malformed

  -- `Message.__init__`, for the class `kind`
  unfoldable pub init_message : Kind → Text → Payload → Result Message
  init_message kind sender payload = do
    raise_if (ltb max_sender_length (length sender)) malformed
    d ← unpack_message_data payload
    ok (record { kind = kind; sender = sender; message_data = d })

  unfoldable pub encode_message : Message → Result Bytes
  unfolding padded_sender header
  encode_message self = do
    padded ← padded_sender self.sender
    byte_data ← or_malformed (json.dumps self.message_data >>= utf8_encode)
    size ← to_bytes payload_size (length byte_data)
    ok (header self.kind ++ (padded ++ (size ++ byte_data)))

  unfoldable pub create_message : Bytes → Text → Payload → Result Message
  create_message head sender payload = elim (lookup head message_mapping) [
    | none ↦ err key_error
    | some kind ↦ init_message kind sender payload
  ]
