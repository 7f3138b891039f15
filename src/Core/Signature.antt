-- ===== src/Core/Signature.antt =====
-- qchat/core.py: signing a message, taking the signature off, and checking it.
use qchat.Prelude.{not, Result, ok, err, ◌>>=◌, raise_if, type_error, exception}
use qchat.Value.{Text, Bytes, Value, str, dict, put}
use qchat.Messages.{Json, Message, encode_message}
use qchat.Cryptobox.{Crypto, sign, new_verifier, verify_signature}
use qchat.Db.{UserDb, get_public_key}
use qchat.Core.{sig_key, pop_item, encode_value}

-- `message.data["sig"] = ...`
unfoldable pub set_item : Text → Value → Value → Result Value
unfolding put
set_item k v (dict d) = ok (dict (put k v d))
set_item k v data_ = err type_error

-- `_strip_signature`
unfoldable pub strip_signature : Message → Result (Message × Bytes)
unfolding pop_item encode_value
strip_signature message = do
  (sig, rest) ← pop_item sig_key message.message_data
  signature ← encode_value sig
  ok (record message { message_data = dict rest }, signature)

module _ (json : Json) (crypto : Crypto) where
  -- `_sign_message`, with the node's signing key
  unfoldable pub sign_message : Bytes → Message → Result Message
  unfolding sign set_item encode_message
  sign_message key message = do
    bs ← encode_message json message
    data_ ← set_item sig_key (str (sign crypto key bs)) message.message_data
    ok (record message { message_data = data_ })

  -- `_verify_message`
  unfoldable pub verify_message : UserDb → Message → Bytes → Result (Unit {0})
  unfolding encode_message get_public_key new_verifier verify_signature
  verify_message db message signature = do
    data_ ← encode_message json message
    pub_ ← get_public_key message.sender db
    verifier ← new_verifier crypto pub_
    raise_if (not (verify_signature crypto verifier data_ signature)) exception
