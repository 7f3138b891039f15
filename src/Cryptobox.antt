-- ===== src/Cryptobox.antt =====
-- qchat/cryptobox.py: the cipher, the signer and the verifier. The cryptography package is a
-- parameter: a key stands for itself as the bytes that the package exports.
use qchat.Prelude.{Bool, true, false, Result, ok, err, ◌>>=◌, ◌>>◌}
use qchat.Value.{Bytes, Value}

-- What `Crypto` of PyCryptodome offers to the code.
pub record Crypto : Type 0 where
  -- `key.publickey().exportKey()`
  pub export_public : Bytes → Bytes
  -- `RSA.import_key`
  pub import_key : Value → Result Bytes
  -- `SHA384.new`
  pub sha384 : Bytes → Bytes
  -- `pkcs1_15.new(key).sign(hash)` and `pkcs1_15.new(key).verify(hash, signature)`
  pub pkcs_sign : Bytes → Bytes → Bytes
  pub pkcs_verify : Bytes → Bytes → Bytes → Result (Unit {0})
  -- `AES.new(key, AES.MODE_GCM, nonce)`: the key, if the package takes both
  pub aes_new : Value → Bytes → Result Bytes
  -- `encrypt_and_digest`, `decrypt` and `verify` of such an object
  pub gcm_encrypt : Bytes → Bytes → Bytes → Bytes × Bytes
  pub gcm_decrypt : Bytes → Bytes → Bytes → Bytes
  pub gcm_verify : Bytes → Bytes → Bytes → Bytes → Result (Unit {0})

module _ (crypto : Crypto) where
  -- `QChatCipher(key).encrypt(plaintext)`, with the nonce that `AES.new` draws
  unfoldable pub encrypt : Value → Bytes → Bytes → Result (Bytes × Bytes × Bytes)
  encrypt key nonce plaintext = do
    aes ← crypto.aes_new key nonce
    let (ciphertext, tag) = crypto.gcm_encrypt aes nonce plaintext
    ok (nonce, ciphertext, tag)

  -- `QChatCipher(key).decrypt((nonce, ciphertext, tag))`
  unfoldable pub decrypt : Value → Bytes × Bytes × Bytes → Result Bytes
  decrypt key (nonce, ciphertext, tag) = do
    aes ← crypto.aes_new key nonce
    let plaintext = crypto.gcm_decrypt aes nonce ciphertext
    crypto.gcm_verify aes nonce ciphertext tag
    ok plaintext

  -- `QChatSigner(key).get_pub()` and `.sign(data)`
  unfoldable pub get_pub : Bytes → Bytes
  get_pub key = crypto.export_public key

  unfoldable pub sign : Bytes → Bytes → Bytes
  sign key data_ = crypto.pkcs_sign key (crypto.sha384 data_)

  -- `QChatVerifier(pubkey)`
  unfoldable pub new_verifier : Value → Result Bytes
  new_verifier pubkey = crypto.import_key pubkey

  -- `verify(data, sig)`
  unfoldable pub verify_signature : Bytes → Bytes → Bytes → Bool
  verify_signature pubkey data_ sig = elim (crypto.pkcs_verify pubkey (crypto.sha384 data_) sig) [
    | ok _ ↦ true
    | err e ↦ false
  ]
