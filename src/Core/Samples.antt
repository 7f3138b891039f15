-- ===== src/Core/Samples.antt =====
-- Nodes, messages and package functions to run the core on.
use qchat.Prelude.{[], ◌∷◌, false, ok}
use qchat.Value.{Text, null, int, pos, str, bytes, dict, Fields, end, field, codes}
use qchat.Messages.{Json}
use qchat.Mailbox.{new_mailbox}
use qchat.Cryptobox.{Crypto}
use qchat.Db.{UserDb, pub_key, message_key}
use qchat.Core.{Node, Environment, sig_key}

abbrev pub alice_name : Text
alice_name = codes "alice"

abbrev pub bob_name : Text
bob_name = codes "bob"

-- A package that signs with one byte, accepts every signature, and whose cipher does nothing.
abbrev pub toy_crypto : Crypto
toy_crypto = record {
  export_public = λ key. key;
  import_key = λ v. ok (codes "key");
  sha384 = λ bs. bs;
  pkcs_sign = λ key digest. 65 ∷ [];
  pkcs_verify = λ key digest sig. ok tt;
  aes_new = λ key nonce. ok nonce;
  gcm_encrypt = λ aes nonce plain. (plain, 66 ∷ []);
  gcm_decrypt = λ aes nonce ciphertext. ciphertext;
  gcm_verify = λ aes nonce ciphertext tag. ok tt;
}

-- A `json` module that knows one dict, the signature of that package.
abbrev pub signature : Fields
signature = field sig_key (str (65 ∷ [])) end

abbrev pub toy_json : Json
toy_json = record { dumps = λ v. ok (codes "{}"); loads = λ t. ok (dict signature) }

abbrev pub still : Environment
still = record { connect = λ host port. ok tt; meanwhile = λ s. s }

abbrev pub node : Text → UserDb → Node
node name db = record {
  name = name;
  signer = codes "key";
  host = str (codes "localhost");
  port = int (pos 8000);
  root_config = null;
  allow_invalid_signatures = false;
  user_db = db;
  control_message_queue = [];
  wire = [];
  mailbox = new_mailbox;
  outbound_queue = [];
}

-- Bob's node, which knows Alice's public key and a message key.
abbrev pub alice_record : Fields
alice_record = field pub_key (bytes (codes "key")) (field message_key (bytes (9 ∷ [])) end)

abbrev pub bob : Node
bob = node bob_name ((alice_name, alice_record) ∷ [])
