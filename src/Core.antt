-- ===== src/Core.antt =====
-- qchat/core.py: the state of a node and the steps of its handlers. The fields that `QChatClient`
-- adds stand beside those of `QChatCore`; a server leaves them as they are.
pub mod Signature
pub mod Users
pub mod Requests
pub mod Process
pub mod Startup
pub mod Threads
pub mod Signed
pub mod Delivery
pub mod Samples
mod Tests
use qchat.Prelude.{
  ℕ, Bool, true, false, ◌≡◌, ap, List, [], ◌∷◌, ◌++◌, Option, none, some, Result, ok, err, Error,
  type_error, key_error, attribute_error, unicode_error, ltb, nat_eq, list_eq, if◌then◌else◌,
}
use qchat.Prelude.Dict.{Dict, lookup, insert}
use qchat.Value.{
  Text, Bytes, Value, null, bool, int, str, bytes, arr, dict, Items, nil, cons, Fields, end, field,
  codes, get, subscript, remove,
}
use qchat.Messages.{Message}
use qchat.Mailbox.{Mailbox}
use qchat.Db.{UserDb}

pub record Node : Type 0 where
  pub name : Text
  -- `self.signer.key`
  pub signer : Bytes
  -- `self.connection.host` and `self.connection.port`
  pub host : Value
  pub port : Value
  pub root_config : Value
  pub allow_invalid_signatures : Bool
  pub user_db : UserDb
  pub control_message_queue : Dict Text (List Message)
  -- What `self.connection.send_message` has sent: host, port and bytes.
  pub wire : List (Value × Value × Bytes)
  -- `QChatClient`
  pub mailbox : Mailbox
  pub outbound_queue : List (Text × Message)

-- What the node meets outside: whether a host and port can be reached, and what the node's other
-- threads have made of its state when a thread that waits goes on.
pub record Environment : Type 0 where
  pub connect : Value → Value → Result (Unit {0})
  pub meanwhile : Node → Node

-- A handler returns or raises; what it has changed before it raises stays changed.
abbrev pub Handler : Type 0 → Type 0
Handler A = Node → Result A × Node

abbrev pub return : {A : Type 0} → A → Handler A
return a s = (ok a, s)

abbrev pub lift : {A : Type 0} → Result A → Handler A
lift r s = (r, s)

abbrev pub raise : {A : Type 0} → Error → Handler A
raise e s = (err e, s)

-- How a handler goes on after a step.
abbrev pub resume : {A B : Type 0} → (A → Handler B) → Result A × Node → Result B × Node
resume f (err e, s) = (err e, s)
resume f (ok a, s) = f a s

infixl 5 ◌>>=◌ ◌>>◌
abbrev pub ◌>>=◌ : {A B : Type 0} → Handler A → (A → Handler B) → Handler B
◌>>=◌ m f s = resume f (m s)

abbrev pub ◌>>◌ : {A B : Type 0} → Handler A → Handler B → Handler B
m >> k = m >>= λ _. k

-- A step that returns hands on its value and the node after it; one that raises ends the handler.
pub >>=-returns :
    {A B : Type 0} {a : A} {s' : Node} (m : Handler A) (f : A → Handler B) (s : Node)
    → m s ≡ (ok a, s')
    → (m >>= f) s ≡ f a s'
>>=-returns m f s h = ap (resume f) h

pub >>=-raises :
    {A B : Type 0} {e : Error} {s' : Node} (m : Handler A) (f : A → Handler B) (s : Node)
    → m s ≡ (err e, s')
    → (m >>= f) s ≡ (err e, s')
>>=-raises m f s h = ap (resume f) h

-- What a step and every way to go on keep of the node, their composition keeps.
pub resume-keeps :
    {A B : Type 0} (P : Node → Type 0) (f : A → Handler B) (r : Result A × Node)
    → P r.1
    → ((a : A) (s : Node) → P s → P (f a s).1)
    → P (resume f r).1
resume-keeps P f (err e, s) h keep = h
resume-keeps P f (ok a, s) h keep = keep a s h

abbrev pub skip : Handler (Unit {0})
skip s = (ok tt, s)

abbrev pub get_node : Handler Node
get_node s = (ok s, s)

abbrev pub set_user_db : UserDb → Handler (Unit {0})
set_user_db db s = (ok tt, record s { user_db = db })

-- `text.encode("ISO-8859-1")`
unfoldable pub encode_latin : Text → Result Bytes
encode_latin [] = ok []
encode_latin (c ∷ text) = elim (encode_latin text) [
  | err e ↦ err e
  | ok bs ↦ if ltb c 256 then ok (c ∷ bs) else err unicode_error
]

-- The same method, of a value that should be a text.
unfoldable pub encode_value : Value → Result Bytes
unfolding encode_latin
encode_value (str text) = encode_latin text
encode_value v = err attribute_error

-- `value["key"]`
unfoldable pub item : Text → Value → Result Value
unfolding subscript
item k (dict d) = subscript k d
item k v = err type_error

-- `value.pop("key")`: the value of the key, and the dict without it.
unfoldable pub pop_item : Text → Value → Result (Value × Fields)
unfolding get remove
pop_item k (dict d) = elim (get k d) [ none ↦ err key_error | some v ↦ ok (v, remove k d) ]
pop_item k (arr vs) = err type_error
pop_item k v = err attribute_error

-- A user's name: the user database is keyed by text.
unfoldable pub name_of : Value → Result Text
name_of (str text) = ok text
name_of v = err type_error

abbrev pub host_key : Text
host_key = codes "host"

abbrev pub port_key : Text
port_key = codes "port"

abbrev pub sig_key : Text
sig_key = codes "sig"

-- The value of a keyword that a method asks for, and the keywords that are left.
unfoldable pub take_keyword : Text → Fields → Result (Value × Fields)
unfolding get remove
take_keyword k d = elim (get k d) [ none ↦ err type_error | some v ↦ ok (v, remove k d) ]

unfoldable pub no_more_keywords : Fields → Result (Unit {0})
no_more_keywords end = ok tt
no_more_keywords (field k v d) = err type_error
