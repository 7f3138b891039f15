-- ===== src/Db.antt =====
-- qchat/db.py: `UserDB`, a dict of dicts. A method that raises after it has written returns what is
-- written; the log and the lock, which no method takes, are left out.
pub mod Records
pub mod Invariant
pub mod Deletion
pub mod Refinement
pub mod Public
mod Tests
use qchat.Prelude.{
  ℕ, ◌≡◌, Bool, true, false, List, [], ◌∷◌, Option, none, some, Result, ok, err, key_error,
  attribute_error, db_exception, ◌>>=◌, ◌==◌, nat_eq, list_eq, if◌then◌else◌,
}
use qchat.Prelude.Dict.{Dict, lookup, insert, erase}
use qchat.Value.{
  Text, Bytes, Value, null, str, bytes, arr, dict, Items, nil, cons, Fields, end, field, codes, get,
  remove, update,
}

abbrev pub UserDb : Type 0
UserDb = Dict Text Fields

abbrev pub pub_key : Text
pub_key = codes "pub"

abbrev pub connection : Text
connection = codes "connection"

abbrev pub message_key : Text
message_key = codes "message_key"

abbrev pub user_key : Text
user_key = codes "user"

-- The name that asks for every user.
abbrev pub everyone : Text
everyone = codes "*"

unfoldable pub get_user : Text → UserDb → Option Fields
unfolding lookup
get_user user db = lookup user db

unfoldable pub has_user : Text → UserDb → Bool
unfolding get_user
has_user user db = elim (get_user user db) [ none ↦ false | some _ ↦ true ]

-- The record of a user; `if not info` holds of an empty one too.
unfoldable pub known_info : Option Fields → Result Fields
known_info none = err db_exception
known_info (some end) = err db_exception
known_info (some (field k v d)) = ok (field k v d)

-- `info.get(...)` gives `None`, which is `null`, for a key that is not there.
unfoldable pub get_or_null : Text → Fields → Value
unfolding get
get_or_null k d = elim (get k d) [ none ↦ null | some v ↦ v ]

unfoldable pub get_public_key : Text → UserDb → Result Value
unfolding get_user known_info get_or_null
get_public_key user db = do info ← known_info (get_user user db); ok (get_or_null pub_key info)

unfoldable pub get_message_key : Text → UserDb → Result Value
unfolding get_user known_info get_or_null
get_message_key user db = do info ← known_info (get_user user db); ok (get_or_null message_key info)

unfoldable pub get_connection_info : Text → UserDb → Result Value
unfolding get_user known_info get_or_null
get_connection_info user db = do
  info ← known_info (get_user user db)
  ok (get_or_null connection info)

-- `for field in fields: info.pop(field)`: the record after the loop, and how the loop ended.
unfoldable pub pop_fields : List Text → Fields → Fields × Result (Unit {0})
unfolding get remove
pop_fields [] info = (info, ok tt)
pop_fields (k ∷ ks) info =
    let rest = pop_fields ks (remove k info) in
    elim (get k info) [ none ↦ (info, err key_error) | some _ ↦ rest ]

unfoldable pub delete_user_info : Text → List Text → UserDb → UserDb × Result (Unit {0})
unfolding get_user known_info pop_fields insert
delete_user_info user ks db = elim (known_info (get_user user db)) [
  | err e ↦ (db, err e)
  | ok info ↦ let (info', r) = pop_fields ks info in (insert user info' db, r)
]

unfoldable pub delete_user : Text → UserDb → Result UserDb
unfolding get_user erase
delete_user user db = elim (get_user user db) [ none ↦ err key_error | some _ ↦ ok (erase user db) ]

-- `self.db[user]`, which makes an empty record for a new user.
unfoldable pub info_or_new : Text → UserDb → Fields
unfolding get_user
info_or_new user db = elim (get_user user db) [ none ↦ end | some info ↦ info ]

unfoldable pub add_user : Text → Fields → UserDb → UserDb
unfolding info_or_new update insert
add_user user kwargs db = insert user (update (info_or_new user db) kwargs) db

unfoldable pub change_user_info : Text → Fields → UserDb → UserDb
unfolding has_user info_or_new update insert
change_user_info user kwargs db =
    if has_user user db then insert user (update (info_or_new user db) kwargs) db else db

-- `.decode("ISO-8859-1")`, which maps each byte to the code point of that number.
unfoldable pub decode_latin : Value → Result Value
decode_latin (bytes bs) = ok (str bs)
decode_latin v = err attribute_error

unfoldable pub public_info : Text → UserDb → Result Fields
unfolding get_connection_info get_public_key decode_latin
public_info user db = do
  conn ← get_connection_info user db
  key ← get_public_key user db
  decoded ← decode_latin key
  ok (field connection conn (field pub_key decoded (field user_key (str user) end)))

unfoldable pub public_infos : List Text → UserDb → Result Items
unfolding public_info
public_infos [] db = ok nil
public_infos (user ∷ users) db = do
  info ← public_info user db
  infos ← public_infos users db
  ok (cons (dict info) infos)

-- `for user in self.db`
unfoldable pub users_of : UserDb → List Text
users_of [] = []
users_of ((user, info) ∷ db) = user ∷ users_of db

unfoldable pub get_public_user_info : Text → UserDb → Result Fields
unfolding public_infos users_of
get_public_user_info user db =
    if user == everyone
    then (do
      infos ← public_infos (users_of db) db
      ok (field user_key (str everyone) (field (codes "info") (arr infos) end)))
    else public_info user db
