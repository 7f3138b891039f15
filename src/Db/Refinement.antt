-- ===== src/Db/Refinement.antt =====
-- qchat/db.py, `UserDB`, against maps from users to records, which know no order: any sequence of the
-- calls that change the database.
use qchat.Prelude.{
  List, [], ◌∷◌, Option, none, some, Result, ok, err, key_error, ◌==◌, nat_eq, list_eq,
  if◌then◌else◌,
}
use qchat.Value.{Text, Fields, end, update}
use qchat.Db.{
  UserDb, get_user, known_info, pop_fields, add_user, change_user_info, delete_user_info,
  delete_user,
}

-- The calls that change the database.
pub data Update : Type 0 where
  add change : Text → Fields → Update
  delete_info : Text → List Text → Update
  delete : Text → Update

-- How a call ends, and the database after it, also after one that raises.
unfoldable pub apply_update : Update → UserDb → Result (Unit {0}) × UserDb
unfolding add_user change_user_info delete_user_info delete_user
apply_update (add user kwargs) db = (ok tt, add_user user kwargs db)
apply_update (change user kwargs) db = (ok tt, change_user_info user kwargs db)
apply_update (delete_info user ks) db = let (db', r) = delete_user_info user ks db in (r, db')
apply_update (delete user) db = elim (delete_user user db) [
  | ok db' ↦ (ok tt, db')
  | err e ↦ (err e, db)
]

unfoldable pub apply_updates : List Update → UserDb → List (Result (Unit {0})) × UserDb
unfolding apply_update
apply_updates [] db = ([], db)
apply_updates (u ∷ us) db =
    let (r, db') = apply_update u db in let (rs, db'') = apply_updates us db' in (r ∷ rs, db'')

-- The users and their records, without an order.
abbrev pub Users : Type 0
Users = Text → Option Fields

abbrev pub set : Text → Option Fields → Users → Users
set user info users other = if other == user then info else users other

abbrev pub record_of : Option Fields → Fields
record_of none = end
record_of (some info) = info

-- What each call means: it reads and sets the one user's record.
unfoldable pub abstract_update : Update → Users → Result (Unit {0}) × Users
unfolding update known_info pop_fields
abstract_update (add user kwargs) users =
    (ok tt, set user (some (update (record_of (users user)) kwargs)) users)
abstract_update (change user kwargs) users = elim (users user) [
  | none ↦ (ok tt, users)
  | some info ↦ (ok tt, set user (some (update info kwargs)) users)
]
abstract_update (delete_info user ks) users = elim (known_info (users user)) [
  | err e ↦ (err e, users)
  | ok info ↦ ((pop_fields ks info).1, set user (some (pop_fields ks info).0) users)
]
abstract_update (delete user) users = elim (users user) [
  | none ↦ (err key_error, users)
  | some info ↦ (ok tt, set user none users)
]

unfoldable pub abstract_updates : List Update → Users → List (Result (Unit {0})) × Users
unfolding abstract_update
abstract_updates [] users = ([], users)
abstract_updates (u ∷ us) users =
    let (r, users') = abstract_update u users in
    let (rs, users'') = abstract_updates us users' in (r ∷ rs, users'')

abbrev pub view : UserDb → Users
view db user = get_user user db

-- A call's result with its database as a map.
abbrev seen : Result (Unit {0}) × UserDb → Result (Unit {0}) × Users
seen q = (q.0, view q.1)
