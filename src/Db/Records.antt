-- ===== src/Db/Records.antt =====
-- Reading after writing: what each method that changes the database leaves behind.
use qchat.Prelude.{
  ◌≡◌, refl, ◌&&◌, Option, none, some, ◌==◌, nat_eq, list_eq, if◌then◌else◌, arith, list_beq_iff,
}
use qchat.Prelude.Dict.{lookup-insert}
use qchat.Value.{Text, Value, Fields, end, field, get, put, update, get-put, HasKeysOnce}
use qchat.Db.{UserDb, get_user, has_user, info_or_new, add_user, change_user_info}

-- One value over another: the newer one, if there is one.
abbrev pub or_else : Option Value → Option Value → Option Value
or_else none v = v
or_else (some w) v = some w

pub get-update :
    (k : Text) (d e : Fields) → HasKeysOnce e → get k (update d e) ≡ or_else (get k e) (get k d)
unfolding get update
get-update k d end once = refl
get-update k d (field j v e) once =
    ground (arith, get-update k (put j v d) e once.1, get-put j k v d, list_beq_iff k j)

-- A record after `addUser`: the new data over the old; every other record is as it was.
pub get_user-add_user :
    (user other : Text) (kwargs : Fields) (db : UserDb)
    → get_user other (add_user user kwargs db)
      ≡ (if other == user then some (update (info_or_new user db) kwargs) else get_user other db)
unfolding get_user add_user
get_user-add_user user other kwargs db = lookup-insert user other _ db

pub get_user-change_user_info :
    (user other : Text) (kwargs : Fields) (db : UserDb)
    → get_user other (change_user_info user kwargs db) ≡ (
        if has_user user db && other == user
        then some (update (info_or_new user db) kwargs)
        else get_user other db)
unfolding change_user_info get_user
get_user-change_user_info user other kwargs db =
    ground (arith, lookup-insert user other (update (info_or_new user db) kwargs) db)
