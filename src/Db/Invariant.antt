-- ===== src/Db/Invariant.antt =====
-- The databases that stand for Python's dicts, with each user once and each key of a user once; and
-- `deleteUser` on them.
use qchat.Prelude.{
  ◌≡◌, ◌≢◌, ◌⊎◌, refl, false, List, [], ◌∷◌, none, ok, err, key_error, nat_eq, list_eq, arith,
  list_beq_iff, Option-cases, Result-cases, inl, inr,
}
use qchat.Prelude.Dict.{lookup, insert, erase, lookup-insert}
use qchat.Value.{
  Text, Value, Fields, end, field, get, put, remove, update, get-put, get-remove_ne, HasKeysOnce,
}
use qchat.Db.{
  UserDb, get_user, has_user, known_info, pop_fields, delete_user_info, delete_user, info_or_new,
  add_user, change_user_info,
}

lookup-erase_ne : (k j : Text) (d : UserDb) → j ≢ k → lookup j (erase k d) ≡ lookup j d
unfolding lookup erase
lookup-erase_ne k j [] h = refl
lookup-erase_ne k j ((i, w) ∷ d) h =
    ground (arith, list_beq_iff j i, list_beq_iff k i, lookup-erase_ne k j d h)

-- Each user once, and each key of a user once.
abbrev pub IsWellFormed : UserDb → Type 0
IsWellFormed [] = Unit
IsWellFormed ((user, info) ∷ db) = (get_user user db ≡ none) × HasKeysOnce info × IsWellFormed db

lookup-erase_self : (k : Text) (d : UserDb) → IsWellFormed d → lookup k (erase k d) ≡ none
unfolding lookup erase get_user
lookup-erase_self k [] h = refl
lookup-erase_self k ((i, w) ∷ d) h = ground (arith, list_beq_iff k i, lookup-erase_self k d h.2)

pub get_user-erase_self : (k : Text) (d : UserDb) → IsWellFormed d → get_user k (erase k d) ≡ none
unfolding get_user
get_user-erase_self = lookup-erase_self

pub get_user-erase_ne : (k j : Text) (d : UserDb) → j ≢ k → get_user j (erase k d) ≡ get_user j d
unfolding get_user
get_user-erase_ne = lookup-erase_ne

-- On a well-formed database `deleteUser` raises `KeyError` for an unknown user; else that user is gone, and
-- another is as it was.
pub delete_user_lem :
    (user other : Text) (db : UserDb)
    → IsWellFormed db
    → other ≢ user
    → (has_user user db ≡ false) × (delete_user user db ≡ err key_error)
      ⊎ ((db' : UserDb) × (delete_user user db ≡ ok db')
          × (has_user user db' ≡ false)
          × (get_user other db' ≡ get_user other db))
unfolding delete_user has_user
delete_user_lem user other db h ne = elim (Option-cases (get_user user db)) [
  | inl missing ↦ inl (rw (missing, has_user), rw (missing, delete_user))
  | inr (info, found) ↦ inr (
    erase user db,
    rw (found, delete_user),
    rw (get_user-erase_self user db h, has_user),
    get_user-erase_ne user other db ne,
  )
]

put-HasKeysOnce : (k : Text) (v : Value) (d : Fields) → HasKeysOnce d → HasKeysOnce (put k v d)
unfolding put get
put-HasKeysOnce k v end h = (refl, tt)
put-HasKeysOnce k v (field j w d) h =
    ground (arith, list_beq_iff k j, list_beq_iff j k, get-put k j v d, put-HasKeysOnce k v d h.1)

update-HasKeysOnce : (d e : Fields) → HasKeysOnce d → HasKeysOnce (update d e)
unfolding update
update-HasKeysOnce d end h = h
update-HasKeysOnce d (field k v e) h = update-HasKeysOnce (put k v d) e (put-HasKeysOnce k v d h)

pub remove-HasKeysOnce : (k : Text) (d : Fields) → HasKeysOnce d → HasKeysOnce (remove k d)
unfolding remove get
remove-HasKeysOnce k end h = tt
remove-HasKeysOnce k (field j w d) h =
    ground
      (arith, list_beq_iff k j, list_beq_iff j k, get-remove_ne k j d, remove-HasKeysOnce k d h.1)

lookup-insert-none :
    (k j : Text) (info : Fields) (d : UserDb)
    → j ≢ k
    → lookup j d ≡ none
    → lookup j (insert k info d) ≡ none
lookup-insert-none k j info d ne e = ground (arith, lookup-insert k j info d, list_beq_iff j k)

insert-IsWellFormed :
    (user : Text) (info : Fields) (db : UserDb)
    → HasKeysOnce info
    → IsWellFormed db
    → IsWellFormed (insert user info db)
unfolding insert get_user lookup
insert-IsWellFormed user info [] once h = (refl, once, tt)
insert-IsWellFormed user info ((j, w) ∷ db) once h = ground (
  arith,
  list_beq_iff user j,
  lookup-insert-none user j info db,
  insert-IsWellFormed user info db once h.2,
)

info_or_new-HasKeysOnce :
    (user : Text) (db : UserDb) → IsWellFormed db → HasKeysOnce (info_or_new user db)
unfolding info_or_new get_user lookup
info_or_new-HasKeysOnce user [] h = tt
info_or_new-HasKeysOnce user ((j, w) ∷ db) h = ground (arith, info_or_new-HasKeysOnce user db h.2)

pub add_user-IsWellFormed :
    (user : Text) (kwargs : Fields) (db : UserDb)
    → IsWellFormed db
    → IsWellFormed (add_user user kwargs db)
unfolding add_user
add_user-IsWellFormed user kwargs db h =
    insert-IsWellFormed user _ db (update-HasKeysOnce _ kwargs (info_or_new-HasKeysOnce user db h))
      h

pub change_user_info-IsWellFormed :
    (user : Text) (kwargs : Fields) (db : UserDb)
    → IsWellFormed db
    → IsWellFormed (change_user_info user kwargs db)
unfolding change_user_info
change_user_info-IsWellFormed user kwargs db h = ground (
  arith,
  insert-IsWellFormed user _ db (update-HasKeysOnce _ kwargs (info_or_new-HasKeysOnce user db h)) h,
)

pub erase-IsWellFormed :
    (user : Text) (db : UserDb) → IsWellFormed db → IsWellFormed (erase user db)
unfolding erase get_user
erase-IsWellFormed user [] h = tt
erase-IsWellFormed user ((j, w) ∷ db) h =
    ground (arith, list_beq_iff user j, lookup-erase_ne user j db, erase-IsWellFormed user db h.2)

pop_fields-HasKeysOnce :
    (ks : List Text) (info : Fields) → HasKeysOnce info → HasKeysOnce (pop_fields ks info).0
unfolding pop_fields
pop_fields-HasKeysOnce [] info h = h
pop_fields-HasKeysOnce (k ∷ ks) info h =
    ground (arith, pop_fields-HasKeysOnce ks (remove k info) (remove-HasKeysOnce k info h))

pub known_info-HasKeysOnce :
    (user : Text) (db : UserDb) (info : Fields)
    → IsWellFormed db
    → known_info (get_user user db) ≡ ok info
    → HasKeysOnce info
unfolding known_info get_user lookup
known_info-HasKeysOnce user [] info h e = cc
known_info-HasKeysOnce user ((j, end) ∷ db) info h e =
    ground (arith, known_info-HasKeysOnce user db info h.2)
known_info-HasKeysOnce user ((j, field k v d) ∷ db) info h e =
    ground (arith, known_info-HasKeysOnce user db info h.2)

pub delete_user_info-IsWellFormed :
    (user : Text) (ks : List Text) (db : UserDb)
    → IsWellFormed db
    → IsWellFormed (delete_user_info user ks db).0
unfolding delete_user_info
delete_user_info-IsWellFormed user ks db h = elim (Result-cases (known_info (get_user user db))) [
  | inl (e, raised) ↦ rw (raised, delete_user_info) h
  | inr (info, found) ↦
      rw (found, delete_user_info)
        (insert-IsWellFormed user (pop_fields ks info).0 db
          (pop_fields-HasKeysOnce ks info (known_info-HasKeysOnce user db info h found)) h)
]
