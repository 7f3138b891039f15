-- ===== src/Db/Deletion.antt =====
-- `deleteUserInfo` takes away the named fields and nothing else.
use qchat.Prelude.{
  ◌≡◌, ◌≢◌, refl, ap, sym, ◌∙◌, List, [], ◌∷◌, All, none, some, ok, arith, nat_eq, list_eq,
  list_beq_iff, Option-cases, Bool-cases, ok≢err, ==_self, ==_ne, inl, inr, if◌then◌else◌, ◌==◌,
}
use mathlib.Core.Path.{subst}
use mathlib.Core.Bool.{false≢true}
use qchat.Prelude.Dict.{lookup-insert}
use qchat.Value.{Text, Value, Fields, get, remove, get-remove_ne, get-remove_self, HasKeysOnce}
use qchat.Db.{UserDb, get_user, known_info, pop_fields, delete_user_info}
use qchat.Db.Invariant.{IsWellFormed, remove-HasKeysOnce, known_info-HasKeysOnce}

get-remove-none :
    (j k : Text) (info : Fields)
    → HasKeysOnce info
    → get k info ≡ none
    → get k (remove j info) ≡ none
get-remove-none j k info once h = elim (Bool-cases (k == j)) [
  | inl same ↦ rw ((list_beq_iff k j).0 same) (get-remove_self j info once)
  | inr other ↦ get-remove_ne j k info (λ e. false≢true (sym other ∙ (list_beq_iff k j).1 e)) ∙ h
]

get-pop_fields-none :
    (ks : List Text) (k : Text) (info : Fields)
    → get k info ≡ none
    → HasKeysOnce info
    → get k (pop_fields ks info).0 ≡ none
unfolding pop_fields
get-pop_fields-none [] k info h once = h
get-pop_fields-none (j ∷ ks) k info h once = ground (
  arith,
  get-pop_fields-none ks k (remove j info) (get-remove-none j k info once h)
      (remove-HasKeysOnce j info once),
)

get-pop_fields_ne :
    (ks : List Text) (k : Text) (info : Fields)
    → All (λ j. k ≢ j) ks
    → get k (pop_fields ks info).0 ≡ get k info
unfolding pop_fields
get-pop_fields_ne [] k info h = refl
get-pop_fields_ne (j ∷ ks) k info h =
    ground (arith, get-pop_fields_ne ks k (remove j info) h.1, get-remove_ne j k info h.0)

pop_fields_step :
    (k : Text) (ks : List Text) (info : Fields) (v : Value)
    → get k info ≡ some v
    → pop_fields (k ∷ ks) info ≡ pop_fields ks (remove k info)
unfolding pop_fields
pop_fields_step k ks info v there = rw (there, pop_fields)

pop_fields-gone :
    (ks : List Text) (info : Fields)
    → HasKeysOnce info
    → (pop_fields ks info).1 ≡ ok tt
    → All (λ k. get k (pop_fields ks info).0 ≡ none) ks
unfolding pop_fields
pop_fields-gone [] info once h = tt
pop_fields-gone (k ∷ ks) info once h = elim (Option-cases (get k info)) [
  | inl missing ↦ absurd (ok≢err (sym (rw (missing, pop_fields) at h)))
  | inr (v, there) ↦
      let once' : HasKeysOnce (remove k info) = remove-HasKeysOnce k info once in
      let step = pop_fields_step k ks info v there in
      subst (λ r. All (λ j. get j r.0 ≡ none) (k ∷ ks)) (sym step)
        (
          get-pop_fields-none ks k (remove k info) (get-remove_self k info once) once',
          pop_fields-gone ks (remove k info) once' (ap (λ r. r.1) (sym step) ∙ h),
        )
]

module _ (user : Text) (ks : List Text) (db : UserDb) (info : Fields) (once : IsWellFormed db)
    (found : known_info (get_user user db) ≡ ok info) where
  get_user-delete_user_info :
      (other : Text)
      → get_user other (delete_user_info user ks db).0
        ≡ (if other == user then some (pop_fields ks info).0 else get_user other db)
  unfolding delete_user_info get_user
  get_user-delete_user_info other =
      rw (found, delete_user_info) (lookup-insert user other (pop_fields ks info).0 db)

  own : get_user user (delete_user_info user ks db).0 ≡ some (pop_fields ks info).0
  own = get_user-delete_user_info user ∙ rw ==_self refl

  -- `deleteUserInfo` on a user with a record that is not empty in a well-formed database, whether or
  -- not it raises: a field that is not named stays as it was, and so does every other user.
  delete_user_info_keeps :
      (k other : Text)
      → All (λ j. k ≢ j) ks
      → other ≢ user
      → (info' : Fields) × (get_user user (delete_user_info user ks db).0 ≡ some info')
        × (get k info' ≡ get k info)
        × (get_user other (delete_user_info user ks db).0 ≡ get_user other db)
  delete_user_info_keeps k other others ne = (
    (pop_fields ks info).0,
    own,
    get-pop_fields_ne ks k info others,
    get_user-delete_user_info other ∙ rw (==_ne other user ne) refl,
  )

  -- If `deleteUserInfo` does not raise, on a user with a record that is not empty in a well-formed
  -- database, then every named field is gone, and the user is still there.
  pub delete_user_info_deletes :
      (delete_user_info user ks db).1 ≡ ok tt
      → (info' : Fields) × (get_user user (delete_user_info user ks db).0 ≡ some info')
        × All (λ k. get k info' ≡ none) ks
  unfolding delete_user_info
  delete_user_info_deletes done = (
    (pop_fields ks info).0,
    own,
    pop_fields-gone ks info (known_info-HasKeysOnce user db info once found)
        (rw (found, delete_user_info) at done),
  )
