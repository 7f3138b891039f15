-- ===== src/Db/Public.antt =====
-- `getPublicUserInfo`: what it shows of a user, and what it never shows.
use qchat.Prelude.{
  ◌≡◌, ◌≢◌, refl, ap, sym, ◌∙◌, true, false, List, [], ◌∷◌, Option, none, some, ok, err,
  db_exception, arith, nat_eq, list_eq, list_beq_iff, Bool-cases, ==_self, inl, inr, if◌then◌else◌,
  ◌==◌,
}
use qchat.Prelude.Dict.{insert, lookup, lookup-insert}
use qchat.Value.{Text, Value, Fields, end, field, put, update, get, HasKeysOnce}
use qchat.Db.{
  UserDb, get_user, has_user, known_info, get_or_null, connection, pub_key, get_connection_info,
  get_public_key, public_info, public_infos, users_of, get_public_user_info, get_message_key,
  change_user_info, add_user, info_or_new,
}
use qchat.Db.Records.{get-update, get_user-add_user}

users_of-insert :
    (user : Text) (info old : Fields) (db : UserDb)
    → get_user user db ≡ some old
    → users_of (insert user info db) ≡ users_of db
unfolding users_of insert get_user lookup
users_of-insert user info old [] h = cc
users_of-insert user info old ((j, w) ∷ db) h =
    ground (arith, list_beq_iff user j, users_of-insert user info old db)

put≢end : (k : Text) (v : Value) (d : Fields) → put k v d ≢ end
unfolding put
put≢end k v end = λ e. cc
put≢end k v (field j w d) = ground arith

known_info-update :
    (info kwargs : Fields)
    → known_info (some info) ≡ ok info
    → known_info (some (update info kwargs)) ≡ ok (update info kwargs)
unfolding update known_info
known_info-update info end h = h
known_info-update info (field k v e) h =
    known_info-update (put k v info) e (ground (arith, put≢end k v info))

known_info-some : (o : Option Fields) (info : Fields) → known_info o ≡ ok info → o ≡ some info
unfolding known_info
known_info-some none info h = cc
known_info-some (some end) info h = cc
known_info-some (some (field k v d)) info h = cc

get_or_null-update :
    (k : Text) (info kwargs : Fields)
    → HasKeysOnce kwargs
    → get k kwargs ≡ none
    → get_or_null k (update info kwargs) ≡ get_or_null k info
unfolding get_or_null
get_or_null-update k info kwargs once h = ground (arith, get-update k info kwargs once)

-- Two databases that show the same of a user.
abbrev Shows : UserDb → UserDb → Text → Type 0
Shows db db' user =
    (get_connection_info user db' ≡ get_connection_info user db)
    × (get_public_key user db' ≡ get_public_key user db)

public_info-Shows :
    (user : Text) (db db' : UserDb) → Shows db db' user → public_info user db' ≡ public_info user db
unfolding public_info
public_info-Shows user db db' h = rw (h.0, h.1)

public_infos-Shows :
    (users : List Text) (db db' : UserDb)
    → ((user : Text) → Shows db db' user)
    → public_infos users db' ≡ public_infos users db
unfolding public_infos
public_infos-Shows [] db db' h = refl
public_infos-Shows (user ∷ users) db db' h =
    rw (public_info-Shows user db db' (h user), public_infos-Shows users db db' h)

module _ (user : Text) (info kwargs : Fields) (db : UserDb)
    (found : known_info (get_user user db) ≡ ok info) (once : HasKeysOnce kwargs)
    (no_connection : get connection kwargs ≡ none) (no_pub : get pub_key kwargs ≡ none) where
  changed : change_user_info user kwargs db ≡ insert user (update info kwargs) db
  unfolding change_user_info has_user info_or_new
  changed = rw (known_info-some (get_user user db) info found, has_user, info_or_new)

  get_user-changed :
      (other : Text)
      → get_user other (change_user_info user kwargs db)
        ≡ (if other == user then some (update info kwargs) else get_user other db)
  unfolding get_user
  get_user-changed other = rw changed (lookup-insert user other (update info kwargs) db)

  change-Shows : (other : Text) → Shows db (change_user_info user kwargs db) other
  unfolding get_connection_info get_public_key
  change-Shows other = elim (Bool-cases (other == user)) [
    | inl same ↦
        let new : known_info (get_user other (change_user_info user kwargs db))
            ≡ ok (update info kwargs) =
          ap known_info (
            get_user-changed other
            ∙ ap (λ b. if b then some (update info kwargs) else get_user other db) same)
          ∙ known_info-update info kwargs
              (ap known_info (sym (known_info-some _ info found)) ∙ found) in
        let old : known_info (get_user other db) ≡ ok info =
          ap (λ w. known_info (get_user w db)) ((list_beq_iff other user).0 same) ∙ found in
        (
          rw (new, old) (ap ok (get_or_null-update connection info kwargs once no_connection)),
          rw (new, old) (ap ok (get_or_null-update pub_key info kwargs once no_pub)),
        )
    | inr else_ ↦
        let as_was : get_user other (change_user_info user kwargs db) ≡ get_user other db =
          get_user-changed other
          ∙ ap (λ b. if b then some (update info kwargs) else get_user other db) else_ in
        (rw as_was, rw as_was)
  ]

  -- No public answer, about one user or about all, depends on anything but connections and public
  -- keys: changing other fields of a record that is not
  -- empty, such as the message key, each given once, changes no answer.
  pub get_public_user_info-change_user_info :
      (asked : Text)
      → get_public_user_info asked (change_user_info user kwargs db) ≡ get_public_user_info asked db
  unfolding get_public_user_info
  get_public_user_info-change_user_info asked =
      let users : users_of (change_user_info user kwargs db) ≡ users_of db =
        ap users_of changed
        ∙ users_of-insert user (update info kwargs) info db (known_info-some _ info found) in
      rw (
        users,
        public_infos-Shows (users_of db) db (change_user_info user kwargs db) change-Shows,
        public_info-Shows asked db (change_user_info user kwargs db) (change-Shows asked),
      )

new_record :
    (user : Text) (db : UserDb) → has_user user db ≡ false → update (info_or_new user db) end ≡ end
unfolding has_user info_or_new update
new_record user db h = ground arith

-- Adding an unknown user with no data: the user is there from then on, and each getter says that
-- it does not exist.
pub add_user_empty :
    (user : Text) (db : UserDb)
    → has_user user db ≡ false
    → (has_user user (add_user user end db) ≡ true)
      × (get_public_key user (add_user user end db) ≡ err db_exception)
      × (get_message_key user (add_user user end db) ≡ err db_exception)
      × (get_connection_info user (add_user user end db) ≡ err db_exception)
unfolding has_user get_public_key get_message_key get_connection_info known_info
add_user_empty user db absent =
    let e : get_user user (add_user user end db) ≡ some end =
      get_user-add_user user user end db ∙ rw (==_self, new_record user db absent) in
    (rw (e, has_user), rw e, rw e, rw e)
