-- ===== src/Db/Tests.antt =====
-- A database of two users.
use qchat.Prelude.{
  ◌≡◌, ◌≢◌, refl, ◌⊎◌, true, false, List, [], ◌∷◌, All, none, some, ok, err, key_error,
  attribute_error, db_exception, arith, nat_eq, list_eq,
}
use qchat.Value.{Text, Fields, end, field, null, str, bytes, codes, get, HasKeysOnce}
use qchat.Db.{
  UserDb, get_user, has_user, known_info, get_public_key, get_message_key, get_connection_info,
  connection, pub_key, everyone, add_user, change_user_info, delete_user, delete_user_info,
  pop_fields, get_public_user_info,
}
use qchat.Db.Invariant.{IsWellFormed, delete_user_lem}
use qchat.Db.Deletion.{delete_user_info_deletes}
use qchat.Db.Refinement.{Update, add, change, delete_info, delete}
use qchat.Db.Public.{get_public_user_info-change_user_info, add_user_empty}

abbrev alice : Text
alice = codes "alice"

abbrev bob : Text
bob = codes "bob"

abbrev secret : Text
secret = codes "message_key"

abbrev alice_info : Fields
alice_info = field pub_key (str (codes "key")) (field secret (bytes (1 ∷ [])) end)

abbrev users : UserDb
users = (alice, alice_info) ∷ (bob, field secret (bytes (2 ∷ [])) end) ∷ []

alice_known : known_info (get_user alice users) ≡ ok alice_info
unfolding known_info get_user qchat.Prelude.Dict.lookup
alice_known = refl

users-IsWellFormed : IsWellFormed users
unfolding get_user qchat.Prelude.Dict.lookup get
users-IsWellFormed = (refl, (refl, (refl, tt)), (refl, (refl, tt), tt))

abbrev updates : List Update
updates =
    add (codes "carol") end
    ∷ change (codes "dave") (field pub_key null end)
    ∷ delete_info alice (pub_key ∷ connection ∷ [])
    ∷ delete bob
    ∷ delete bob
    ∷ []

delete_user_lem_example :
    (has_user alice users ≡ false) × (delete_user alice users ≡ err key_error)
    ⊎ ((db' : UserDb) × (delete_user alice users ≡ ok db')
        × (has_user alice db' ≡ false)
        × (get_user bob db' ≡ get_user bob users))
delete_user_lem_example = delete_user_lem alice bob users users-IsWellFormed (λ e. cc)

abbrev new_secret : Fields
new_secret = field secret (bytes (7 ∷ [])) end

new_secret-HasKeysOnce : HasKeysOnce new_secret
unfolding get
new_secret-HasKeysOnce = (refl, tt)

no_connection : get connection new_secret ≡ none
unfolding get
no_connection = refl

no_pub : get pub_key new_secret ≡ none
unfolding get
no_pub = refl

get_public_user_info-change_user_info_example :
    get_public_user_info everyone (change_user_info alice new_secret users)
    ≡ get_public_user_info everyone users
get_public_user_info-change_user_info_example =
    get_public_user_info-change_user_info alice alice_info new_secret users alice_known
      new_secret-HasKeysOnce no_connection no_pub everyone

no_users : has_user alice [] ≡ false
unfolding has_user
no_users = refl

add_user_empty_example :
    (has_user alice (add_user alice end []) ≡ true)
    × (get_public_key alice (add_user alice end []) ≡ err db_exception)
    × (get_message_key alice (add_user alice end []) ≡ err db_exception)
    × (get_connection_info alice (add_user alice end []) ≡ err db_exception)
add_user_empty_example = add_user_empty alice [] no_users

key_deleted : (delete_user_info alice (pub_key ∷ []) users).1 ≡ ok tt
unfolding delete_user_info known_info get_user qchat.Prelude.Dict.lookup pop_fields get
key_deleted = refl

delete_user_info_deletes_example :
    (info' : Fields) × (get_user alice (delete_user_info alice (pub_key ∷ []) users).0 ≡ some info')
    × All (λ k. get k info' ≡ none) (pub_key ∷ [])
delete_user_info_deletes_example =
    delete_user_info_deletes alice (pub_key ∷ []) users alice_info users-IsWellFormed alice_known
      key_deleted
