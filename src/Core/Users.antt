-- ===== src/Core/Users.antt =====
-- qchat/core.py: the node's part in the user database.
use qchat.Prelude.{
  Bool, true, false, List, [], ◌∷◌, Option, none, some, Result, ok, err, type_error,
  attribute_error, nat_eq, list_eq, ◌==◌, if◌then◌else◌,
}
use qchat.Prelude
use qchat.Value.{
  Text, Value, str, bytes, arr, dict, Items, nil, cons, Fields, end, field, codes, get, subscript,
  remove, update,
}
use qchat.Db.{
  everyone, user_key, pub_key, connection, has_user, add_user, decode_latin, get_public_key,
}
use qchat.Core.{
  Node, Handler, lift, raise, ◌>>=◌, ◌>>◌, skip, get_node, set_user_db, pop_item, name_of, host_key,
  port_key,
}

-- `f(**kwargs)` of a method: no keyword may be named `self`.
unfoldable pub keywords : Fields → Result Fields
unfolding get
keywords d = elim (get (codes "self") d) [ none ↦ ok d | some _ ↦ err type_error ]

-- `for info in value`, where each `info` is used as a dict
unfoldable pub infos_of : Value → Result Items
infos_of (arr vs) = ok vs
infos_of (dict end) = ok nil
infos_of (dict d) = err attribute_error
infos_of (str []) = ok nil
infos_of (str t) = err attribute_error
infos_of (bytes []) = ok nil
infos_of (bytes bs) = err attribute_error
infos_of v = err type_error

-- `self.userDB.addUser(user, **info)`
unfoldable pub add_user_to_db : Text → Fields → Handler (Unit {0})
unfolding add_user keywords
add_user_to_db user info = do
  node ← get_node
  kwargs ← lift (keywords info)
  set_user_db (add_user user kwargs node.user_db)

-- The loop over `kwargs["info"]`.
unfoldable pub add_infos : Items → Handler (Unit {0})
unfolding add_user_to_db has_user pop_item name_of
add_infos nil = skip
add_infos (cons info infos) = do
  (user, rest) ← lift (pop_item user_key info)
  user_name ← lift (name_of user)
  node ← get_node
  if has_user user_name node.user_db then skip else add_user_to_db user_name rest
  add_infos infos

unfoldable pub add_user_info : Text → Fields → Handler (Unit {0})
unfolding add_infos infos_of subscript add_user_to_db
add_user_info user kwargs =
    if user == everyone
    then (do
      info ← lift (subscript (codes "info") kwargs)
      infos ← lift (infos_of info)
      add_infos infos)
    else add_user_to_db user kwargs

-- `handler=self.addUserInfo` of `_pass_message_data`: `user` is a keyword like the others.
unfoldable pub handle_user_info : Value → Handler (Unit {0})
unfolding add_user_info keywords get name_of
handle_user_info (dict d) = do
  kwargs ← lift (keywords d)
  user ← lift (elim (get user_key kwargs) [ none ↦ err type_error | some v ↦ name_of v ])
  add_user_info user (remove user_key kwargs)
handle_user_info v = raise type_error

-- `self.connection.get_connection_info()`
unfoldable pub own_connection_info : Node → Fields
own_connection_info node =
    field connection (dict (field host_key node.host (field port_key node.port end))) end

-- `_get_registration_data`
unfoldable pub get_registration_data : Node → Result Fields
unfolding own_connection_info get_public_key decode_latin update
get_registration_data node = Prelude.◌>>=◌ (get_public_key node.name node.user_db) (λ key.
    Prelude.◌>>=◌ (decode_latin key) (λ decoded. ok (
      update (field user_key (str node.name) (field pub_key decoded end))
        (own_connection_info node))))
