-- ===== src/Server/Registry.antt =====
-- The registry: what registration and the messages about users do to the user database.
use mathlib.Core.Bool.{false≢true}
use mathlib.Core.Path.{subst}
use qchat.Prelude.{
  ◌≡◌, ◌≢◌, refl, ap, sym, ◌∙◌, true, false, nat_eq, list_eq, list_beq_iff, ◌==◌, if◌then◌else◌,
  ==_ne, Bool-cases, Result-cases, inl, inr,
}
use qchat.Value.{Text, Value, bytes, Items, nil, cons, Fields, end, field, codes, subscript}
use qchat.Db.{everyone, user_key, pub_key, connection, get_user, has_user}
use qchat.Db.Records.{get_user-add_user}
use qchat.Core.{Node, resume-keeps, skip, lift, encode_value, pop_item, name_of}
use qchat.Core.Users.{keywords, add_user_to_db, infos_of, add_infos, add_user_info}
use qchat.Server.{register_user}

-- A node whose record of one user is that of another node.
abbrev KeepsUser : Text → Node → Node → Type 0
KeepsUser other s s' = get_user other s'.user_db ≡ get_user other s.user_db

has_user-KeepsUser :
    (other : Text) (s s' : Node)
    → KeepsUser other s s'
    → has_user other s'.user_db ≡ has_user other s.user_db
unfolding has_user
has_user-KeepsUser other s s' h = rw (h, has_user) refl

add_user_to_db-KeepsUser :
    (user other : Text) (info : Fields) (s : Node)
    → other ≢ user
    → KeepsUser other s (add_user_to_db user info s).1
unfolding add_user_to_db
add_user_to_db-KeepsUser user other info s ne = elim (Result-cases (keywords info)) [
  | inl (e, raised) ↦ rw raised refl
  | inr (kwargs, fine) ↦
      rw fine (get_user-add_user user other kwargs s.user_db ∙ rw (==_ne other user ne) refl)
]

add_missing-KeepsUser :
    (other user : Text) (info : Fields) (s : Node)
    → has_user other s.user_db ≡ true
    → KeepsUser other s ((if has_user user s.user_db then skip else add_user_to_db user info) s).1
add_missing-KeepsUser other user info s known = elim (Bool-cases (has_user user s.user_db)) [
  | inl there ↦ rw there refl
  | inr missing ↦ rw missing (
      add_user_to_db-KeepsUser user other info s
        (λ same. false≢true (sym missing ∙ ap (λ u. has_user u s.user_db) (sym same) ∙ known)))
]

add_infos-KeepsUser :
    (other : Text) (infos : Items) (s s' : Node)
    → has_user other s.user_db ≡ true
    → KeepsUser other s s'
    → KeepsUser other s (add_infos infos s').1
unfolding add_infos
add_infos-KeepsUser other nil s s' known h = h
add_infos-KeepsUser other (cons info infos) s s' known h =
    let P = KeepsUser other s in
    resume-keeps P _ (lift (pop_item user_key info) s') h λ popped s_1 h_1.
      resume-keeps P _ (lift (name_of popped.0) s_1) h_1 λ user s_2 h_2.
        resume-keeps P _
          ((if has_user user s_2.user_db then skip else add_user_to_db user popped.1) s_2)
          (add_missing-KeepsUser other user popped.1 s_2
              (has_user-KeepsUser other s s_2 h_2 ∙ known)
            ∙ h_2)
          λ u s_3 h_3. add_infos-KeepsUser other infos s s_3 known h_3

-- The answer about all users: it changes no user whom the node knows before.
add_user_info-everyone :
    (other : Text) (kwargs : Fields) (s : Node)
    → has_user other s.user_db ≡ true
    → get_user other (add_user_info everyone kwargs s).1.user_db ≡ get_user other s.user_db
unfolding add_user_info
add_user_info-everyone other kwargs s known =
    let P = KeepsUser other s in
    resume-keeps P _ (lift (subscript (codes "info") kwargs) s) refl λ info s_1 h_1.
      resume-keeps P _ (lift (infos_of info) s_1) h_1
        λ infos s_2 h_2. add_infos-KeepsUser other infos s s_2 known h_2

add_user_info-KeepsUser :
    (user other : Text) (kwargs : Fields) (s : Node)
    → has_user other s.user_db ≡ true
    → has_user user s.user_db ≡ false
    → KeepsUser other s (add_user_info user kwargs s).1
unfolding add_user_info
add_user_info-KeepsUser user other kwargs s known new = elim (Bool-cases (user == everyone)) [
  | inl all ↦
      subst (λ u. KeepsUser other s (add_user_info u kwargs s).1)
        (sym ((list_beq_iff user everyone).0 all)) (add_user_info-everyone other kwargs s known)
  | inr one ↦ rw one (
      add_user_to_db-KeepsUser user other kwargs s
        (λ same. false≢true (sym new ∙ ap (λ u. has_user u s.user_db) (sym same) ∙ known)))
]

-- Registration, with any data: every user whom the server knows before, the one who registers
-- included, keeps the same record.
pub register_user_keeps :
    (user other : Text) (conn pub_ : Value) (s : Node)
    → has_user other s.user_db ≡ true
    → get_user other (register_user user conn pub_ s).1.user_db ≡ get_user other s.user_db
unfolding register_user
register_user_keeps user other conn pub_ s known = elim (Bool-cases (has_user user s.user_db)) [
  | inl there ↦ rw there refl
  | inr new ↦ rw new (elim (Result-cases (encode_value pub_)) [
    | inl (e, raised) ↦ rw raised refl
    | inr (bs, encoded) ↦ rw encoded (
        add_user_info-KeepsUser user other (field pub_key (bytes bs) (field connection conn end)) s
          known new)
  ])
]
