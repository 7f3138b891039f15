-- ===== src/Protocols/Bb84/Sift.antt =====
-- Sifting, run by both parties on each other's bases.
use qchat.Prelude.{
  ℕ, ◌≤◌, ◌≡◌, refl, ap, sym, ◌∙◌, Bool, true, false, List, [], ◌∷◌, length, ok, arith, nat_beq,
}
use qchat.Value.{arr, Fields, end, field, codes}
use qchat.Messages.{Json, bb84, Message}
use qchat.Protocols.{Session, ◌>>=◌, item, ints}
use qchat.Protocols.Messaging.{control, expects, sent, exchange_lem}
use qchat.Protocols.Bb84.{equals, keep_matching, items_of, filter_theta}

-- At which rounds the two parties used one basis.
unfoldable pub same_basis : List ℕ → List ℕ → List Bool
same_basis (a ∷ as_) (b ∷ bs) = nat_beq a b ∷ same_basis as_ bs
same_basis as_ bs = []

-- The entries at the marked places.
unfoldable pub select : List Bool → List ℕ → List ℕ
select (true ∷ marks) (x ∷ xs) = x ∷ select marks xs
select (false ∷ marks) (x ∷ xs) = select marks xs
select marks xs = []

abbrev pub bases : List ℕ → Fields
bases theta = field (codes "theta") (arr (ints theta)) end

select-nil : (marks : List Bool) → select marks [] ≡ []
unfolding select
select-nil [] = refl
select-nil (true ∷ marks) = refl
select-nil (false ∷ marks) = refl

keep_matching-select : (x a b : List ℕ) → keep_matching x a (ints b) ≡ select (same_basis a b) x
unfolding keep_matching select same_basis ints equals
keep_matching-select [] a b = sym (select-nil (same_basis a b))
keep_matching-select (x ∷ xs) [] b = refl
keep_matching-select (x ∷ xs) (a ∷ as_) [] = refl
keep_matching-select (x ∷ xs) (a ∷ as_) (b ∷ bs) = ground (arith, keep_matching-select xs as_ bs)

pub same_basis_comm : (a b : List ℕ) → same_basis a b ≡ same_basis b a
unfolding same_basis
same_basis_comm [] [] = refl
same_basis_comm [] (b ∷ bs) = refl
same_basis_comm (a ∷ as_) [] = refl
same_basis_comm (a ∷ as_) (b ∷ bs) = ground (arith, same_basis_comm as_ bs)

pub filter_theta_lem :
    (json : Json) (s : Session) (x mine theirs : List ℕ) (name : List ℕ) (rest : List Message)
    → length s.name ≤ 16
    → filter_theta json x mine (expects s (control bb84 name (bases theirs) ∷ rest))
      ≡ ok (
        select (same_basis mine theirs) x,
        expects (sent s (control bb84 s.name (bases mine))) rest,
      )
unfolding filter_theta item items_of
filter_theta_lem json s x mine theirs name rest short =
    rw (exchange_lem json bb84 (bases mine) (bases theirs) s name rest short, ◌>>=◌)
      (rw (keep_matching-select x mine theirs))

-- Sifting, the two parties, with names of at most 16 characters, run on each other's bases: both keep exactly the outcomes of the rounds
-- in which the two bases are the same, so the bits that they keep stay side by side.
filter_theta_agrees :
    (json : Json) (lead follow : Session) (x y theta theta_hat : List ℕ)
    → length lead.name ≤ 16
    → length follow.name ≤ 16
    → lead.ctrl_msg_q ≡ control bb84 follow.name (bases theta_hat) ∷ []
    → follow.ctrl_msg_q ≡ control bb84 lead.name (bases theta) ∷ []
    → (filter_theta json x theta lead
        ≡ ok (
          select (same_basis theta theta_hat) x,
          expects (sent lead (control bb84 lead.name (bases theta))) [],
        ))
      × (filter_theta json y theta_hat follow
          ≡ ok (
            select (same_basis theta theta_hat) y,
            expects (sent follow (control bb84 follow.name (bases theta_hat))) [],
          ))
filter_theta_agrees json lead follow x y theta theta_hat short_l short_f to_lead to_follow = (
  ap (λ q. filter_theta json x theta (expects lead q)) to_lead
      ∙ filter_theta_lem json lead x theta theta_hat follow.name [] short_l,
  ap (λ q. filter_theta json y theta_hat (expects follow q)) to_follow
      ∙ filter_theta_lem json follow y theta_hat theta lead.name [] short_f
      ∙ ap
          (λ m.
            ok (select m y, expects (sent follow (control bb84 follow.name (bases theta_hat))) []))
          (same_basis_comm theta_hat theta),
)
