-- ===== src/Value.antt =====
-- The Python values that QChat passes round: `str` as its list of code points, `bytes` as a list of
-- numbers below 256, and the JSON values with `bytes` beside them, as user records hold them.
pub mod Utf8
pub mod Words
use Prim.Native.Char.{code}
use Prim.Native.String.{String}
use Prim.Native.String
use qchat.Prelude.{
  ℕ, ◌≡◌, refl, ◌≢◌, Bool, List, [], ◌∷◌, Option, none, some, Result, ok, err, key_error, arith,
  if◌then◌else◌, ◌==◌, nat_eq, list_eq, list_beq_iff, ==_self,
}

abbrev pub Text : Type 0
Text = List ℕ

abbrev pub Bytes : Type 0
Bytes = List ℕ

-- The code points of a literal.
abbrev pub codes : String → Text
codes String.[] = []
codes (String.◌∷◌ c s) = code c ∷ codes s

-- `negsuc n` is -(n + 1).
pub data ℤ : Type 0 where
  pos : ℕ → ℤ
  negsuc : ℕ → ℤ

-- Floats are left out: no code here makes one.
mutual
  pub data Value : Type 0 where
    null : Value
    bool : Bool → Value
    int : ℤ → Value
    str : Text → Value
    bytes : Bytes → Value
    arr : Items → Value
    dict : Fields → Value

  pub data Items : Type 0 where
    nil : Items
    cons : Value → Items → Items

  -- A dict with text keys, in insertion order.
  pub data Fields : Type 0 where
    end : Fields
    field : Text → Value → Fields → Fields

-- `d.get(k)`
unfoldable pub get : Text → Fields → Option Value
get k end = none
get k (field j v d) = if k == j then some v else get k d

-- `d[k]`
unfoldable pub subscript : Text → Fields → Result Value
unfolding get
subscript k d = elim (get k d) [ none ↦ err key_error | some v ↦ ok v ]

-- `d[k] = v`: a key keeps its place.
unfoldable pub put : Text → Value → Fields → Fields
put k v end = field k v end
put k v (field j w d) = if k == j then field j v d else field j w (put k v d)

-- `d.update(e)`
unfoldable pub update : Fields → Fields → Fields
update d end = d
update d (field k v e) = update (put k v d) e

-- The dict without a key, which it holds once at most.
unfoldable pub remove : Text → Fields → Fields
remove k end = end
remove k (field j w d) = if k == j then d else field j w (remove k d)

-- Each key once, as Python's dicts have them.
abbrev pub HasKeysOnce : Fields → Type 0
HasKeysOnce end = Unit
HasKeysOnce (field k v d) = (get k d ≡ none) × HasKeysOnce d

pub get-put :
    (k j : Text) (v : Value) (d : Fields) → get j (put k v d) ≡ (if j == k then some v else get j d)
unfolding get put
get-put k j v end = refl
get-put k j v (field i w d) =
    ground (arith, list_beq_iff j k, list_beq_iff k i, list_beq_iff j i, get-put k j v d)

pub get-remove_ne : (k j : Text) (d : Fields) → j ≢ k → get j (remove k d) ≡ get j d
unfolding get remove
get-remove_ne k j end h = refl
get-remove_ne k j (field i w d) h =
    ground (arith, list_beq_iff j i, list_beq_iff k i, get-remove_ne k j d h)

pub get-remove_self : (k : Text) (d : Fields) → HasKeysOnce d → get k (remove k d) ≡ none
unfolding get remove
get-remove_self k end h = refl
get-remove_self k (field i w d) h = ground (arith, list_beq_iff k i, get-remove_self k d h.1)
