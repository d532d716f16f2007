-- ===== src/Base/Json.antt =====
-- Values of type `unknown` and objects of type `Record<string, unknown>`: JSON values whose
-- numbers are whole and not negative. An object keeps its keys in the order of insertion.
use full_revna_like_projekt.Base.Tests.{if◌then◌else◌, ◌==ₙ◌}
use full_revna_like_projekt.Base.Text.{join}
use full_revna_like_projekt.Base.Decimal.{to_text}
use Prim.Native.Nat.{ℕ}
use Prim.Native.String.{String}
use mathlib.Core.Path.{◌≡◌, refl}
use mathlib.Core.Bool.{Bool, true, false, not}
use mathlib.Core.Option.{Option, none, some}
use mathlib.Core.List.{List, [], ◌∷◌, map}
use native.Mathlib.Omega.{arith}
use text.Mathlib.Text.{◌==◌}
use text.Mathlib.TextEquality.{eq_iff}

mutual
  pub data Json : Type 0 where
    null : Json
    bool : Bool → Json
    num : ℕ → Json
    str : String → Json
    arr : Items → Json
    obj : Fields → Json

  pub data Items : Type 0 where
    nil : Items
    cons : Json → Items → Items

  pub data Fields : Type 0 where
    end : Fields
    field : String → Json → Fields → Fields

abbrev pub items : Items → List Json
items nil = []
items (cons v vs) = v ∷ items vs

abbrev pub of_list : List Json → Items
of_list [] = nil
of_list (v ∷ vs) = cons v (of_list vs)

-- `o[key]`
unfoldable pub get : String → Fields → Option Json
get key end = none
get key (field k v fs) = if k == key then some v else get key fs

-- `{ ...o, key: value }`: a key that is there keeps its place.
unfoldable pub put : String → Json → Fields → Fields
put key value end = field key value end
put key value (field k v fs) = if k == key then field key value fs else field k v (put key value fs)

-- `Object.keys(o)`
abbrev pub keys : Fields → List String
keys end = []
keys (field k v fs) = k ∷ keys fs

-- `String(v)`; inside an array `null` is written as the empty text.
unfoldable mutual
  pub to_string : Json → String
  to_string null = "null"
  to_string (bool true) = "true"
  to_string (bool false) = "false"
  to_string (num n) = to_text n
  to_string (str s) = s
  to_string (arr vs) = join "," (items_to_string vs)
  to_string (obj fs) = "[object Object]"

  pub items_to_string : Items → List String
  items_to_string nil = []
  items_to_string (cons null vs) = "" ∷ items_to_string vs
  items_to_string (cons v vs) = to_string v ∷ items_to_string vs

-- `Array.isArray(v) ? v : []`
abbrev pub array_or_empty : Option Json → List Json
array_or_empty (some (arr vs)) = items vs
array_or_empty _ = []

abbrev pub texts : List String → Items
texts [] = nil
texts (s ∷ ss) = cons (str s) (texts ss)

-- `typeof v === 'string' ? v : null`
abbrev pub text_or_null : Option Json → Option String
text_or_null (some (str s)) = some s
text_or_null _ = none

-- `v ?? w` where `v` may be missing or null.
abbrev pub nullish : Option Json → Option Json
nullish none = none
nullish (some null) = none
nullish (some v) = some v

-- Is a value truthy?
abbrev pub truthy : Option Json → Bool
truthy none = false
truthy (some null) = false
truthy (some (bool b)) = b
truthy (some (num n)) = not (n ==ₙ 0)
truthy (some (str s)) = not (s == "")
truthy (some (arr vs)) = true
truthy (some (obj fs)) = true

pub get-put :
    (j k : String) (v : Json) (fs : Fields)
    → get j (put k v fs) ≡ (if k == j then some v else get j fs)
unfolding get put
get-put j k v end = refl
get-put j k v (field i w fs) = ground (arith, eq_iff k j, eq_iff i k, eq_iff i j, get-put j k v fs)

-- Writing back the texts of an array of texts reads the same.
pub map-to_string-texts : (ss : List String) → map to_string (items (texts ss)) ≡ ss
unfolding to_string
map-to_string-texts [] = refl
map-to_string-texts (s ∷ ss) = λ i. s ∷ map-to_string-texts ss i
