-- ===== src/Agent/Checks.antt =====
-- The checks and copies of values that the agent's files share: `requireString`, `assertKnown` and a
-- spread, and a member of a value that may be missing.
pub mod Laws
use full_revna_like_projekt.Base.{
  ℕ, zero, suc, String, Bool, true, false, not, ◌&&◌, ◌||◌, Option, none, some, List, [], ◌∷◌, ◌==◌,
  if◌then◌else◌, or_else, includes, is_some,
}
use full_revna_like_projekt.Base.Text.{trim, join}
use full_revna_like_projekt.Base.Decimal.{to_text}
use full_revna_like_projekt.Base.Json.{
  Json, null, bool, num, str, arr, obj, Items, nil, cons, Fields, end, field, get, nullish,
}
use Prim.Native.String.{[], ◌∷◌, ◌++◌}

-- `typeof v !== "string" || v.trim().length === 0`, and otherwise the text
unfoldable pub filled_text : Option Json → Option String
filled_text (some (str s)) = if trim s == "" then none else some s
filled_text _ = none

-- What `requireString` adds to `errors`
unfoldable pub require_string : Option Json → String → List String
require_string v path = elim (filled_text v) [
  | none ↦ (path ++ " must be a non-empty string") ∷ []
  | some s ↦ []
]

abbrev pub is_known : Option Json → List String → Bool
is_known (some (str s)) allowed = includes s allowed
is_known _ allowed = false

-- What `assertKnown` adds to `errors`
unfoldable pub assert_known : Option Json → List String → String → List String
assert_known v allowed path =
    if is_known v allowed then [] else (path ++ " must be one of " ++ join ", " allowed) ∷ []

-- `value?.key`
abbrev pub member : String → Option Json → Option Json
member key (some (obj fs)) = get key fs
member key _ = none

-- `value ?? null`
abbrev pub or_null : Option Json → Json
or_null v = or_else (nullish v) null

-- `{ ...(value ?? {}) }`
unfoldable pub spread_value : Option Json → Fields
spread_value (some (obj fs)) = fs
spread_value (some (arr vs)) = places 0 vs
  where
    places : ℕ → Items → Fields
    places i nil = end
    places i (cons v vs) = field (to_text i) v (places (suc i) vs)
spread_value (some (str s)) = letters 0 s
  where
    letters : ℕ → String → Fields
    letters i [] = end
    letters i (c ∷ t) = field (to_text i) (str (c ∷ [])) (letters (suc i) t)
spread_value _ = end
