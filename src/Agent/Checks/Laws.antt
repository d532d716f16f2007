-- ===== src/Agent/Checks/Laws.antt =====
-- What passes the checks of the agent's files (apps/node-agent/src).
use full_revna_like_projekt.Base.{
  String, ◌≡◌, refl, inl, inr, ◌↔◌, false, Option, none, some, List, [], arith, ◌==◌, Among,
  includes, includes_iff, Bool-cases,
}
use full_revna_like_projekt.Base.Text.{trim}
use full_revna_like_projekt.Base.Json.{Json, null, bool, num, str, arr, obj}
use full_revna_like_projekt.Agent.Checks.{filled_text, require_string, assert_known}

-- A text that is not blank
abbrev pub Filled : Option Json → Type 0
Filled v = (s : String) × (v ≡ some (str s)) × ((trim s == "") ≡ false)

-- One of the texts
abbrev pub OneOf : List String → Option Json → Type 0
OneOf allowed v = (s : String) × (v ≡ some (str s)) × Among s allowed

pub require_string_iff : (v : Option Json) (path : String) → (require_string v path ≡ []) ↔ Filled v
unfolding require_string filled_text
require_string_iff none path = ground arith
require_string_iff (some null) path = ground arith
require_string_iff (some (bool b)) path = ground arith
require_string_iff (some (num n)) path = ground arith
require_string_iff (some (arr vs)) path = ground arith
require_string_iff (some (obj fs)) path = ground arith
require_string_iff (some (str s)) path = elim (Bool-cases (trim s == "")) [
  | inl e ↦ rw (e, require_string) (λ h. absurd (cc h), λ (t, h, k). absurd (cc (e, h, k)))
  | inr e ↦ rw (e, require_string) (λ h. (s, refl, e), λ h. refl)
]

pub assert_known_iff :
    (v : Option Json) (allowed : List String) (path : String)
    → (assert_known v allowed path ≡ []) ↔ OneOf allowed v
unfolding assert_known
assert_known_iff none allowed path = ground arith
assert_known_iff (some null) allowed path = ground arith
assert_known_iff (some (bool b)) allowed path = ground arith
assert_known_iff (some (num n)) allowed path = ground arith
assert_known_iff (some (arr vs)) allowed path = ground arith
assert_known_iff (some (obj fs)) allowed path = ground arith
assert_known_iff (some (str s)) allowed path = elim (Bool-cases (includes s allowed)) [
  | inl e ↦ rw e (λ h. (s, refl, (includes_iff s allowed).0 e), λ h. refl)
  | inr e ↦ rw e (λ h. absurd (cc h), λ (t, h, m). absurd (cc (e, h, (includes_iff t allowed).1 m)))
]
