-- ===== src/Base/Text.antt =====
-- The text operations of JavaScript that the console uses, on native texts.
use Prim.Native.Nat.{ℕ, ◌-◌}
use Prim.Native.Char.{Char, code}
use Prim.Native.String.{String, [], ◌∷◌, ◌++◌, char_at}
use mathlib.Core.Path.{◌≡◌, refl}
use mathlib.Core.Bool.{Bool, true, false, ◌&&◌, ◌||◌}
use mathlib.Core.List.{List, [], ◌∷◌}
use text.Mathlib.Text.{◌==◌}
use full_revna_like_projekt.Base.Tests.{leb, ◌==ₙ◌, if◌then◌else◌}

abbrev pub in_range : ℕ → ℕ → Char → Bool
in_range lo hi c = leb lo (code c) && leb (code c) hi

-- `toLowerCase` on ASCII letters.
abbrev pub lower : Char → Char
lower c = if in_range b'A' b'Z' c then char_at "abcdefghijklmnopqrstuvwxyz" (code c - b'A') else c

unfoldable pub to_lower_case : String → String
to_lower_case [] = []
to_lower_case (c ∷ s) = lower c ∷ to_lower_case s

-- White space and line terminators of ECMAScript.
abbrev pub is_space : Char → Bool
is_space c =
    in_range 9 13 c
    || in_range 32 32 c
    || in_range 160 160 c
    || in_range 0x1680 0x1680 c
    || in_range 0x2000 0x200a c
    || in_range 0x2028 0x2029 c
    || in_range 0x202f 0x202f c
    || in_range 0x205f 0x205f c
    || in_range 0x3000 0x3000 c
    || in_range 0xfeff 0xfeff c

unfoldable pub trim_start : String → String
trim_start [] = []
trim_start (c ∷ s) = let rest = trim_start s in if is_space c then rest else c ∷ s

unfoldable pub trim_end : String → String
trim_end [] = []
trim_end (c ∷ s) = let rest = trim_end s in if is_space c && (rest == "") then [] else c ∷ rest

unfoldable pub trim : String → String
unfolding trim_start trim_end
trim s = trim_end (trim_start s)

-- `s.startsWith(t)`
unfoldable pub begins_with : String → String → Bool
begins_with s [] = true
begins_with [] (d ∷ t) = false
begins_with (c ∷ s) (d ∷ t) = (code c ==ₙ code d) && begins_with s t

-- `s.includes(t)`
unfoldable pub contains : String → String → Bool
unfolding begins_with
contains [] t = begins_with [] t
contains (c ∷ s) t = begins_with (c ∷ s) t || contains s t

-- `s.replace(/[...]+/g, '_')`: each longest run of characters outside `keep` becomes one `_`.
-- The flag tells that the run before has been written.
abbrev replace_from : (Char → Bool) → Bool → String → String
replace_from keep run [] = []
replace_from keep run (c ∷ s) =
    let kept : String = c ∷ replace_from keep false s in
    let dropped = replace_from keep true s in
    if keep c then kept else if run then dropped else "_" ++ dropped

unfoldable pub replace_runs : (Char → Bool) → String → String
replace_runs keep s = replace_from keep false s

-- `s.replace(/[...]/g, '')`
unfoldable pub strip : (Char → Bool) → String → String
strip keep [] = []
strip keep (c ∷ s) = let rest = strip keep s in if keep c then c ∷ rest else rest

abbrev pub is_slug_char : Char → Bool
is_slug_char c = in_range b'a' b'z' c || in_range b'0' b'9' c

-- `name.toLowerCase().replace(/[^a-z0-9]+/g, '_')`
unfoldable pub slug : String → String
unfolding to_lower_case replace_runs
slug name = replace_runs is_slug_char (to_lower_case name)

-- `s.split(/[...]+/)`: the parts between the longest runs of separators. A run at either end
-- leaves an empty part there.
abbrev split_from : (Char → Bool) → String → Bool → String → List String
split_from sep part run [] = part ∷ []
split_from sep part run (c ∷ s) =
    let more = split_from sep (part ++ c ∷ []) false s in
    let skip = split_from sep part true s in
    let cut : List String = part ∷ split_from sep [] true s in
    if sep c then (if run then skip else cut) else more

unfoldable pub split_runs : (Char → Bool) → String → List String
split_runs sep s = split_from sep [] false s

-- `parts.join(sep)`
unfoldable pub join : String → List String → String
join sep [] = ""
join sep (s ∷ []) = s
join sep (s ∷ t ∷ ss) = s ++ sep ++ join sep (t ∷ ss)

slug_test : slug "My Key!! 7" ≡ "my_key_7"
unfolding slug
slug_test = refl

trim_test : trim "  a b " ≡ "a b"
unfolding trim
trim_test = refl
