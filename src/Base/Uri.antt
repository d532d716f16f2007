-- ===== src/Base/Uri.antt =====
-- `encodeURIComponent`
use Prim.Native.Nat.{ℕ, ◌+◌, ◌/◌, ◌%◌}
use Prim.Native.Char.{Char, code}
use Prim.Native.String.{String, [], ◌∷◌, ◌++◌, char_at}
use mathlib.Core.Path.{◌≡◌, refl}
use mathlib.Core.Bool.{Bool, ◌||◌}
use mathlib.Core.List.{List, [], ◌∷◌}
use full_revna_like_projekt.Base.Tests.{ltb, if◌then◌else◌, ◌==ₙ◌}
use full_revna_like_projekt.Base.Text.{in_range}

-- The UTF-8 bytes of a code point.
abbrev utf8 : ℕ → List ℕ
utf8 c =
    if ltb c 128
    then c ∷ []
    else if ltb c 2048
    then (192 + c / 64) ∷ (128 + c % 64) ∷ []
    else if ltb c 65536
    then (224 + c / 4096) ∷ (128 + c / 64 % 64) ∷ (128 + c % 64) ∷ []
    else (240 + c / 262144) ∷ (128 + c / 4096 % 64) ∷ (128 + c / 64 % 64) ∷ (128 + c % 64) ∷ []

abbrev hex : ℕ → Char
hex d = char_at "0123456789ABCDEF" d

abbrev percent : List ℕ → String
percent [] = ""
percent (b ∷ bs) = ("%" ++ (hex (b / 16) ∷ hex (b % 16) ∷ [])) ++ percent bs

-- Letters, digits and - _ . ! ~ * ' ( )
abbrev is_unreserved : Char → Bool
is_unreserved c =
    in_range b'a' b'z' c
    || in_range b'A' b'Z' c
    || in_range b'0' b'9' c
    || (code c ==ₙ b'-')
    || (code c ==ₙ b'_')
    || (code c ==ₙ b'.')
    || (code c ==ₙ b'!')
    || (code c ==ₙ b'~')
    || (code c ==ₙ b'*')
    || (code c ==ₙ 39)
    || (code c ==ₙ b'(')
    || (code c ==ₙ b')')

unfoldable pub encode_uri_component : String → String
encode_uri_component [] = []
encode_uri_component (c ∷ s) =
    let rest = encode_uri_component s in
    let kept : String = c ∷ rest in
    let escaped = percent (utf8 (code c)) ++ rest in if is_unreserved c then kept else escaped

encode_test : encode_uri_component "a b/é" ≡ "a%20b%2F%C3%A9"
unfolding encode_uri_component
encode_test = refl
