-- ===== src/Subscriptions/Formats.antt =====
-- `readSubscriptionRenderFormats` and `subscriptionPublicFields` in
-- apps/web/src/shared/api/developmentClient.ts.
pub mod Laws
use full_revna_like_projekt.Base.{
  ℕ, String, Bool, true, false, ◌||◌, Option, none, some, List, [], ◌∷◌, map, ◌==◌, ◌==ₙ◌,
  if◌then◌else◌, or_else, flat_map, TextMap, lookup, insert_text, includes,
}
use full_revna_like_projekt.Base.Text.{to_lower_case, trim, split_runs, is_space}
use full_revna_like_projekt.Base.Uri.{encode_uri_component}
use Prim.Native.Char.{Char, code}
use Prim.Native.String.{◌++◌}

-- `/[,\s/]+/`
abbrev pub is_separator : Char → Bool
is_separator c = (code c ==ₙ b',') || is_space c || (code c ==ₙ b'/')

-- One round of the loop, on the texts of the set `normalized`.
unfoldable pub add_format : List String → String → List String
add_format normalized format =
    let value = to_lower_case (trim format) in
    if value == ""
    then normalized
    else if (value == "happ") || (value == "hiddify")
    then insert_text (insert_text normalized "happ") "hiddify"
    else if (value == "clash") || (value == "clash-meta") || (value == "mihomo")
    then insert_text normalized "mihomo"
    else if (value == "singbox") || (value == "sing-box") || (value == "nekobox")
    then insert_text normalized "sing-box"
    else if (value == "amnezia") || (value == "xray-json")
    then insert_text normalized "amnezia"
    else if (value == "raw-uri") || (value == "v2ray") || (value == "v2ray-base64")
    then insert_text normalized value
    else normalized

unfoldable pub add_formats : List String → List String → List String
unfolding add_format
add_formats normalized [] = normalized
add_formats normalized (format ∷ formats) = add_formats (add_format normalized format) formats

abbrev pub or_default : List String → List String
or_default [] = "lumen-json" ∷ []
or_default (f ∷ fs) = f ∷ fs

-- The texts that the three keys of a delivery profile name.
unfoldable pub format_values : TextMap → List String
format_values delivery = flat_map split_value ("format" ∷ "client" ∷ "adapter" ∷ [])
  where
    split_value : String → List String
    split_value key = split_runs is_separator (or_else (lookup key delivery) "")

unfoldable pub render_formats : TextMap → List String
unfolding add_formats format_values
render_formats delivery = or_default (add_formats [] (format_values delivery))

unfoldable pub manifest_url : String → String
manifest_url public_id = "/api/v1/subscriptions/public/" ++ public_id ++ "/manifest"

unfoldable pub page_url : String → String
page_url public_id = "/sub/" ++ public_id

unfoldable pub render_url : String → String
render_url public_id = "/api/v1/subscriptions/public/" ++ public_id ++ "/render"

unfoldable pub render_urls : String → List String → TextMap
render_urls public_id formats = map (λ format. (format, target format)) formats
  where
    target : String → String
    target format =
        "/api/v1/subscriptions/public/"
        ++ public_id
        ++ "/render?target="
        ++ encode_uri_component format
