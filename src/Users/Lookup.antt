-- ===== src/Users/Lookup.antt =====
-- `lookupUsers` in apps/web/src/shared/api/developmentClient.ts.
use full_revna_like_projekt.Base.{
  String, Bool, not, none, some, List, [], ◌∷◌, ◌==◌, ◌==ₙ◌, if◌then◌else◌, or_else, filter, any,
}
use full_revna_like_projekt.Base.Text.{to_lower_case, trim, begins_with, contains, strip}
use full_revna_like_projekt.Base.Json.{to_string, get, nullish}
use full_revna_like_projekt.Table.{values}
use full_revna_like_projekt.Types.Users.{UserRecord, UserLookupResponse}
use full_revna_like_projekt.Client.{Client}
use full_revna_like_projekt.Profiles.Readiness.{is_empty}
use Prim.Native.Char.{Char, code}

-- `text.slice(4)` of a text that begins with "tag:"
abbrev after_tag : String → String
after_tag (String.◌∷◌ a (String.◌∷◌ b (String.◌∷◌ c (String.◌∷◌ d s)))) = s
after_tag s = ""

abbrev pub tag_of : String → String
tag_of normalized_query =
    if begins_with normalized_query "tag:"
    then trim (after_tag normalized_query)
    else normalized_query

unfoldable pub has_tag : String → UserRecord → Bool
has_tag tag user = any (λ item. to_lower_case item == tag) user.tags

abbrev pub is_no_dash : Char → Bool
is_no_dash c = not (code c ==ₙ b'-')

-- `String(user.metadata_json.numeric_id ?? user.metadata_json.id ?? '')`
abbrev numeric_id : UserRecord → String
numeric_id user = elim (nullish (get "numeric_id" user.metadata_json)) [
  | some v ↦ to_string v
  | none ↦ elim (nullish (get "id" user.metadata_json)) [ some v ↦ to_string v | none ↦ "" ]
]

-- The texts that a query may be part of.
unfoldable pub identity_fields : UserRecord → List String
identity_fields user =
    user.id
    ∷ to_lower_case (strip is_no_dash user.id)
    ∷ user.email
    ∷ or_else user.username ""
    ∷ or_else user.display_name ""
    ∷ or_else user.telegram_id ""
    ∷ to_lower_case (numeric_id user)
    ∷ []

unfoldable pub matches_identity : String → UserRecord → Bool
unfolding identity_fields
matches_identity normalized_query user =
    any (λ value. contains (to_lower_case value) normalized_query) (identity_fields user)

unfoldable pub lookup_users : String → Client → UserLookupResponse
unfolding has_tag matches_identity
lookup_users query c =
    let normalized_query = to_lower_case (trim query) in
    let tag_matches = filter (has_tag (tag_of normalized_query)) (values c.users) in
    let items = filter (matches_identity normalized_query) (values c.users) in
    if normalized_query == ""
    then record { items = []; query = query; strategy = "none" }
    else if not (is_empty tag_matches)
    then record { items = tag_matches; query = query; strategy = "tag" }
    else record {
      items = items;
      query = query;
      strategy = if is_empty items then "none" else "identity";
    }
