-- ===== src/Agent/Secrets.antt =====
-- The search for fields that look like secrets (apps/node-agent/src/outbound-model.js). A value is
-- one that JSON can write; the names of fields are lowered on ASCII letters.
pub mod Laws
use full_revna_like_projekt.Base.{
  ℕ, zero, suc, String, Bool, true, false, not, ◌&&◌, ◌||◌, List, [], ◌∷◌, ◌++◌, ◌==◌,
  if◌then◌else◌, any,
}
use full_revna_like_projekt.Base.Text.{strip, to_lower_case, begins_with, join, in_range}
use full_revna_like_projekt.Base.Decimal.{to_text}
use full_revna_like_projekt.Base.Json.{
  Json, null, bool, num, str, arr, obj, Items, nil, cons, Fields, end, field,
}
use full_revna_like_projekt.Base.Reply.{Reply, ok, throws}
use Prim.Native.String
use Prim.Native.Char.{Char}

-- `FORBIDDEN_INLINE_SECRET_KEYS`
abbrev pub forbidden_inline_secret_keys : List String
forbidden_inline_secret_keys =
    "secret" ∷ "secrets" ∷ "password" ∷ "passwd" ∷ "token" ∷ "accessToken" ∷ "access_token"
    ∷ "privateKey" ∷ "private_key" ∷ "subscriptionUrl" ∷ "subscription_url" ∷ "generatedConfig"
    ∷ "generated_config" ∷ []

-- `RUNTIME_CREDENTIAL_PAYLOAD_ROOTS`
abbrev pub runtime_credential_payload_roots : List String
runtime_credential_payload_roots =
    "$.payload.xrayConfig" ∷ "$.payload.hysteria2Config" ∷ "$.payload.ikev2Config"
    ∷ "$.payload.naiveConfig" ∷ "$.payload.openvpnConfig" ∷ "$.payload.openvpnShadowsocksConfig"
    ∷ "$.payload.singBoxShadowsocksConfig" ∷ "$.payload.shadowsocksPluginConfig"
    ∷ "$.payload.tuicConfig" ∷ "$.payload.wireguardConfig" ∷ []

-- `RUNTIME_CREDENTIAL_KEYS`
abbrev pub runtime_credential_keys : List String
runtime_credential_keys = "password" ∷ "passwd" ∷ "privateKey" ∷ "private_key" ∷ []

-- A character that `key.replace(/[-_]/g, "")` keeps.
abbrev pub is_kept : Char → Bool
is_kept c = not (in_range b'-' b'-' c || in_range b'_' b'_' c)

unfoldable pub normalize_key : String → String
normalize_key key = to_lower_case (strip is_kept key)

unfoldable pub same_name : String → String → Bool
unfolding normalize_key
same_name key other = normalize_key key == normalize_key other

-- `path === root || path.startsWith(`${root}.`) || path.startsWith(`${root}[`)`
unfoldable pub path_below : String → String → Bool
path_below path root =
    (path == root)
    || begins_with path (String.◌++◌ root ".")
    || begins_with path (String.◌++◌ root "[")

unfoldable pub is_allowed_runtime_credential_key : Bool → String → String → Bool
unfolding same_name path_below
is_allowed_runtime_credential_key allow path key =
    if not allow
    then false
    else if not (any (same_name key) runtime_credential_keys)
    then false
    else any (path_below path) runtime_credential_payload_roots

-- `${path}.${key}` and `${path}[${index}]`
abbrev pub member_path : String → String → String
member_path path key = String.◌++◌ path (String.◌++◌ "." key)

abbrev pub item_path : String → ℕ → String
item_path path i = String.◌++◌ path (String.◌++◌ "[" (String.◌++◌ (to_text i) "]"))

-- The loop over the forbidden names, for one field
unfoldable pub key_violations : Bool → String → String → List String → List String
unfolding is_allowed_runtime_credential_key same_name
key_violations allow path key [] = []
key_violations allow path key (f ∷ fs) =
    let rest = key_violations allow path key fs in
    if same_name key f && not (is_allowed_runtime_credential_key allow path key)
    then member_path path key ∷ rest
    else rest

-- `findForbiddenKeys`: the paths that it adds to `violations`, in order.
unfoldable mutual
  pub find_forbidden_keys : Bool → Json → String → List String
  find_forbidden_keys allow (arr vs) path = find_in_items allow vs path 0
  find_forbidden_keys allow (obj fs) path = find_in_fields allow fs path
  find_forbidden_keys allow _ path = []

  pub find_in_items : Bool → Items → String → ℕ → List String
  find_in_items allow nil path i = []
  find_in_items allow (cons v vs) path i =
      find_forbidden_keys allow v (item_path path i) ++ find_in_items allow vs path (suc i)

  pub find_in_fields : Bool → Fields → String → List String
  find_in_fields allow end path = []
  find_in_fields allow (field key v fs) path =
      key_violations allow path key forbidden_inline_secret_keys
      ++ (find_forbidden_keys allow v (member_path path key) ++ find_in_fields allow fs path)

abbrev pub secrets_message : List String → String
secrets_message violations =
    String.◌++◌ "Inline secret-like fields are not allowed: " (join ", " violations)

abbrev pub none_found : List String → Reply {0} Unit
none_found [] = ok tt
none_found (v ∷ vs) = throws (secrets_message (v ∷ vs))

-- `assertNoInlineSecrets(value, { allowRuntimeCredentialPayloads })`
unfoldable pub assert_no_inline_secrets : Bool → Json → Reply {0} Unit
unfolding find_forbidden_keys
assert_no_inline_secrets allow value = none_found (find_forbidden_keys allow value "$")
