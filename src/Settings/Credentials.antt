-- ===== src/Settings/Credentials.antt =====
-- API keys, second factors and passkeys in apps/web/src/shared/api/developmentClient.ts.
use full_revna_like_projekt.Base.{
  ℕ, zero, suc, ◌-◌, String, none, some, List, [], ◌==◌, if◌then◌else◌, Option, or_else,
}
use full_revna_like_projekt.Base.Text.{slug, in_range}
use full_revna_like_projekt.Base.Decimal.{to_text}
use full_revna_like_projekt.Table.{values, find_id, assign, unshift, remove_id}
use full_revna_like_projekt.Types.Settings.{
  ApiKeyRecord, ApiKeyCreateRequest, ApiKeyCreateResponse, MfaMethod, WebAuthnCredentialRecord,
}
use full_revna_like_projekt.Client.{
  Client, Reply, ok, Moment, api_key_keyed, mfa_method_keyed, webauthn_credential_keyed,
  session_name,
}
use Prim.Native.Char.{Char, code}
use Prim.Native.String.{◌++◌, char_at, count}

abbrev upper : Char → Char
upper c = if in_range b'a' b'z' c then char_at "ABCDEFGHIJKLMNOPQRSTUVWXYZ" (code c - b'a') else c

-- `toUpperCase` on ASCII letters.
unfoldable pub to_upper_case : String → String
to_upper_case String.[] = String.[]
to_upper_case (String.◌∷◌ c s) = String.◌∷◌ (upper c) (to_upper_case s)

abbrev drop_chars : ℕ → String → String
drop_chars zero s = s
drop_chars (suc n) String.[] = String.[]
drop_chars (suc n) (String.◌∷◌ c s) = drop_chars n s

-- `s.slice(-6)`
abbrev last_six : String → String
last_six s = drop_chars (count s - 6) s

abbrev or_new : String → String
or_new s = if s == "" then "new" else s

unfoldable pub api_key_id : String → String
api_key_id name = "key_" ++ or_new (slug name)

unfoldable pub key_from_request : ApiKeyCreateRequest → ApiKeyRecord
unfolding api_key_id to_upper_case
key_from_request request = record {
  created_at = "2026-05-27";
  expires_at = request.expires_at;
  fingerprint = "fp_" ++ to_upper_case (last_six (api_key_id request.name));
  id = api_key_id request.name;
  key_prefix = none;
  last_used_at = none;
  name = request.name;
  owner = session_name;
  owner_user_id = none;
  scopes = request.scopes;
  status = "active";
}

unfoldable pub create_api_key : ApiKeyCreateRequest → Client → Client × Reply ApiKeyCreateResponse
unfolding key_from_request
create_api_key request c = (
  record c { api_keys = unshift (key_from_request request) c.api_keys },
  ok (record {
    api_key = "lumen_key_one_time_value";
    expires_at = request.expires_at;
    id = api_key_id request.name;
    key_prefix = "lumen_key_dev";
    name = request.name;
  }),
)

abbrev pub revoke_key : ApiKeyRecord → ApiKeyRecord
revoke_key key = record key { status = "revoked" }

-- An unknown key is no error.
unfoldable pub revoke_api_key : String → Client → Client
revoke_api_key api_key_id c = elim (find_id api_key_id c.api_keys) [
  | none ↦ c
  | some r ↦ record c { api_keys = assign r revoke_key c.api_keys }
]

unfoldable pub verify_totp_setup : String → String → Client → Client × Reply (List MfaMethod)
verify_totp_setup now method_id c =
    let mfa_methods =
      unshift
        (record {
          confirmed_at = some now;
          id = method_id;
          kind = "totp";
          label = "Development authenticator";
          last_used_at = none;
          status = "active";
        })
        c.mfa_methods in
    (record c { mfa_methods = mfa_methods }, ok (values mfa_methods))

unfoldable pub delete_mfa_method : String → Client → Client
delete_mfa_method method_id c = record c { mfa_methods = remove_id method_id c.mfa_methods }

unfoldable pub webauthn_register_verify :
    Moment → Option String → Client → Client × Reply WebAuthnCredentialRecord
webauthn_register_verify m label c =
    let credential : WebAuthnCredentialRecord = record {
      id = "passkey_" ++ to_text m.first_ms;
      label = some (or_else label "Development passkey");
      aaguid = none;
      sign_count = 0;
      transports = [];
      created_at = m.iso;
      last_used_at = none;
    } in
    (record c { webauthn_credentials = unshift credential c.webauthn_credentials }, ok credential)

unfoldable pub delete_webauthn_credential : String → Client → Client
delete_webauthn_credential credential_id c = record c {
  webauthn_credentials = remove_id credential_id c.webauthn_credentials;
}
