-- ===== src/Settings/Laws.antt =====
-- What is read of a setting after it was written, and which login providers can be enabled.
use full_revna_like_projekt.Base.{
  ℕ, String, ◌≡◌, ◌≢◌, refl, ◌∙◌, sym, ap, inl, inr, ◌⊎◌, Bool, true, false, ◌&&◌, Option, none,
  some, ◌==◌, ◌==ₙ◌, eq_iff, if◌then◌else◌, or_else, is_some, Among, Bool-cases, Option-cases,
}
use full_revna_like_projekt.Base.Json.{Fields}
use full_revna_like_projekt.Table.{Table, find_id, assign}
use full_revna_like_projekt.Table.Laws.{Allocated, find_id-id, find_id-Among}
use full_revna_like_projekt.Table.Map.{
  read, map?, read-find, read-missing, read-assign, read-assign_at, read-push,
}
use full_revna_like_projekt.Types.Settings.{
  SettingRecord, AuthProviderRecord, AuthProviderUpdateRequest,
}
use full_revna_like_projekt.Client.{
  Client, throws, ok, setting_keyed, setting_group_keyed, auth_provider_keyed, session_user_id,
}
use full_revna_like_projekt.Settings.{
  next_setting, update_setting_value, updated_setting, update_setting, write_group,
  update_setting_group, assign_provider, is_true, update_auth_provider,
}
use Prim.Native.String

-- The identifier of a setting, where there is one.
abbrev pub kept_id : Option SettingRecord → Option String
kept_id none = none
kept_id (some s) = s.id

-- What a write is to leave: the value, and the identifier of before or one of its own.
abbrev pub rewritten : String → String → Fields → Table SettingRecord → SettingRecord
rewritten now key value_json t = record {
  id = some (or_else (kept_id (read key t)) (String.◌++◌ "setting_" key));
  key = key;
  updated_at = now;
  updated_by = some session_user_id;
  value_json = value_json;
}

setting-read :
    (now key : String) (value_json : Fields) (t : Table SettingRecord)
    → Allocated t
    → (j : String)
    → read j (update_setting_value now key value_json t)
      ≡ (if key == j then some (rewritten now key value_json t) else read j t)
unfolding update_setting_value next_setting
setting-read now key value_json t h j = elim (Option-cases (find_id key t)) [
  | inl missing ↦
      let absent = read-missing key t missing in
      rw (missing, absent, update_setting_value)
        (read-push (next_setting now key value_json none) t h missing j)
  | inr (r, found) ↦
      let there = read-find key t r found in
      rw (found, there, update_setting_value)
        (read-assign_at key r (λ s. next_setting now key value_json s.id) t found
            (sym (find_id-id key t r found)) j
          ∙ written r found)
]
  where
    written :
        (r : ℕ)
        → find_id key t ≡ some r
        → (if key == j
            then map? (λ s. next_setting now key value_json s.id) (read j t)
            else read j t)
          ≡ (if key == j then some (next_setting now key value_json (t.store r).id) else read j t)
    written r found = elim (Bool-cases (key == j)) [
      | inl same ↦
          let there : read j t ≡ some (t.store r) =
            ap (λ i. read i t) (sym ((eq_iff key j).0 same)) ∙ read-find key t r found in
          rw (same, there)
      | inr other ↦ rw other
    ]

setting-reply :
    (now key : String) (value_json : Fields) (t : Table SettingRecord)
    → updated_setting now key value_json t ≡ rewritten now key value_json t
unfolding updated_setting next_setting
setting-reply now key value_json t = elim (Option-cases (find_id key t)) [
  | inl missing ↦ rw (missing, read-missing key t missing, updated_setting)
  | inr (r, found) ↦ rw (found, read-find key t r found, updated_setting)
]

-- Where the references of the settings are in use, a setting that is written reads as the reply
-- says: with the key, the value and the time that were given, the user of the session, and the
-- identifier that it had, or one made of the key where it had none. Every other setting is
-- unchanged.
pub update_setting_writes :
    (now key : String) (value_json : Fields) (c : Client)
    → Allocated c.settings
    → ((update_setting now key value_json c).1 ≡ ok (rewritten now key value_json c.settings))
      × ((j : String)
          → read j (update_setting now key value_json c).0.settings ≡ (
              if key == j
              then some (rewritten now key value_json c.settings)
              else read j c.settings))
unfolding update_setting
update_setting_writes now key value_json c h = (
  ap ok (setting-reply now key value_json c.settings),
  setting-read now key value_json c.settings h,
)

-- Where the references of the settings are in use, a write of a group of settings throws and changes
-- nothing if there is no such group. Otherwise the group and the setting of its key both read the
-- value and the time that were given, and no other group or setting changes.
pub update_setting_group_writes :
    (now key : String) (value_json : Fields) (c : Client)
    → Allocated c.settings
    → ((read key c.setting_groups ≡ none)
        × (update_setting_group now key value_json c ≡ (c, throws "Setting group not found")))
      ⊎ ((is_some (read key c.setting_groups) ≡ true)
          × ((j : String)
              → (read j (update_setting_group now key value_json c).0.setting_groups ≡ (
                  if key == j
                  then map?
                      (λ g. record g {
                        value_json = value_json;
                        updated_at = some now;
                        updated_by = some session_user_id;
                      })
                      (read j c.setting_groups)
                  else read j c.setting_groups))
                × (read j (update_setting_group now key value_json c).0.settings ≡ (
                    if key == j
                    then some (rewritten now key value_json c.settings)
                    else read j c.settings))))
unfolding update_setting_group
update_setting_group_writes now key value_json c h =
    elim (Option-cases (find_id key c.setting_groups)) [
      | inl missing ↦
          inl (read-missing key c.setting_groups missing, rw (missing, update_setting_group))
      | inr (r, found) ↦
          let there = read-find key c.setting_groups r found in
          inr (
            ap is_some there,
            rw (found, update_setting_group)
                (λ j. (
                  read-assign key r (write_group now value_json) c.setting_groups found (λ g. refl)
                      j,
                  setting-read now key value_json c.settings h j,
                )),
          )
    ]

-- A provider without an implementation is not enabled.
abbrev pub Available : AuthProviderRecord → Type 0
Available a = ¬ ((a.enabled ≡ true) × (a.status ≡ "unimplemented"))

abbrev pub refused : AuthProviderUpdateRequest → AuthProviderRecord → Bool
refused request a = is_true request.enabled && (a.status == "unimplemented")

assign_provider-Available :
    (request : AuthProviderUpdateRequest) (a : AuthProviderRecord)
    → Available a
    → request.status ≢ some "unimplemented"
    → refused request a ≡ false
    → Available (assign_provider request a)
unfolding assign_provider
assign_provider-Available request a h n e = λ (enabled, status).
    elim (Option-cases request.status) [
      | inr (s, given) ↦
          absurd (n (given ∙ ap some (sym (ap (λ o. or_else o a.status) given) ∙ status)))
      | inl kept ↦
          let same : a.status ≡ "unimplemented" =
            sym (ap (λ o. or_else o a.status) kept) ∙ status in
          elim (Option-cases request.enabled) [
            | inl left ↦ h (sym (ap (λ o. or_else o a.enabled) left) ∙ enabled, same)
            | inr (b, asked) ↦
                let turned : b ≡ true = sym (ap (λ o. or_else o a.enabled) asked) ∙ enabled in
                absurd (
                  clash (
                    sym e
                    ∙ ap (λ o. is_true o && (a.status == "unimplemented")) (asked ∙ ap some turned)
                    ∙ (eq_iff _ _).1 same))
          ]
    ]
  where
    clash : false ≡ true → ⊥
    clash p = cc

-- In a client where no provider without an implementation is enabled, none is after an update of a
-- provider, unless the request itself sets that status.
pub update_auth_provider-Available :
    (provider : String) (request : AuthProviderUpdateRequest) (c : Client)
    → ((r : ℕ) → Among r c.auth_providers.refs → Available (c.auth_providers.store r))
    → request.status ≢ some "unimplemented"
    → ((r : ℕ)
        → Among r (update_auth_provider provider request c).0.auth_providers.refs
        → Available ((update_auth_provider provider request c).0.auth_providers.store r))
unfolding update_auth_provider assign
update_auth_provider-Available provider request c before h =
    elim (Option-cases (find_id provider c.auth_providers)) [
      | inl missing ↦ rw (missing, update_auth_provider) before
      | inr (q, found) ↦ elim (Bool-cases (refused request (c.auth_providers.store q))) [
        | inl refuses ↦ rw (found, update_auth_provider, refuses) before
        | inr accepts ↦
            rw (found, update_auth_provider, accepts)
              (λ r m. elim (Bool-cases (r ==ₙ q)) [
                | inl same ↦ rw same (
                    assign_provider-Available request (c.auth_providers.store q)
                      (before q (find_id-Among provider c.auth_providers q found)) h accepts)
                | inr other ↦ rw other (before r m)
              ])
      ]
    ]
