-- ===== src/Examples/Users.antt =====
-- The theorems on users, squads and settings at the state of a new client.
use full_revna_like_projekt.Base.{
  refl, inl, inr, ℕ, String, ◌≡◌, ◌≢◌, ◌⊎◌, ◌↔◌, true, none, some, List, [], ◌∷◌, ◌++◌, arith, ◌==◌,
  if◌then◌else◌, Among, is_some, or_else, eq_iff, All-Among,
}
use full_revna_like_projekt.Base.Distinct.{Distinct}
use full_revna_like_projekt.Base.Json.{Fields, end, field, bool}
use full_revna_like_projekt.Table.{find, find_id, first}
use full_revna_like_projekt.Table.Laws.{Allocated}
use full_revna_like_projekt.Table.Map.{read, map?}
use full_revna_like_projekt.Table.Once.{Once}
use full_revna_like_projekt.Types.Squads.{SquadUserMutationRequest}
use full_revna_like_projekt.Types.Users.{UserRecord, UserUpdateRequest, UserBulkActionRequest}
use full_revna_like_projekt.Types.Settings.{AuthProviderUpdateRequest}
use full_revna_like_projekt.Client.{
  Client, ok, throws, user_keyed, squad_keyed, setting_keyed, setting_group_keyed, session_user_id,
}
use full_revna_like_projekt.Client.Initial.{initial}
use full_revna_like_projekt.Squads.{add_squad_users, remove_squad_users}
use full_revna_like_projekt.Squads.Laws.{
  members, add_squad_users-members, remove_squad_users-members, add_squad_users_order,
}
use full_revna_like_projekt.Users.{
  bulk_users, disable_user, enable_user, revoke_user, reset_user_traffic, update_user,
}
use full_revna_like_projekt.Users.Laws.{ChangesUser, Written, user_calls-ChangesUser}
use full_revna_like_projekt.Users.Membership.{names_squad, bulk_users-members}
use full_revna_like_projekt.Settings.{update_setting, update_setting_group, update_auth_provider}
use full_revna_like_projekt.Settings.Laws.{
  rewritten, Available, update_setting_writes, update_setting_group_writes,
  update_auth_provider-Available,
}

abbrev noon : String
noon = "2026-06-01T12:00:00Z"

abbrev default_squad : String
default_squad = "squad_default"

abbrev mira : SquadUserMutationRequest
mira = record { user_ids = "usr_mira" ∷ [] }

-- The client after Mira became a member of the default squad.
abbrev with_mira : Client
with_mira = (add_squad_users "squad_default" mira initial).0

add_squad_users-members_example : Among "usr_mira" (members "squad_default" with_mira) ↔ (
    Among "usr_mira" (members "squad_default" initial)
    ⊎ ((default_squad ≡ default_squad)
        × (is_some (find_id "squad_default" initial.squads) ≡ true)
        × Among "usr_mira" mira.user_ids))
add_squad_users-members_example =
    add_squad_users-members "squad_default" mira initial "squad_default" "usr_mira"

remove_squad_users-members_example :
    Among "usr_mira" (members "squad_default" (remove_squad_users "squad_default" mira with_mira).0)
    ↔ (Among "usr_mira" (members "squad_default" with_mira)
        × (¬ ((default_squad ≡ default_squad) × Among "usr_mira" mira.user_ids)))
remove_squad_users-members_example =
    remove_squad_users-members "squad_default" mira with_mira "squad_default" "usr_mira"

add_squad_users_order_example :
    ((new : List String) × (members "squad_default" with_mira
        ≡ members "squad_default" initial ++ new))
    × (Distinct (members "squad_default" initial) → Distinct (members "squad_default" with_mira))
add_squad_users_order_example = add_squad_users_order "squad_default" mira initial "squad_default"

abbrev new_name : UserUpdateRequest
new_name = record {
  device_limit = none;
  display_name = some (some "Mira");
  email = none;
  expires_at = none;
  metadata_json = none;
  password = none;
  role = none;
  status = none;
  tags = none;
  telegram_id = none;
  traffic_limit_gb = none;
  traffic_used_gb = none;
  username = none;
}

user_calls-ChangesUser_example :
    ChangesUser
      (λ u. record u { status = "disabled" })
      "usr_mira"
      initial
      (disable_user "usr_mira" initial)
    × ChangesUser
        (λ u. record u { status = "active" })
        "usr_mira"
        initial
        (enable_user "usr_mira" initial)
    × ChangesUser
        (λ u. record u { status = "revoked" })
        "usr_mira"
        initial
        (revoke_user "usr_mira" initial)
    × ChangesUser
        (λ u. record u { traffic_used_gb = 0 })
        "usr_mira"
        initial
        (reset_user_traffic "usr_mira" initial)
    × ((f : UserRecord → UserRecord) × ChangesUser f "usr_mira" initial
          (update_user noon "usr_mira" new_name initial)
        × ((u : UserRecord) → Written noon new_name u (f u)))
user_calls-ChangesUser_example = user_calls-ChangesUser noon "usr_mira" new_name initial

abbrev two_users : UserBulkActionRequest
two_users = record {
  expires_at = none;
  squad_id = some "squad_default";
  status = none;
  tags = none;
  traffic_delta_gb = none;
  user_ids = "usr_mira" ∷ "usr_nikolai" ∷ [];
}

bulk_users-members_example :
    (Among "usr_mira" (members "squad_default" (bulk_users "squad-add" two_users initial).0) ↔ (
      Among "usr_mira" (members "squad_default" initial)
      ⊎ ((names_squad two_users initial ≡ true)
          × (or_else two_users.squad_id "" ≡ "squad_default")
          × Among "usr_mira" two_users.user_ids)))
    × (Among "usr_mira" (members "squad_default" (bulk_users "squad-remove" two_users initial).0)
        ↔ (Among "usr_mira" (members "squad_default" initial)
            × (¬ (
                (names_squad two_users initial ≡ true)
                × (or_else two_users.squad_id "" ≡ "squad_default")
                × Among "usr_mira" two_users.user_ids))))
bulk_users-members_example = bulk_users-members two_users initial "squad_default" "usr_mira"

settings-Allocated : Allocated initial.settings
settings-Allocated = ground arith

abbrev hidden : Fields
hidden = field "hidden" (bool true) end

update_setting_writes_example :
    ((update_setting noon "panel.theme" hidden initial).1
      ≡ ok (rewritten noon "panel.theme" hidden initial.settings))
    × ((j : String)
        → read j (update_setting noon "panel.theme" hidden initial).0.settings ≡ (
            if "panel.theme" == j
            then some (rewritten noon "panel.theme" hidden initial.settings)
            else read j initial.settings))
update_setting_writes_example =
    update_setting_writes noon "panel.theme" hidden initial settings-Allocated

update_setting_group_writes_example :
    ((read "panel.identity" initial.setting_groups ≡ none)
      × (update_setting_group noon "panel.identity" hidden initial
          ≡ (initial, throws "Setting group not found")))
    ⊎ ((is_some (read "panel.identity" initial.setting_groups) ≡ true)
        × ((j : String)
            → (read j (update_setting_group noon "panel.identity" hidden initial).0.setting_groups
                ≡ (if "panel.identity" == j
                    then map?
                        (λ g. record g {
                          value_json = hidden;
                          updated_at = some noon;
                          updated_by = some session_user_id;
                        })
                        (read j initial.setting_groups)
                    else read j initial.setting_groups))
              × (read j (update_setting_group noon "panel.identity" hidden initial).0.settings ≡ (
                  if "panel.identity" == j
                  then some (rewritten noon "panel.identity" hidden initial.settings)
                  else read j initial.settings))))
update_setting_group_writes_example =
    update_setting_group_writes noon "panel.identity" hidden initial settings-Allocated

abbrev enabling : AuthProviderUpdateRequest
enabling = record {
  display_name = none;
  enabled = some true;
  metadata_json = none;
  scopes = none;
  status = none;
}

providers-Available :
    (r : ℕ) → Among r initial.auth_providers.refs → Available (initial.auth_providers.store r)
providers-Available r m =
    All-Among (λ q. Available (initial.auth_providers.store q)) initial.auth_providers.refs r
      (ground (arith, eq_iff "active" "unimplemented")) m

keeps_status : enabling.status ≢ some "unimplemented"
keeps_status e = cc

telegram_listed : Among 2 (update_auth_provider "telegram" enabling initial).0.auth_providers.refs
unfolding update_auth_provider find_id find first
telegram_listed = inr (inr (inl refl))

update_auth_provider-Available_example :
    Available ((update_auth_provider "telegram" enabling initial).0.auth_providers.store 2)
update_auth_provider-Available_example =
    update_auth_provider-Available "telegram" enabling initial providers-Available keeps_status 2
      telegram_listed
