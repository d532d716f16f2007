-- ===== src/History/Laws.antt =====
-- What holds of every state that a client can reach.
use full_revna_like_projekt.Base.{
  suc, refl, sym, subst, map, List, [], ◌∷◌, All, ◌≢◌, String, arith,
}
use full_revna_like_projekt.Table.{values, size}
use full_revna_like_projekt.Table.Laws.{unshift-Allocated}
use full_revna_like_projekt.Table.Upkeep.{unshift-Tidy, remove_id-Tidy, remove_id-Allocated}
use full_revna_like_projekt.Client.{Client, subscription_keyed, user_keyed}
use full_revna_like_projekt.Client.Initial.{initial}
use full_revna_like_projekt.Nodes.Laws.{
  queue_command-Numbered, command_id, command_ids-distinct, queued-id,
}
use full_revna_like_projekt.Types.Runtime.{NodeCommandRecord, NodeCommandCreateRequest}
use full_revna_like_projekt.History.{Step, Reachable}
use full_revna_like_projekt.History.Frame.{
  Sound, framed, with_commands, with_subscriptions, with_settings, with_users,
  update_subscription_page_config-Frame, clone_subscription_page_config-Frame,
  update_response_rule-Frame, update_subscription_template-Frame, update_host-Frame,
  update_node_plugin-Frame, clone_node_plugin-Frame, update_profile-Frame, update_squad-Frame,
  add_squad_users-Frame, remove_squad_users-Frame, revoke_api_key-Frame, update_auth_provider-Frame,
  cleanup_stale_profiles-Frame,
}
use full_revna_like_projekt.History.Tracked.{
  restart_all_nodes-Sound, apply_profile_to_node-Sound, selection-Sound, issue-Sound,
  clone_subscription-Sound, revoke_subscription-Sound, update_subscription-Sound,
  update_setting_value-Allocated, update_setting_group-Sound, change_user-Sound, bulk_users-Sound,
  clear_user_devices-Sound, delete_user_device-Sound,
}
use full_revna_like_projekt.Nodes.{queued, restart_request, reset_request, drop_request}
use full_revna_like_projekt.Users.{set_status, clear_traffic, assign_user}
use full_revna_like_projekt.Delivery.Pages.{
  create_subscription_page_config, delete_subscription_page_config,
  reorder_subscription_page_configs,
}
use full_revna_like_projekt.Delivery.Rules.{
  create_response_rule, delete_response_rule, reorder_response_rules,
}
use full_revna_like_projekt.Delivery.Templates.{
  create_subscription_template, delete_subscription_template, reorder_subscription_templates,
}
use full_revna_like_projekt.Hosts.{create_host, delete_host, bulk_hosts, reorder_hosts}
use full_revna_like_projekt.Nodes.{
  create_node_command, restart_node, reset_node_traffic, drop_connections,
}
use full_revna_like_projekt.Plugins.{create_node_plugin, reorder_node_plugins, delete_node_plugin}
use full_revna_like_projekt.Profiles.{
  create_profile, delete_profile, bulk_profiles, reorder_profiles,
}
use full_revna_like_projekt.Settings.{update_setting}
use full_revna_like_projekt.Settings.Credentials.{
  create_api_key, verify_totp_setup, delete_mfa_method, webauthn_register_verify,
  delete_webauthn_credential,
}
use full_revna_like_projekt.Squads.{create_squad, delete_squad, reorder_squads}
use full_revna_like_projekt.Subscriptions.{create_subscription, delete_subscription}
use full_revna_like_projekt.Users.{
  create_user, delete_user, disable_user, enable_user, revoke_user, reset_user_traffic, update_user,
}

-- Every call keeps what the theorems ask of a client.
step-Sound : (c d : Client) → Sound c → Step c d → Sound d
unfolding create_subscription_page_config delete_subscription_page_config
    reorder_subscription_page_configs create_response_rule delete_response_rule
    reorder_response_rules create_subscription_template delete_subscription_template
    reorder_subscription_templates create_host delete_host bulk_hosts reorder_hosts
    create_node_command restart_node reset_node_traffic drop_connections create_node_plugin
    reorder_node_plugins delete_node_plugin create_profile delete_profile bulk_profiles
    reorder_profiles update_setting create_api_key verify_totp_setup delete_mfa_method
    webauthn_register_verify delete_webauthn_credential create_squad delete_squad reorder_squads
    create_subscription delete_subscription create_user delete_user disable_user enable_user
    revoke_user reset_user_traffic update_user
step-Sound c _ v (Step.create_subscription_page_config m request _) =
    framed c _ v (refl, refl, refl, refl)
step-Sound c _ v (Step.delete_subscription_page_config s _) = framed c _ v (refl, refl, refl, refl)
step-Sound c _ v (Step.update_subscription_page_config s request _) =
    framed c _ v (update_subscription_page_config-Frame s request c)
step-Sound c _ v (Step.reorder_subscription_page_configs list _) =
    framed c _ v (refl, refl, refl, refl)
step-Sound c _ v (Step.clone_subscription_page_config m s request _) =
    framed c _ v (clone_subscription_page_config-Frame m s request c)
step-Sound c _ v (Step.create_response_rule m request _) = framed c _ v (refl, refl, refl, refl)
step-Sound c _ v (Step.delete_response_rule s _) = framed c _ v (refl, refl, refl, refl)
step-Sound c _ v (Step.update_response_rule s request _) =
    framed c _ v (update_response_rule-Frame s request c)
step-Sound c _ v (Step.reorder_response_rules list _) = framed c _ v (refl, refl, refl, refl)
step-Sound c _ v (Step.create_subscription_template m request _) =
    framed c _ v (refl, refl, refl, refl)
step-Sound c _ v (Step.delete_subscription_template s _) = framed c _ v (refl, refl, refl, refl)
step-Sound c _ v (Step.update_subscription_template s request _) =
    framed c _ v (update_subscription_template-Frame s request c)
step-Sound c _ v (Step.reorder_subscription_templates list _) =
    framed c _ v (refl, refl, refl, refl)
step-Sound c _ v (Step.create_host request _) = framed c _ v (refl, refl, refl, refl)
step-Sound c _ v (Step.delete_host s _) = framed c _ v (refl, refl, refl, refl)
step-Sound c _ v (Step.update_host s request _) = framed c _ v (update_host-Frame s request c)
step-Sound c _ v (Step.bulk_hosts s request _) = framed c _ v (refl, refl, refl, refl)
step-Sound c _ v (Step.reorder_hosts list _) = framed c _ v (refl, refl, refl, refl)
step-Sound c _ v (Step.create_node_command s s2 request _) =
    with_commands c _ v (queue_command-Numbered s s2 request c.node_commands v.commands) refl refl
      refl
step-Sound c _ v (Step.restart_node s s2 _) =
    with_commands c _ v (queue_command-Numbered s s2 restart_request c.node_commands v.commands)
      refl refl refl
step-Sound c _ v (Step.restart_all_nodes s _) = restart_all_nodes-Sound s c v
step-Sound c _ v (Step.reset_node_traffic s s2 _) =
    with_commands c _ v (queue_command-Numbered s s2 reset_request c.node_commands v.commands) refl
      refl refl
step-Sound c _ v (Step.drop_connections s request _) =
    with_commands c _ v
      (queue_command-Numbered s request.node_id (drop_request request) c.node_commands v.commands)
      refl refl refl
step-Sound c _ v (Step.create_node_plugin m request _) = framed c _ v (refl, refl, refl, refl)
step-Sound c _ v (Step.clone_node_plugin m s request _) =
    framed c _ v (clone_node_plugin-Frame m s request c)
step-Sound c _ v (Step.reorder_node_plugins s items _) = framed c _ v (refl, refl, refl, refl)
step-Sound c _ v (Step.update_node_plugin s s2 request _) =
    framed c _ v (update_node_plugin-Frame s s2 request c)
step-Sound c _ v (Step.delete_node_plugin s _) = framed c _ v (refl, refl, refl, refl)
step-Sound c _ v (Step.create_profile request _) = framed c _ v (refl, refl, refl, refl)
step-Sound c _ v (Step.apply_profile_to_node s s2 _) = apply_profile_to_node-Sound s s2 c v
step-Sound c _ v (Step.delete_profile s _) = framed c _ v (refl, refl, refl, refl)
step-Sound c _ v (Step.update_profile s request _) = framed c _ v (update_profile-Frame s request c)
step-Sound c _ v (Step.bulk_profiles s request _) = framed c _ v (refl, refl, refl, refl)
step-Sound c _ v (Step.reorder_profiles list _) = framed c _ v (refl, refl, refl, refl)
step-Sound c _ v (Step.cleanup_stale_profiles request _) =
    framed c _ v (cleanup_stale_profiles-Frame request c)
step-Sound c _ v (Step.update_node_protocol_selection s s2 list _) = selection-Sound s s2 list c v
step-Sound c _ v (Step.update_setting s s2 value_json _) =
    with_settings c _ v (update_setting_value-Allocated s s2 value_json c.settings v.settings) refl
      refl refl
step-Sound c _ v (Step.update_setting_group s s2 value_json _) =
    update_setting_group-Sound s s2 value_json c v
step-Sound c _ v (Step.update_auth_provider s request _) =
    framed c _ v (update_auth_provider-Frame s request c)
step-Sound c _ v (Step.create_api_key request _) = framed c _ v (refl, refl, refl, refl)
step-Sound c _ v (Step.revoke_api_key s _) = framed c _ v (revoke_api_key-Frame s c)
step-Sound c _ v (Step.verify_totp_setup s s2 _) = framed c _ v (refl, refl, refl, refl)
step-Sound c _ v (Step.delete_mfa_method s _) = framed c _ v (refl, refl, refl, refl)
step-Sound c _ v (Step.webauthn_register_verify m label _) = framed c _ v (refl, refl, refl, refl)
step-Sound c _ v (Step.delete_webauthn_credential s _) = framed c _ v (refl, refl, refl, refl)
step-Sound c _ v (Step.create_squad request _) = framed c _ v (refl, refl, refl, refl)
step-Sound c _ v (Step.delete_squad s _) = framed c _ v (refl, refl, refl, refl)
step-Sound c _ v (Step.update_squad s request _) = framed c _ v (update_squad-Frame s request c)
step-Sound c _ v (Step.add_squad_users s request _) =
    framed c _ v (add_squad_users-Frame s request c)
step-Sound c _ v (Step.remove_squad_users s request _) =
    framed c _ v (remove_squad_users-Frame s request c)
step-Sound c _ v (Step.reorder_squads list _) = framed c _ v (refl, refl, refl, refl)
step-Sound c _ v (Step.create_subscription m request _) =
    with_subscriptions c _ v (unshift-Allocated _ c.subscriptions v.subscriptions) refl refl refl
step-Sound c _ v (Step.issue_subscription_from_profile m request _) = issue-Sound m request c v
step-Sound c _ v (Step.clone_subscription m s _) = clone_subscription-Sound m s c v
step-Sound c _ v (Step.delete_subscription s _) =
    with_subscriptions c _ v (remove_id-Allocated s c.subscriptions v.subscriptions) refl refl refl
step-Sound c _ v (Step.revoke_subscription s s2 _) = revoke_subscription-Sound s s2 c v
step-Sound c _ v (Step.update_subscription s request _) = update_subscription-Sound s request c v
step-Sound c _ v (Step.create_user s request _) =
    with_users c _ v (unshift-Tidy _ c.users v.users) refl refl refl
step-Sound c _ v (Step.delete_user s _) =
    with_users c _ v (remove_id-Tidy s c.users v.users) refl refl refl
step-Sound c _ v (Step.disable_user s _) = change_user-Sound (set_status "disabled") s c v
step-Sound c _ v (Step.enable_user s _) = change_user-Sound (set_status "active") s c v
step-Sound c _ v (Step.revoke_user s _) = change_user-Sound (set_status "revoked") s c v
step-Sound c _ v (Step.reset_user_traffic s _) = change_user-Sound clear_traffic s c v
step-Sound c _ v (Step.update_user s s2 request _) =
    change_user-Sound (assign_user s request) s2 c v
step-Sound c _ v (Step.bulk_users s request _) = bulk_users-Sound s request c v
step-Sound c _ v (Step.clear_user_devices s _) = clear_user_devices-Sound s c v
step-Sound c _ v (Step.delete_user_device s s2 _) = delete_user_device-Sound s s2 c v

initial-Sound : Sound initial
unfolding values size
initial-Sound = record {
  commands = record { allocated = tt; ids = refl };
  subscriptions = ground arith;
  settings = ground arith;
  users = ground arith;
}

-- In every state that a client can reach, whatever calls were made and in whatever order, the
-- commands carry the identifiers `cmd_n`, …, `cmd_1`, the newest first, where `n` is their number;
-- the references of the commands, subscriptions, settings and users are in use; and no user is
-- in the array of users twice.
pub Reachable-Sound : (c : Client) → Reachable c → Sound c
Reachable-Sound c (Reachable.start) = initial-Sound
Reachable-Sound c (Reachable.then {c = before} {d = _} r s) =
    step-Sound before c (Reachable-Sound before r) s

ids_of_map :
    (P : String → Type 0) (xs : List NodeCommandRecord)
    → All P (map (λ command. command.id) xs)
    → All (λ command. P command.id) xs
ids_of_map P [] a = tt
ids_of_map P (x ∷ xs) a = (a.0, ids_of_map P xs a.1)

-- In every state that a client can reach, a command that is queued gets an identifier that no command there
-- has.
pub Reachable-new_command :
    (c : Client)
    → Reachable c
    → (now node_id : String) (request : NodeCommandCreateRequest)
    → All
        (λ command. command.id ≢ (queued now node_id request c.node_commands).id)
        (values c.node_commands)
Reachable-new_command c r now node_id request =
    let numbered = (Reachable-Sound c r).commands in
    let n = size c.node_commands in
    subst (λ i. All (λ command. command.id ≢ i) (values c.node_commands))
      (sym (queued-id now node_id request c.node_commands))
      (ids_of_map (λ i. i ≢ command_id (suc n)) (values c.node_commands)
        (subst (All (λ i. i ≢ command_id (suc n))) (sym numbered.ids)
          (command_ids-distinct n (suc n) (omega arith))))
