-- ===== src/History/Tracked.antt =====
-- The calls that change the commands, the subscriptions, the settings or the users.
use full_revna_like_projekt.Base.{
  ℕ, String, sym, subst, inl, inr, ◌==◌, if-cases, Bool-cases, Option-cases, List, [], ◌∷◌, any,
  some, refl, or_else, ◌||◌,
}
use full_revna_like_projekt.Base.Json.{Fields}
use full_revna_like_projekt.Table.{Table, find_id, assign}
use full_revna_like_projekt.Table.Laws.{Allocated, unshift-Allocated}
use full_revna_like_projekt.Table.Upkeep.{Tidy, push-Allocated, assign_all-Tidy, remove_ids-Tidy}
use full_revna_like_projekt.Types.Nodes.{NodeRecord}
use full_revna_like_projekt.Types.Settings.{SettingRecord}
use full_revna_like_projekt.Types.Subscriptions.{
  SubscriptionIssueFromProfileRequest, SubscriptionUpdateRequest,
}
use full_revna_like_projekt.Types.Users.{UserRecord, UserBulkActionRequest}
use full_revna_like_projekt.Client.{
  Client, Moment, profile_keyed, subscription_keyed, setting_keyed, setting_group_keyed, user_keyed,
  squad_keyed,
}
use full_revna_like_projekt.Nodes.{restart_request, restart_nodes, restart_all_nodes, queue_command}
use full_revna_like_projekt.Nodes.Laws.{Numbered, queue_command-Numbered}
use full_revna_like_projekt.Profiles.{apply_profile_to_node, apply_payload}
use full_revna_like_projekt.Profiles.Selection.{
  Selecting, select_step, select_loop, wanted_status, selection_request,
  update_node_protocol_selection, selecting, node_profiles,
}
use full_revna_like_projekt.Subscriptions.{
  choose_host, issue_subscription_from_profile, clone_subscription, revoke_subscription,
  update_subscription,
}
use full_revna_like_projekt.Settings.{update_setting_value, update_setting_group}
use full_revna_like_projekt.Users.{change_user, bulk_user, bulk_squad, bulk_users}
use full_revna_like_projekt.Users.Laws.{bulk_squad-users}
use full_revna_like_projekt.History.Frame.{
  Frame, Sound, with_commands, with_subscriptions, with_settings, with_users,
}
use full_revna_like_projekt.Users.Devices.{
  clear_user_devices, delete_user_device, devices_of, is_null,
}

restart_nodes-Sound :
    (now : String) (nodes : List NodeRecord) (c : Client)
    → Sound c
    → Sound (restart_nodes now nodes c).0
unfolding restart_nodes
restart_nodes-Sound now [] c v = v
restart_nodes-Sound now (node ∷ nodes) c v =
    restart_nodes-Sound now nodes
      (record c { node_commands = queue_command now node.id restart_request c.node_commands })
      (with_commands c _ v
        (queue_command-Numbered now node.id restart_request c.node_commands v.commands) refl refl
        refl)

pub restart_all_nodes-Sound :
    (now : String) (c : Client) → Sound c → Sound (restart_all_nodes now c).0
unfolding restart_all_nodes
restart_all_nodes-Sound now c v = restart_nodes-Sound now c.node_records c v

pub apply_profile_to_node-Sound :
    (now profile_id : String) (c : Client)
    → Sound c
    → Sound (apply_profile_to_node now profile_id c).0
unfolding apply_profile_to_node
apply_profile_to_node-Sound now profile_id c v =
    elim (Option-cases (find_id profile_id c.profiles)) [
      | inl missing ↦ rw (missing, apply_profile_to_node) v
      | inr (r, found) ↦
          let profile = c.profiles.store r in
          rw (found, apply_profile_to_node)
            (with_commands c _ v
              (queue_command-Numbered now profile.node_id
                (record {
                  command_type = "outbound.apply";
                  payload_json = some (apply_payload profile);
                })
                c.node_commands v.commands)
              refl refl refl)
    ]

loop-Numbered :
    (now node_id : String) (enabled : List String) (rs : List ℕ) (s : Selecting)
    → Numbered s.node_commands
    → Numbered (select_loop now node_id enabled rs s).node_commands
unfolding select_loop select_step
loop-Numbered now node_id enabled [] s h = h
loop-Numbered now node_id enabled (r ∷ rs) s h =
    let p = s.profiles.store r in
    loop-Numbered now node_id enabled rs (select_step now node_id enabled r s) (
      if-cases (λ (t : Selecting). Numbered t.node_commands) (p.status == wanted_status enabled p) s
        _ (λ _. h)
        (λ _.
          queue_command-Numbered now node_id (selection_request (wanted_status enabled p) p)
            s.node_commands h))

pub selection-Sound :
    (now node_id : String) (enabled : List String) (c : Client)
    → Sound c
    → Sound (update_node_protocol_selection now node_id enabled c).0
unfolding update_node_protocol_selection selecting
selection-Sound now node_id enabled c v =
    with_commands c _ v
      (loop-Numbered now node_id enabled (node_profiles node_id c.profiles) (selecting c)
        v.commands)
      refl refl refl

pub issue-Sound :
    (m : Moment) (request : SubscriptionIssueFromProfileRequest) (c : Client)
    → Sound c
    → Sound (issue_subscription_from_profile m request c).0
unfolding issue_subscription_from_profile
issue-Sound m request c v = elim (Option-cases (find_id request.profile_id c.profiles)) [
  | inl missing ↦ rw (missing, issue_subscription_from_profile) v
  | inr (p, found) ↦
      elim (Option-cases (choose_host request.host_id (c.profiles.store p) c.hosts)) [
        | inl nowhere ↦ rw (found, nowhere, issue_subscription_from_profile) v
        | inr (q, chosen) ↦
            rw (found, chosen, issue_subscription_from_profile)
              (with_subscriptions c _ v (unshift-Allocated _ c.subscriptions v.subscriptions) refl
                refl refl)
      ]
]

pub clone_subscription-Sound :
    (m : Moment) (i : String) (c : Client) → Sound c → Sound (clone_subscription m i c).0
unfolding clone_subscription
clone_subscription-Sound m i c v = elim (Option-cases (find_id i c.subscriptions)) [
  | inl missing ↦ rw (missing, clone_subscription) v
  | inr (r, found) ↦
      rw (found, clone_subscription)
        (with_subscriptions c _ v (unshift-Allocated _ c.subscriptions v.subscriptions) refl refl
          refl)
]

pub revoke_subscription-Sound :
    (now i : String) (c : Client) → Sound c → Sound (revoke_subscription now i c).0
unfolding revoke_subscription assign
revoke_subscription-Sound now i c v = elim (Option-cases (find_id i c.subscriptions)) [
  | inl missing ↦ rw (missing, revoke_subscription) v
  | inr (r, found) ↦
      rw (found, revoke_subscription) (with_subscriptions c _ v (v.subscriptions) refl refl refl)
]

pub update_subscription-Sound :
    (i : String) (request : SubscriptionUpdateRequest) (c : Client)
    → Sound c
    → Sound (update_subscription i request c).0
unfolding update_subscription assign
update_subscription-Sound i request c v = elim (Option-cases (find_id i c.subscriptions)) [
  | inl missing ↦ rw (missing, update_subscription) v
  | inr (r, found) ↦
      rw (found, update_subscription) (with_subscriptions c _ v (v.subscriptions) refl refl refl)
]

pub update_setting_value-Allocated :
    (now key : String) (value_json : Fields) (t : Table SettingRecord)
    → Allocated t
    → Allocated (update_setting_value now key value_json t)
unfolding update_setting_value assign
update_setting_value-Allocated now key value_json t h = elim (Option-cases (find_id key t)) [
  | inl missing ↦ rw (missing, update_setting_value) (push-Allocated _ t h)
  | inr (r, found) ↦ rw (found, update_setting_value) h
]

pub update_setting_group-Sound :
    (now key : String) (value_json : Fields) (c : Client)
    → Sound c
    → Sound (update_setting_group now key value_json c).0
unfolding update_setting_group
update_setting_group-Sound now key value_json c v =
    elim (Option-cases (find_id key c.setting_groups)) [
      | inl missing ↦ rw (missing, update_setting_group) v
      | inr (r, found) ↦
          rw (found, update_setting_group)
            (with_settings c _ v
              (update_setting_value-Allocated now key value_json c.settings v.settings) refl refl
              refl)
    ]

pub change_user-Sound :
    (f : UserRecord → UserRecord) (i : String) (c : Client) → Sound c → Sound (change_user f i c).0
unfolding change_user assign
change_user-Sound f i c v = elim (Option-cases (find_id i c.users)) [
  | inl missing ↦ rw (missing, change_user) v
  | inr (r, found) ↦ rw (found, change_user) (with_users c _ v v.users refl refl refl)
]

bulk_squad-Frame :
    (action : String) (request : UserBulkActionRequest) (c : Client)
    → Frame c (bulk_squad action request c)
unfolding bulk_squad
bulk_squad-Frame action request c =
    elim (Bool-cases ((action == "squad-add") || (action == "squad-remove"))) [
      | inr other ↦ rw other (refl, refl, refl, refl)
      | inl squads ↦ elim (Option-cases (find_id (or_else request.squad_id "") c.squads)) [
        | inl missing ↦ rw (squads, missing) (refl, refl, refl, refl)
        | inr (r, found) ↦ elim (Bool-cases (or_else request.squad_id "" == "")) [
          | inl unnamed ↦ rw (squads, found, unnamed) (refl, refl, refl, refl)
          | inr named ↦ rw (squads, found, named) (refl, refl, refl, refl)
        ]
      ]
    ]

pub bulk_users-Sound :
    (action : String) (request : UserBulkActionRequest) (c : Client)
    → Sound c
    → Sound (bulk_users action request c).0
unfolding bulk_users
bulk_users-Sound action request c v =
    let (commands, subscriptions, settings, _) = bulk_squad-Frame action request _ in
    with_users c _ v
      (subst Tidy (sym (bulk_squad-users action request _)) (
        if-cases Tidy (action == "delete") _ _
          (λ _. remove_ids-Tidy _ _ (assign_all-Tidy _ (bulk_user action request) c.users v.users))
          (λ _. assign_all-Tidy _ (bulk_user action request) c.users v.users)))
      commands subscriptions settings

pub clear_user_devices-Sound :
    (i : String) (c : Client) → Sound c → Sound (clear_user_devices i c).0
unfolding clear_user_devices assign
clear_user_devices-Sound i c v = elim (Option-cases (find_id i c.users)) [
  | inl missing ↦ rw (missing, clear_user_devices) v
  | inr (r, found) ↦ rw (found, clear_user_devices) (with_users c _ v v.users refl refl refl)
]

pub delete_user_device-Sound :
    (i device_id : String) (c : Client) → Sound c → Sound (delete_user_device i device_id c).0
unfolding delete_user_device assign
delete_user_device-Sound i device_id c v = elim (Option-cases (find_id i c.users)) [
  | inl missing ↦ rw (missing, delete_user_device) v
  | inr (r, found) ↦ elim (Bool-cases (any is_null (devices_of (c.users.store r)))) [
    | inl fails ↦ rw (found, delete_user_device, fails) v
    | inr works ↦ rw (found, delete_user_device, works) (with_users c _ v v.users refl refl refl)
  ]
]
