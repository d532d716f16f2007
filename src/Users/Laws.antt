-- ===== src/Users/Laws.antt =====
-- What the calls on users do to every user and to every squad.
use full_revna_like_projekt.Base.{
  String, ◌≡◌, refl, ◌∙◌, sym, ap, inl, inr, ◌||◌, Option, none, some, arith, ◌==◌, eq_iff,
  if◌then◌else◌, or_else, Bool-cases, Option-cases,
}
use full_revna_like_projekt.Base.Distinct.{Distinct}
use full_revna_like_projekt.Table.{find_id, assign}
use full_revna_like_projekt.Table.Map.{read, map?, read-find, read-assign, read-missing}
use full_revna_like_projekt.Table.Once.{Once}
use full_revna_like_projekt.Types.Users.{UserRecord, UserUpdateRequest, UserBulkActionRequest}
use full_revna_like_projekt.Client.{Client, Reply, throws, ok, user_keyed, squad_keyed}
use full_revna_like_projekt.Users.{
  change_user, bulk_squad, set_status, clear_traffic, assign_user, disable_user, enable_user,
  revoke_user, reset_user_traffic, update_user,
}

-- The reply of a call that reads or changes one user.
abbrev pub reply_of : Option UserRecord → Reply UserRecord
reply_of none = throws "User not found"
reply_of (some u) = ok u

abbrev pub ChangesUser :
    (UserRecord → UserRecord) → String → Client → Client × Reply UserRecord → Type 0
ChangesUser f user_id c out =
    (out.1 ≡ reply_of (map? f (read user_id c.users)))
    × ((j : String)
        → read j out.0.users ≡ (if user_id == j then map? f (read j c.users) else read j c.users))
    × (out.0 ≡ record c { users = out.0.users })

-- A call that changes one user replies with the user as it is afterwards, or throws where there is
-- no such user; it changes what the identifier of the user reads and nothing else of the client.
pub change_user-ChangesUser :
    (f : UserRecord → UserRecord) (user_id : String) (c : Client)
    → ((u : UserRecord) → (f u).id ≡ u.id)
    → ChangesUser f user_id c (change_user f user_id c)
unfolding change_user assign
change_user-ChangesUser f user_id c h = elim (Option-cases (find_id user_id c.users)) [
  | inl missing ↦
      let nobody = read-missing user_id c.users missing in
      rw (missing, nobody, change_user) (refl, untouched nobody, refl)
  | inr (r, found) ↦
      let there = read-find user_id c.users r found in
      rw (found, there, change_user) (ground arith, read-assign user_id r f c.users found h, refl)
]
  where
    untouched :
        read user_id c.users ≡ none
        → (j : String)
        → read j c.users ≡ (if user_id == j then map? f (read j c.users) else read j c.users)
    untouched e j = elim (Bool-cases (user_id == j)) [
      | inl same ↦
          let gone : read j c.users ≡ none =
            ap (λ i. read i c.users) (sym ((eq_iff user_id j).0 same)) ∙ e in
          rw (same, gone)
      | inr other ↦ rw other
    ]

-- A user after the fields of a request were written to it: a field that the request leaves out is as
-- it was, as are the identifier and the time of creation.
pub record Written (now : String) (request : UserUpdateRequest) (u v : UserRecord) : Type 0 where
  pub device_limit : v.device_limit ≡ or_else request.device_limit u.device_limit
  pub display_name : v.display_name ≡ or_else request.display_name u.display_name
  pub email : v.email ≡ or_else request.email u.email
  pub expires_at : v.expires_at ≡ or_else request.expires_at u.expires_at
  pub metadata_json : v.metadata_json ≡ or_else request.metadata_json u.metadata_json
  pub role : v.role ≡ or_else request.role u.role
  pub status : v.status ≡ or_else request.status u.status
  pub tags : v.tags ≡ or_else request.tags u.tags
  pub telegram_id : v.telegram_id ≡ or_else request.telegram_id u.telegram_id
  pub traffic_limit_gb : v.traffic_limit_gb ≡ or_else request.traffic_limit_gb u.traffic_limit_gb
  pub traffic_used_gb : v.traffic_used_gb ≡ or_else request.traffic_used_gb u.traffic_used_gb
  pub username : v.username ≡ or_else request.username u.username
  pub password : v.password ≡ (elim request.password [ none ↦ u.password | some p ↦ some p ])
  pub updated_at : v.updated_at ≡ now
  pub id : v.id ≡ u.id
  pub created_at : v.created_at ≡ u.created_at

assign_user-Written :
    (now : String) (request : UserUpdateRequest) (u : UserRecord)
    → Written now request u (assign_user now request u)
unfolding assign_user
assign_user-Written now request u = record {
  device_limit = refl;
  display_name = refl;
  email = refl;
  expires_at = refl;
  metadata_json = refl;
  role = refl;
  status = refl;
  tags = refl;
  telegram_id = refl;
  traffic_limit_gb = refl;
  traffic_used_gb = refl;
  username = refl;
  password = refl;
  updated_at = refl;
  id = refl;
  created_at = refl;
}

-- Disabling, enabling and revoking a user set its status and nothing else of it, a reset of the
-- traffic sets the traffic used to zero, and an update writes the fields that the request gives and
-- the time, and leaves the others. Each replies with the user as it is afterwards, or throws where
-- there is no such user, and changes nothing else of the client.
pub user_calls-ChangesUser :
    (now user_id : String) (request : UserUpdateRequest) (c : Client)
    → ChangesUser (λ u. record u { status = "disabled" }) user_id c (disable_user user_id c)
      × ChangesUser (λ u. record u { status = "active" }) user_id c (enable_user user_id c)
      × ChangesUser (λ u. record u { status = "revoked" }) user_id c (revoke_user user_id c)
      × ChangesUser (λ u. record u { traffic_used_gb = 0 }) user_id c (reset_user_traffic user_id c)
      × ((f : UserRecord → UserRecord) × ChangesUser f user_id c (update_user now user_id request c)
          × ((u : UserRecord) → Written now request u (f u)))
unfolding disable_user enable_user revoke_user reset_user_traffic update_user assign_user
user_calls-ChangesUser now user_id request c = (
  change_user-ChangesUser (set_status "disabled") user_id c (λ u. refl),
  change_user-ChangesUser (set_status "active") user_id c (λ u. refl),
  change_user-ChangesUser (set_status "revoked") user_id c (λ u. refl),
  change_user-ChangesUser clear_traffic user_id c (λ u. refl),
  (
    assign_user now request,
    change_user-ChangesUser (assign_user now request) user_id c (λ u. refl),
    assign_user-Written now request,
  ),
)

pub bulk_squad-users :
    (action : String) (request : UserBulkActionRequest) (c : Client)
    → (bulk_squad action request c).users ≡ c.users
unfolding bulk_squad
bulk_squad-users action request c =
    elim (Bool-cases ((action == "squad-add") || (action == "squad-remove"))) [
      | inr other ↦ rw other
      | inl squads ↦ elim (Option-cases (find_id (or_else request.squad_id "") c.squads)) [
        | inl missing ↦ rw (squads, missing)
        | inr (r, found) ↦ elim (Bool-cases (or_else request.squad_id "" == "")) [
          | inl unnamed ↦ rw (squads, found, unnamed)
          | inr named ↦ rw (squads, found, named)
        ]
      ]
    ]
