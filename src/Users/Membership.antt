-- ===== src/Users/Membership.antt =====
-- The members of squads after a bulk call on users.
use full_revna_like_projekt.Base.{
  String, ◌≡◌, refl, inl, inr, ◌⊎◌, ◌↔◌, Bool, true, not, ◌||◌, ◌&&◌, [], ◌++◌, arith, ◌==◌, eq_iff,
  if◌then◌else◌, or_else, is_some, Among, Bool-cases, Option-cases, filter-Among, Among-filter,
  includes, includes_iff,
}
use full_revna_like_projekt.Base.Distinct.{Among-append, Among-insert_texts}
use full_revna_like_projekt.Table.{find_id}
use full_revna_like_projekt.Types.Users.{UserBulkActionRequest}
use full_revna_like_projekt.Client.{Client, squad_keyed}
use full_revna_like_projekt.Squads.{member_ids, set_members}
use full_revna_like_projekt.Squads.Laws.{members, members-changed, member_ids-set_members}
use full_revna_like_projekt.Users.{bulk_members, bulk_squad, bulk_users}

-- The squad that a request names, where it is there.
abbrev pub names_squad : UserBulkActionRequest → Client → Bool
names_squad request c =
    not (or_else request.squad_id "" == "")
    && is_some (find_id (or_else request.squad_id "") c.squads)

bulk_squad-members :
    (action : String) (request : UserBulkActionRequest) (c : Client) (j : String)
    → ((action == "squad-add") || (action == "squad-remove")) ≡ true
    → members j (bulk_squad action request c) ≡ (
        if names_squad request c && (or_else request.squad_id "" == j)
        then bulk_members action request.user_ids (members j c)
        else members j c)
unfolding bulk_squad members set_members
bulk_squad-members action request c j squads =
    elim (Option-cases (find_id (or_else request.squad_id "") c.squads)) [
      | inl missing ↦ elim (Bool-cases (or_else request.squad_id "" == "")) [
        | inl unnamed ↦ rw (squads, missing, unnamed)
        | inr named ↦ rw (squads, missing, named)
      ]
      | inr (r, found) ↦ elim (Bool-cases (or_else request.squad_id "" == "")) [
        | inl unnamed ↦ rw (squads, found, unnamed)
        | inr named ↦
            rw (squads, found, named)
              (members-changed
                (λ squad.
                  set_members (bulk_members action request.user_ids (member_ids squad)) squad)
                (bulk_members action request.user_ids) (or_else request.squad_id "") j r c found
                (λ s. refl)
                (λ s.
                  member_ids-set_members (bulk_members action request.user_ids (member_ids s)) s))
      ]
    ]

members-bulk_users :
    (action : String) (request : UserBulkActionRequest) (c : Client) (j : String)
    → ((action == "squad-add") || (action == "squad-remove")) ≡ true
    → members j (bulk_users action request c).0 ≡ (
        if names_squad request c && (or_else request.squad_id "" == j)
        then bulk_members action request.user_ids (members j c)
        else members j c)
unfolding bulk_users members
members-bulk_users action request c j squads = bulk_squad-members action request _ j squads

-- A bulk call with the action `squad-add` makes the users that it names members of the squad that
-- it names, if that squad is there, and `squad-remove` takes their membership away. No other user
-- becomes or ceases to be a member of a squad.
pub bulk_users-members :
    (request : UserBulkActionRequest) (c : Client) (j u : String)
    → (Among u (members j (bulk_users "squad-add" request c).0) ↔ (
        Among u (members j c)
        ⊎ ((names_squad request c ≡ true)
            × (or_else request.squad_id "" ≡ j)
            × Among u request.user_ids)))
      × (Among u (members j (bulk_users "squad-remove" request c).0) ↔ (
          Among u (members j c)
          × (¬ (
              (names_squad request c ≡ true)
              × (or_else request.squad_id "" ≡ j)
              × Among u request.user_ids))))
unfolding bulk_members
bulk_users-members request c j u =
    let ids = request.user_ids in
    let union = Among-insert_texts [] (members j c ++ ids) u in
    let sum = Among-append u (members j c) ids in
    let kept = filter-Among (λ v. not (includes v ids)) (members j c) u in
    let keeps = Among-filter (λ v. not (includes v ids)) (members j c) u in
    (
      rw (members-bulk_users "squad-add" request c j refl)
          (ground (arith, eq_iff (or_else request.squad_id "") j)),
      rw (members-bulk_users "squad-remove" request c j refl)
          (ground (arith, eq_iff (or_else request.squad_id "") j, includes_iff u ids)),
    )
