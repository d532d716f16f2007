-- ===== src/Squads/Laws.antt =====
-- Who is a member of which squad after members were added or removed.
use full_revna_like_projekt.Base.{
  ℕ, String, ◌≡◌, refl, ◌∙◌, sym, ap, inl, inr, ◌⊎◌, ◌↔◌, true, not, Option, none, some, List, [],
  ◌++◌, arith, ◌==◌, eq_iff, if◌then◌else◌, is_some, Among, Bool-cases, Option-cases, filter,
  filter-Among, Among-filter, includes, includes_iff, insert_texts,
}
use full_revna_like_projekt.Base.Json.{arr, texts, get-put, map-to_string-texts}
use full_revna_like_projekt.Base.Distinct.{
  Distinct, insert_texts-Distinct, insert_texts-prefix, Among-insert_texts,
}
use mathlib.Core.List.{append-nil}
use full_revna_like_projekt.Table.{find_id, assign}
use full_revna_like_projekt.Table.Map.{read, at, read-find, read-assign}
use full_revna_like_projekt.Types.Squads.{SquadRecord, SquadUserMutationRequest}
use full_revna_like_projekt.Client.{Client, throws, squad_keyed}
use full_revna_like_projekt.Squads.{
  member_ids, set_members, add_members, remove_members, add_squad_users, remove_squad_users,
}

pub member_ids-set_members :
    (us : List String) (s : SquadRecord) → member_ids (set_members us s) ≡ us
unfolding member_ids set_members
member_ids-set_members us s =
    rw (get-put "user_ids" "user_ids" (arr (texts us)) s.metadata_json) (map-to_string-texts us)

-- The members of the squad that an identifier reads; of none if there is no such squad.
abbrev members_of : Option SquadRecord → List String
members_of none = []
members_of (some squad) = member_ids squad

unfoldable pub members : String → Client → List String
members squad_id c = members_of (read squad_id c.squads)

-- The members after a change of the members of one squad.
pub members-changed :
    (f : SquadRecord → SquadRecord) (g : List String → List String) (squad_id j : String) (r : ℕ)
    (c : Client)
    → find_id squad_id c.squads ≡ some r
    → ((s : SquadRecord) → (f s).id ≡ s.id)
    → ((s : SquadRecord) → member_ids (f s) ≡ g (member_ids s))
    → members_of (read j (assign r f c.squads))
      ≡ (if squad_id == j then g (members j c) else members j c)
unfolding members
members-changed f g squad_id j r c e h k =
    ap members_of (read-assign squad_id r f c.squads e h j) ∙ elim (Bool-cases (squad_id == j)) [
      | inl same ↦
          let here : read j c.squads ≡ some (c.squads.store r) =
            ap (λ i. read i c.squads) (sym ((eq_iff squad_id j).0 same))
            ∙ read-find squad_id c.squads r e in
          rw (same, here) (k (c.squads.store r))
      | inr other ↦ rw other
    ]

-- What the calls do to the members of every squad: nothing if the squad is not there.
members-add :
    (squad_id : String) (request : SquadUserMutationRequest) (c : Client) (j : String)
    → members j (add_squad_users squad_id request c).0 ≡ (
        if is_some (find_id squad_id c.squads)
        then (if squad_id == j then insert_texts (members j c) request.user_ids else members j c)
        else members j c)
unfolding add_squad_users members add_members set_members
members-add squad_id request c j = elim (Option-cases (find_id squad_id c.squads)) [
  | inl missing ↦ rw (missing, add_squad_users)
  | inr (r, found) ↦
      rw (found, add_squad_users)
        (members-changed (add_members request.user_ids) (λ l. insert_texts l request.user_ids)
          squad_id j r c found (λ s. refl)
          (λ s. member_ids-set_members (insert_texts (member_ids s) request.user_ids) s))
]

missing_members :
    (squad_id : String) (c : Client) → find_id squad_id c.squads ≡ none → members squad_id c ≡ []
unfolding members read
missing_members squad_id c e = ap (λ o. members_of (at c.squads.store o)) e

remove-missing :
    (squad_id : String) (request : SquadUserMutationRequest) (c : Client)
    → find_id squad_id c.squads ≡ none
    → remove_squad_users squad_id request c ≡ (c, throws "Squad not found")
unfolding remove_squad_users
remove-missing squad_id request c missing = rw (missing, remove_squad_users)

remove-found :
    (squad_id : String) (request : SquadUserMutationRequest) (c : Client) (j : String) (r : ℕ)
    → find_id squad_id c.squads ≡ some r
    → members j (remove_squad_users squad_id request c).0 ≡ (
        if squad_id == j
        then filter (λ u. not (includes u request.user_ids)) (members j c)
        else members j c)
unfolding remove_squad_users remove_members set_members members
remove-found squad_id request c j r found =
    rw (found, remove_squad_users)
      (members-changed (remove_members request.user_ids)
        (filter (λ u. not (includes u request.user_ids))) squad_id j r c found (λ s. refl)
        (λ s.
          member_ids-set_members (filter (λ u. not (includes u request.user_ids)) (member_ids s))
            s))

members-remove :
    (squad_id : String) (request : SquadUserMutationRequest) (c : Client) (j : String)
    → members j (remove_squad_users squad_id request c).0 ≡ (
        if squad_id == j
        then filter (λ u. not (includes u request.user_ids)) (members j c)
        else members j c)
members-remove squad_id request c j = elim (Option-cases (find_id squad_id c.squads)) [
  | inl missing ↦
      ap (λ out. members j out.0) (remove-missing squad_id request c missing)
      ∙ elim (Bool-cases (squad_id == j)) [
        | inl same ↦
            let nobody : members j c ≡ [] =
              ap (λ i. members i c) (sym ((eq_iff squad_id j).0 same))
              ∙ missing_members squad_id c missing in
            rw (same, nobody)
        | inr other ↦ rw other
      ]
  | inr (r, found) ↦ remove-found squad_id request c j r found
]

-- After users are added to a squad, a user is a member of a squad exactly if it was one before, or
-- it was named, for the squad that was named, and that squad exists.
pub add_squad_users-members :
    (squad_id : String) (request : SquadUserMutationRequest) (c : Client) (j u : String)
    → Among u (members j (add_squad_users squad_id request c).0) ↔ (
        Among u (members j c)
        ⊎ ((squad_id ≡ j)
            × (is_some (find_id squad_id c.squads) ≡ true)
            × Among u request.user_ids))
add_squad_users-members squad_id request c j u =
    let e = members-add squad_id request c j in
    let union = Among-insert_texts (members j c) request.user_ids u in
    rw e (ground (arith, eq_iff squad_id j))

-- After users are removed from a squad, a user is a member of a squad exactly if it was one before
-- and was not named for that squad.
pub remove_squad_users-members :
    (squad_id : String) (request : SquadUserMutationRequest) (c : Client) (j u : String)
    → Among u (members j (remove_squad_users squad_id request c).0)
      ↔ (Among u (members j c) × (¬ ((squad_id ≡ j) × Among u request.user_ids)))
remove_squad_users-members squad_id request c j u =
    let e = members-remove squad_id request c j in
    let named = includes_iff u request.user_ids in
    let kept = filter-Among (λ v. not (includes v request.user_ids)) (members j c) u in
    let keeps = Among-filter (λ v. not (includes v request.user_ids)) (members j c) u in
    rw e (ground (arith, eq_iff squad_id j))

-- Adding users leaves the members of every squad that there were in front and in their order, and
-- where none of them repeated, none repeats afterwards.
pub add_squad_users_order :
    (squad_id : String) (request : SquadUserMutationRequest) (c : Client) (j : String)
    → ((new : List String) × (members j (add_squad_users squad_id request c).0
          ≡ members j c ++ new))
      × (Distinct (members j c) → Distinct (members j (add_squad_users squad_id request c).0))
add_squad_users_order squad_id request c j =
    rw (members-add squad_id request c j) (elim (Bool-cases (is_some (find_id squad_id c.squads))) [
      | inl there ↦ rw there (elim (Bool-cases (squad_id == j)) [
        | inl same ↦ rw same (
          insert_texts-prefix (members j c) request.user_ids,
          insert_texts-Distinct (members j c) request.user_ids,
        )
        | inr other ↦ rw other (([], sym (append-nil (members j c))), λ d. d)
      ])
      | inr missing ↦ rw missing (([], sym (append-nil (members j c))), λ d. d)
    ])
