-- ===== src/Squads.antt =====
-- Squads and their members in apps/web/src/shared/api/developmentClient.ts.
pub mod Laws
use full_revna_like_projekt.Base.{
  ℕ, String, Bool, true, false, not, Option, none, some, List, [], ◌∷◌, map, ◌==◌, if◌then◌else◌,
  or_else, filter, length, includes, insert_texts,
}
use full_revna_like_projekt.Base.Text.{slug}
use full_revna_like_projekt.Base.Json.{
  Json, num, arr, end, get, put, to_string, array_or_empty, texts,
}
use full_revna_like_projekt.Table.{Table, find_id, assign, unshift, remove_id, reorder, find_all}
use full_revna_like_projekt.Types.Squads.{
  SquadRecord, SquadCreateRequest, SquadUpdateRequest, SquadUserMutationRequest,
}
use full_revna_like_projekt.Client.{Client, Reply, ok, with_found, squad_keyed}
use Prim.Native.String.{◌++◌}

unfoldable pub squad_from_request : SquadCreateRequest → SquadRecord
squad_from_request request = record {
  id = "squad_" ++ slug request.name;
  kind = or_else request.kind "internal";
  metadata_json = or_else request.metadata_json end;
  name = request.name;
  status = or_else request.status "active";
}

unfoldable pub create_squad : SquadCreateRequest → Client → Client × Reply SquadRecord
create_squad request c =
    let squad = squad_from_request request in
    (record c { squads = unshift squad c.squads }, ok squad)

unfoldable pub delete_squad : String → Client → Client
delete_squad squad_id c = record c { squads = remove_id squad_id c.squads }

-- `Object.assign(squad, request)`
unfoldable pub assign_squad : SquadUpdateRequest → SquadRecord → SquadRecord
assign_squad request a = record a {
  kind = or_else request.kind a.kind;
  metadata_json = or_else request.metadata_json a.metadata_json;
  name = or_else request.name a.name;
  status = or_else request.status a.status;
}

unfoldable pub update_squad : String → SquadUpdateRequest → Client → Client × Reply SquadRecord
unfolding assign_squad
update_squad squad_id request c = with_found (find_id squad_id c.squads) "Squad not found" c λ r.
    let squads = assign r (assign_squad request) c.squads in
    (record c { squads = squads }, ok (squads.store r))

-- `Array.isArray(squad.metadata_json.user_ids) ? squad.metadata_json.user_ids.map(String) : []`
unfoldable pub member_ids : SquadRecord → List String
member_ids squad = map to_string (array_or_empty (get "user_ids" squad.metadata_json))

-- `squad.metadata_json = { ...squad.metadata_json, user_ids }`
unfoldable pub set_members : List String → SquadRecord → SquadRecord
set_members user_ids squad = record squad {
  metadata_json = put "user_ids" (arr (texts user_ids)) squad.metadata_json;
}

-- Each user that is not there yet is pushed at the end.
unfoldable pub add_members : List String → SquadRecord → SquadRecord
unfolding member_ids set_members
add_members user_ids squad = set_members (insert_texts (member_ids squad) user_ids) squad

unfoldable pub remove_members : List String → SquadRecord → SquadRecord
unfolding member_ids set_members
remove_members user_ids squad =
    set_members (filter (λ user_id. not (includes user_id user_ids)) (member_ids squad)) squad

unfoldable pub add_squad_users :
    String → SquadUserMutationRequest → Client → Client × Reply SquadRecord
unfolding add_members
add_squad_users squad_id request c = with_found (find_id squad_id c.squads) "Squad not found" c λ r.
    let squads = assign r (add_members request.user_ids) c.squads in
    (record c { squads = squads }, ok (squads.store r))

unfoldable pub remove_squad_users :
    String → SquadUserMutationRequest → Client → Client × Reply SquadRecord
unfolding remove_members
remove_squad_users squad_id request c =
    with_found (find_id squad_id c.squads) "Squad not found" c λ r.
      let squads = assign r (remove_members request.user_ids) c.squads in
      (record c { squads = squads }, ok (squads.store r))

unfoldable pub reorder_squads : List String → Client → Client × Reply ℕ
reorder_squads ids c = (
  record c {
    squads =
        reorder (λ n s. record s { metadata_json = put "order" (num n) s.metadata_json }) ids
          c.squads;
  },
  ok (length (find_all ids c.squads)),
)
