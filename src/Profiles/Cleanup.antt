-- ===== src/Profiles/Cleanup.antt =====
-- `cleanupStaleProfiles` in apps/web/src/shared/api/developmentClient.ts.
pub mod Laws
use full_revna_like_projekt.Base.{
  ℕ, String, Bool, true, false, not, ◌&&◌, List, [], ◌∷◌, map, ◌==◌, ◌==ₙ◌, if◌then◌else◌, filter,
  length, includes,
}
use full_revna_like_projekt.Table.{Table, values, select, assign_all, remove_ids}
use full_revna_like_projekt.Types.Profiles.{ProtocolProfileRecord, StaleProfileCleanupRequest}
use full_revna_like_projekt.Client.{Client, Reply, ok, throws, profile_keyed}
use full_revna_like_projekt.Profiles.Readiness.{runtime_clients, is_empty}

-- An active profile that no active subscription uses.
unfoldable pub is_stale : Client → ProtocolProfileRecord → Bool
is_stale c profile = (profile.status == "active") && is_empty (runtime_clients profile c)

-- The set `allowed`, as an array.
unfoldable pub allowed_ids : Client → List String
unfolding is_stale
allowed_ids c = map (λ p. p.id) (filter (is_stale c) (values c.profiles))

abbrev pub disable : ProtocolProfileRecord → ProtocolProfileRecord
disable p = record p { status = "disabled" }

unfoldable pub cleanup_stale_profiles : StaleProfileCleanupRequest → Client → Client × Reply ℕ
unfolding allowed_ids
cleanup_stale_profiles request c =
    let ids = filter (λ i. includes i (allowed_ids c)) request.ids in
    let deleted = remove_ids ids c.profiles in
    let disabled = assign_all (select (λ p. includes p.id ids) c.profiles) disable c.profiles in
    if length ids ==ₙ length request.ids
    then (
      record c { profiles = if request.action == "delete" then deleted else disabled },
      ok (length ids),
    )
    else (c, throws "Only stale profiles can be cleaned up")
