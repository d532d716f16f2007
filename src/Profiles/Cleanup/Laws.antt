-- ===== src/Profiles/Cleanup/Laws.antt =====
-- What a cleanup changes, and when it is refused.
use full_revna_like_projekt.Base.{
  ℕ, ◌≡◌, ◌≢◌, ◌⊎◌, refl, inl, inr, ◌∙◌, sym, ap, subst, fun_ext, true, false, Bool, List, [], ◌∷◌,
  map, arith, ◌==◌, ◌==ₙ◌, ==ₙ_refl, eq_iff, String, if◌then◌else◌, Bool-cases, All, Among, length,
  filter, includes, includes_iff, Among-filter, filter_of_length, filter_of_All, All-of_filter,
  filter_empty, All-of_Among, All-map, Among-map,
}
use full_revna_like_projekt.Table.{values, select, assign_all, remove_ids}
use full_revna_like_projekt.Table.Laws.{assign_where-store, assign_all-refs}
use full_revna_like_projekt.Types.Profiles.{ProtocolProfileRecord, StaleProfileCleanupRequest}
use full_revna_like_projekt.Client.{Client, ok, throws, profile_keyed}
use full_revna_like_projekt.Profiles.Readiness.{
  runtime_clients, is_candidate, candidate, list_stale_profile_cleanup_candidates,
}
use full_revna_like_projekt.Profiles.Cleanup.{
  is_stale, allowed_ids, disable, cleanup_stale_profiles,
}

-- A stale profile always has a blocker: no subscription uses it.
candidate_of_stale : (c : Client) (p : ProtocolProfileRecord) → is_candidate c p ≡ is_stale c p
unfolding is_candidate is_stale
candidate_of_stale c p = ground arith

-- The profiles offered for cleanup are, in the same order, those that a cleanup accepts.
pub candidates-allowed_ids :
    (c : Client)
    → map (λ item. item.profile_id) (list_stale_profile_cleanup_candidates c) ≡ allowed_ids c
unfolding list_stale_profile_cleanup_candidates allowed_ids
candidates-allowed_ids c =
    subst
      (λ (test : ProtocolProfileRecord → Bool).
        map (λ item. item.profile_id)
          (map (candidate c) (filter (is_candidate c) (values c.profiles)))
        ≡ map (λ p. p.id) (filter test (values c.profiles)))
      (fun_ext (candidate_of_stale c)) (ids (filter (is_candidate c) (values c.profiles)))
  where
    ids :
        (ps : List ProtocolProfileRecord)
        → map (λ item. item.profile_id) (map (candidate c) ps) ≡ map (λ p. p.id) ps
    ids [] = refl
    ids (p ∷ ps) = λ i. p.id ∷ ids ps i

-- The request names only profiles that may be cleaned up.
abbrev pub OnlyStale : StaleProfileCleanupRequest → Client → Type 0
OnlyStale request c = All (λ i. includes i (allowed_ids c) ≡ true) request.ids

accepted_ids : StaleProfileCleanupRequest → Client → List String
accepted_ids request c = filter (λ i. includes i (allowed_ids c)) request.ids

-- The client after a cleanup that is accepted.
unfoldable pub cleaned : StaleProfileCleanupRequest → Client → Client
cleaned request c = record c {
  profiles =
      if request.action == "delete"
      then remove_ids request.ids c.profiles
      else assign_all (select (λ p. includes p.id request.ids) c.profiles) disable c.profiles;
}

cleanup_accepts :
    (request : StaleProfileCleanupRequest) (c : Client)
    → OnlyStale request c
    → cleanup_stale_profiles request c ≡ (cleaned request c, ok (length request.ids))
unfolding cleanup_stale_profiles cleaned
cleanup_accepts request c h =
    let e = filter_of_All (λ i. includes i (allowed_ids c)) request.ids h in
    rw (e, cleanup_stale_profiles, ==ₙ_refl (length request.ids))

-- A cleanup either names stale profiles only, and replies how many identifiers were named, or it
-- names another one, throws, and leaves the client as it was.
pub cleanup_cases :
    (request : StaleProfileCleanupRequest) (c : Client)
    → (OnlyStale request c × ((cleanup_stale_profiles request c).1 ≡ ok (length request.ids)))
      ⊎ ((¬ OnlyStale request c)
          × (cleanup_stale_profiles request c
              ≡ (c, throws "Only stale profiles can be cleaned up")))
unfolding cleanup_stale_profiles accepted_ids
cleanup_cases request c =
    elim (Bool-cases (length (accepted_ids request c) ==ₙ length request.ids)) [
      | inl same ↦
          let e = filter_of_length (λ i. includes i (allowed_ids c)) request.ids (ground arith) in
          let h = All-of_filter (λ i. includes i (allowed_ids c)) request.ids e in
          inl (h, ap (λ r. r.1) (cleanup_accepts request c h))
      | inr fewer ↦ inr (
        λ h.
            let e = filter_of_All (λ i. includes i (allowed_ids c)) request.ids h in
            ground (arith, ap length e),
        rw (fewer, cleanup_stale_profiles),
      )
    ]

not_delete : (action : String) → action ≢ "delete" → (action == "delete") ≡ false
not_delete action h = ground (arith, eq_iff action "delete")

abbrev pub all_candidates : String → String → Client → StaleProfileCleanupRequest
all_candidates action confirmation c = record {
  action = action;
  confirmation = confirmation;
  ids = map (λ item. item.profile_id) (list_stale_profile_cleanup_candidates c);
}

-- A stale profile of the client has its identifier among the allowed ones.
stale_allowed :
    (c : Client) (r : ℕ)
    → Among r c.profiles.refs
    → is_stale c (c.profiles.store r) ≡ true
    → includes (c.profiles.store r).id (allowed_ids c) ≡ true
unfolding allowed_ids values
stale_allowed c r m e = (includes_iff _ _).1 (
    Among-map (λ p. p.id) _ _
      (Among-filter (is_stale c) (map c.profiles.store c.profiles.refs) (c.profiles.store r)
        (Among-map c.profiles.store c.profiles.refs r m) e))

candidates-OnlyStale :
    (action confirmation : String) (c : Client) → OnlyStale (all_candidates action confirmation c) c
candidates-OnlyStale action confirmation c = rw (candidates-allowed_ids c) (
    All-of_Among (λ i. includes i (allowed_ids c) ≡ true) (allowed_ids c)
      (λ i m. (includes_iff i (allowed_ids c)).1 m))

-- Only the status of a profile can change whether it is stale in a cleaned client.
stale-cleaned :
    (request : StaleProfileCleanupRequest) (c : Client) (p : ProtocolProfileRecord)
    → is_stale (cleaned request c) p ≡ is_stale c p
unfolding is_stale runtime_clients cleaned
stale-cleaned request c p = refl

disabled_not_stale : (c : Client) (p : ProtocolProfileRecord) → is_stale c (disable p) ≡ false
unfolding is_stale
disabled_not_stale c p = refl

module _ (request : StaleProfileCleanupRequest) (c : Client)
    (kept : request.action ≢ "delete") where
  cleaned_refs : (cleaned request c).profiles.refs ≡ c.profiles.refs
  unfolding cleaned
  cleaned_refs =
      rw (not_delete request.action kept)
        (assign_all-refs (select (λ p. includes p.id request.ids) c.profiles) disable c.profiles)

  cleaned_store :
      (r : ℕ)
      → Among r c.profiles.refs
      → (cleaned request c).profiles.store r ≡ (
          if includes (c.profiles.store r).id request.ids
          then disable (c.profiles.store r)
          else c.profiles.store r)
  unfolding cleaned
  cleaned_store r m =
      rw (not_delete request.action kept)
        (assign_where-store (λ p. includes p.id request.ids) disable c.profiles r (λ a. refl) m)

  -- If the request names every stale profile, none is left.
  none_stale :
      ((r : ℕ)
        → Among r c.profiles.refs
        → is_stale c (c.profiles.store r) ≡ true
        → includes (c.profiles.store r).id request.ids ≡ true)
      → (r : ℕ) → Among r (cleaned request c).profiles.refs
      → is_candidate (cleaned request c) ((cleaned request c).profiles.store r) ≡ false
  none_stale named r m =
      let m' = subst (Among r) cleaned_refs m in
      let p = c.profiles.store r in
      candidate_of_stale (cleaned request c) _
      ∙ stale-cleaned request c _
      ∙ ap (is_stale c) (cleaned_store r m')
      ∙ elim (Bool-cases (includes p.id request.ids)) [
        | inl chosen ↦ rw chosen (disabled_not_stale c p)
        | inr other ↦ rw other (ground (arith, named r m'))
      ]

-- A cleanup, other than a deletion, of all profiles that are offered for it leaves none to offer.
pub cleanup_candidates_clears :
    (action confirmation : String) (c : Client)
    → action ≢ "delete"
    → list_stale_profile_cleanup_candidates
        (cleanup_stale_profiles (all_candidates action confirmation c) c).0
      ≡ []
unfolding list_stale_profile_cleanup_candidates values
cleanup_candidates_clears action confirmation c kept =
    let request = all_candidates action confirmation c in
    let named =
      λ (r : ℕ) (m : Among r c.profiles.refs) (e : is_stale c (c.profiles.store r) ≡ true).
        subst (λ ids. includes (c.profiles.store r).id ids ≡ true) (sym (candidates-allowed_ids c))
          (stale_allowed c r m e) in
    rw (cleanup_accepts request c (candidates-OnlyStale action confirmation c)) (
      ap (map (candidate (cleaned request c))) (
        filter_empty (is_candidate (cleaned request c)) _
          (All-map _ _ _ (All-of_Among _ _ (none_stale request c kept named)))))
