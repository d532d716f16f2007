-- ===== src/Http/Sharing.antt =====
-- `refreshSessionOnce` in apps/web/src/shared/api/httpClient.ts: requests that are refused while a
-- refresh runs wait for that one. A promise is a number: the refreshes are numbered as they start.
use full_revna_like_projekt.Base.{
  ℕ, suc, ◌+◌, ◌≡◌, refl, ap, ◌∙◌, inl, inr, Option, none, some, is_some, if◌then◌else◌, arith,
  Option-cases,
}

pub record Sharing : Type 0 where
  -- `refreshPromise`
  pub refresh_promise : Option ℕ
  -- How many refreshes were started, and how many have ended.
  pub started : ℕ
  pub ended : ℕ

-- `refreshPromise ??= refreshSession()…`, and the promise that the caller waits for.
unfoldable pub refresh_session_once : Sharing → Sharing × ℕ
refresh_session_once s = elim s.refresh_promise [
  | some p ↦ (s, p)
  | none ↦ (
    record { refresh_promise = some s.started; started = suc s.started; ended = s.ended },
    s.started,
  )
]

-- `.finally(() => { refreshPromise = null })`
unfoldable pub settle_refresh : Sharing → Sharing
settle_refresh s = record s { refresh_promise = none; ended = suc s.ended }

-- A client that has just been created.
abbrev pub unshared : Sharing
unshared = record { refresh_promise = none; started = 0; ended = 0 }

-- What can happen, in any order: a request asks for a refresh, or the refresh that runs ends.
pub data Event : Sharing → Sharing → Type 0 where
  asks : (s : Sharing) → Event s (refresh_session_once s).0
  ends : (s : Sharing) (p : ℕ) → s.refresh_promise ≡ some p → Event s (settle_refresh s)

pub data Shared : Sharing → Type 0 where
  begins : Shared unshared
  goes_on : {s t : Sharing} → Shared s → Event s t → Shared t

-- The refreshes that have not ended: none, or the newest one, which the promise stands for.
pub record OneRefresh (s : Sharing) : Type 0 where
  pub running : s.started ≡ s.ended + (if is_some s.refresh_promise then 1 else 0)
  pub newest : (p : ℕ) → s.refresh_promise ≡ some p → suc p ≡ s.started

ask-OneRefresh : (s : Sharing) → OneRefresh s → OneRefresh (refresh_session_once s).0
unfolding refresh_session_once
ask-OneRefresh s v = elim (Option-cases s.refresh_promise) [
  | inr (p, runs) ↦ rw (runs, refresh_session_once) v
  | inl idle ↦
      rw (idle, refresh_session_once) (record { running = grown idle; newest = λ p e. same p e })
]
  where
    grown : s.refresh_promise ≡ none → suc s.started ≡ s.ended + 1
    grown idle =
        let before : s.started ≡ s.ended + 0 =
          v.running ∙ ap (λ o. s.ended + (if is_some o then 1 else 0)) idle in
        omega arith

    same : (p : ℕ) → some s.started ≡ some p → suc p ≡ suc s.started
    same p e = cc

settle-OneRefresh :
    (s : Sharing) (p : ℕ)
    → s.refresh_promise ≡ some p
    → OneRefresh s
    → OneRefresh (settle_refresh s)
unfolding settle_refresh
settle-OneRefresh s p runs v =
    let before : s.started ≡ s.ended + 1 =
      v.running ∙ ap (λ o. s.ended + (if is_some o then 1 else 0)) runs in
    record { running = omega arith; newest = λ q e. cc }

one_refresh : (s : Sharing) → Shared s → OneRefresh s
one_refresh s (Shared.begins) = record { running = refl; newest = λ p e. cc }
one_refresh s (Shared.goes_on {s = before} {t = _} r (Event.asks _)) =
    ask-OneRefresh before (one_refresh before r)
one_refresh s (Shared.goes_on {s = before} {t = _} r (Event.ends _ p e)) =
    settle-OneRefresh before p e (one_refresh before r)

ask-running : (s : Sharing) (p : ℕ) → s.refresh_promise ≡ some p → refresh_session_once s ≡ (s, p)
unfolding refresh_session_once
ask-running s p runs =
    ap
      (λ o. elim o [
        | some q ↦ (s, q)
        | none ↦ (
          record { refresh_promise = some s.started; started = suc s.started; ended = s.ended },
          s.started,
        )
      ])
      runs

-- What a request is given that asks for a refresh.
pub record GivenTheOne (s : Sharing) : Type 0 where
  -- The promise is that of the refresh after those that have ended, the only one that runs then.
  pub given : (refresh_session_once s).1 ≡ s.ended
  pub alone : (refresh_session_once s).0.started ≡ suc s.ended
  pub still : (refresh_session_once s).0.ended ≡ s.ended
  -- The promise is kept, and the next request that asks is given it too and starts none.
  pub kept : (refresh_session_once s).0.refresh_promise ≡ some (refresh_session_once s).1
  pub again : refresh_session_once (refresh_session_once s).0 ≡ refresh_session_once s

ask-GivenTheOne : (s : Sharing) → OneRefresh s → GivenTheOne s
unfolding refresh_session_once
ask-GivenTheOne s v = elim (Option-cases s.refresh_promise) [
  | inr (p, runs) ↦
      let before : s.started ≡ s.ended + 1 =
        v.running ∙ ap (λ o. s.ended + (if is_some o then 1 else 0)) runs in
      let newest = v.newest p runs in
      rw (runs, refresh_session_once)
        (record {
          given = omega arith;
          alone = omega arith;
          still = refl;
          kept = refl;
          again = refl;
        })
  | inl idle ↦
      let before : s.started ≡ s.ended + 0 =
        v.running ∙ ap (λ o. s.ended + (if is_some o then 1 else 0)) idle in
      rw (idle, refresh_session_once)
        (record {
          given = omega arith;
          alone = omega arith;
          still = refl;
          kept = refl;
          again = refl;
        })
]

-- Whatever requests ask and whenever refreshes end, at most one refresh runs at a time. A request
-- that asks for a refresh is given the promise of the only one that runs then: of the one that runs
-- already, or of a new one where none does. The next request to ask is given the same promise.
pub Shared-OneRefresh : (s : Sharing) → Shared s → OneRefresh s × GivenTheOne s
Shared-OneRefresh s r = let one = one_refresh s r in (one, ask-GivenTheOne s one)
