-- ===== src/Http/Laws.antt =====
-- How often a request reaches the server, and what a refresh does to the session.
use full_revna_like_projekt.Base.{
  ℕ, suc, ◌↔◌, eq_iff, ◌+◌, ◌≤◌, String, ◌≡◌, refl, ◌∙◌, sym, ap, inl, inr, ◌⊎◌, Bool, true, false,
  not, ◌&&◌, ◌||◌, Option, none, some, List, [], ◌∷◌, ◌++◌, length, length-append, arith, ◌==◌,
  if-cases, Bool-cases, ==ₙ_iff,
}
use mathlib.Core.List.{append_assoc}
use full_revna_like_projekt.Base.Text.{begins_with}
use full_revna_like_projekt.Base.Json.{Fields, Json, null, bool, num, str, arr, obj}
use full_revna_like_projekt.Http.{
  RequestOptions, Call, Answer, unreachable, answered, Outcome, returned, api_error, fails,
  HttpClientOptions, Connection, store_session, truthy, session_field, is_auth_bootstrap_request,
  call_for, finish, error_message, exchange, request_once, after_refresh,
  read_session_after_token_issue, refresh_session, refresh_options, unauthorized, request,
}

-- The answer is one of status 401.
abbrev pub IsRefused : Answer → Type 0
IsRefused (unreachable message) = ⊥
IsRefused (answered response) = response.status ≡ 401

unauthorized_iff : (answer : Answer) → (unauthorized answer ≡ true) ↔ IsRefused answer
unauthorized_iff (unreachable message) = (λ e. cc, λ h. absurd h)
unauthorized_iff (answered response) = ==ₙ_iff response.status 401

-- The paths that are for clients without a session.
abbrev pub LoginPath : String → Type 0
LoginPath path =
    (path ≡ "/api/v1/auth/login")
    ⊎ (path ≡ "/api/v1/auth/refresh")
    ⊎ (path ≡ "/api/v1/auth/mfa/challenge/verify")
    ⊎ (begins_with path "/api/v1/auth/webauthn/authenticate/" ≡ true)
    ⊎ (path ≡ "/api/v1/auth/oauth/telegram/callback")

is_auth_bootstrap_iff : (path : String) → (is_auth_bootstrap_request path ≡ true) ↔ LoginPath path
unfolding is_auth_bootstrap_request
is_auth_bootstrap_iff path = ground (
  arith,
  eq_iff path "/api/v1/auth/login",
  eq_iff path "/api/v1/auth/refresh",
  eq_iff path "/api/v1/auth/mfa/challenge/verify",
  eq_iff path "/api/v1/auth/oauth/telegram/callback",
)

pub finish-refused :
    (answer : Answer)
    → IsRefused answer
    → (message : String) × (finish answer ≡ api_error message 401)
unfolding finish
finish-refused (unreachable message) h = absurd h
finish-refused (answered response) h = (error_message response, rw h)

-- The calls of `t` are those of `s`, after at most `n` newer ones.
pub record Extends {W : Type 0} (n : ℕ) (s t : Connection W) : Type 0 where
  pub newer : List Call
  pub calls : t.calls ≡ newer ++ s.calls
  pub few : length newer ≤ n

module _ {W : Type 0} (client : HttpClientOptions W) where
  once-Extends :
      (path : String) (options : RequestOptions) (s : Connection W)
      → Extends 1 s (request_once client path options s).0
  unfolding request_once exchange
  once-Extends path options s = record { newer = _ ∷ []; calls = refl; few = omega arith }

  read-Extends :
      (tokens : Option Json) (s : Connection W)
      → Extends 1 s (read_session_after_token_issue client tokens s).0
  unfolding read_session_after_token_issue exchange
  read-Extends none s = record { newer = []; calls = refl; few = omega arith }
  read-Extends (some null) s = record { newer = []; calls = refl; few = omega arith }
  read-Extends (some (bool b)) s = record { newer = _ ∷ []; calls = refl; few = omega arith }
  read-Extends (some (num n)) s = record { newer = _ ∷ []; calls = refl; few = omega arith }
  read-Extends (some (str t)) s = record { newer = _ ∷ []; calls = refl; few = omega arith }
  read-Extends (some (arr vs)) s = record { newer = _ ∷ []; calls = refl; few = omega arith }
  read-Extends (some (obj fs)) s = record { newer = _ ∷ []; calls = refl; few = omega arith }

  after-Extends :
      (outcome : Outcome) (s : Connection W) → Extends 1 s (after_refresh client outcome s).0
  unfolding after_refresh
  after-Extends (returned tokens) s = read-Extends tokens s
  after-Extends (api_error message status) s = record {
    newer = [];
    calls = refl;
    few = omega arith;
  }
  after-Extends (fails message) s = record { newer = []; calls = refl; few = omega arith }

  Extends-trans :
      (m n : ℕ) (s t u : Connection W) → Extends m s t → Extends n t u → Extends (m + n) s u
  Extends-trans m n s t u a b = record {
    newer = b.newer ++ a.newer;
    calls = b.calls ∙ ap (λ l. b.newer ++ l) a.calls ∙ sym (append_assoc b.newer a.newer s.calls);
    few = let x = a.few in let y = b.few in omega (arith, length-append b.newer a.newer);
  }

  pub stored-calls :
      (set_session : Option (Option Fields → W → W)) (session : Option Fields) (s : Connection W)
      → (store_session set_session session s).calls ≡ s.calls
  stored-calls none session s = refl
  stored-calls (some set_session) session s = refl

  refresh-Extends : (s : Connection W) → Extends 2 s (refresh_session client s).0
  unfolding refresh_session
  refresh-Extends s =
      let options = refresh_options (client.get_session s.world) in
      let first_call = once-Extends "/api/v1/auth/refresh" options s in
      let step = request_once client "/api/v1/auth/refresh" options s in
      let both = Extends-trans 1 1 s step.0 _ first_call (after-Extends step.1 step.0) in
      let (s2, session) = after_refresh client step.1 step.0 in
      let same = stored-calls client.set_session session s2 in
      record { newer = both.newer; calls = same ∙ both.calls; few = both.few }

  -- May a request be repeated after its answer?
  abbrev pub repeats : String → Connection W → Answer → Bool
  repeats path s answer =
      unauthorized answer
      && not (is_auth_bootstrap_request path)
      && (truthy (session_field "refreshToken" (client.get_session s.world))
          || not (path == "/api/v1/auth/refresh"))

  abbrev pub first_answer : String → RequestOptions → Connection W → Connection W × Answer
  first_answer path options s =
      exchange client (call_for path options (client.get_session s.world)) s

  first-Extends :
      (path : String) (options : RequestOptions) (s : Connection W)
      → Extends 1 s (first_answer path options s).0
  unfolding exchange
  first-Extends path options s = record { newer = _ ∷ []; calls = refl; few = omega arith }

  Extends-le : (m n : ℕ) (s t : Connection W) → m ≤ n → Extends m s t → Extends n s t
  Extends-le m n s t le a = record {
    newer = a.newer;
    calls = a.calls;
    few = let x = a.few in omega arith;
  }

  -- A request calls the server at most four times: itself, the refresh, the session after it, and
  -- the request once more.
  pub request-Extends :
      (path : String) (options : RequestOptions) (s : Connection W)
      → Extends 4 s (request client path options s).0
  unfolding request
  request-Extends path options s =
      let one = first-Extends path options s in
      let s1 = (first_answer path options s).0 in
      let answer = (first_answer path options s).1 in
      let s2 = (refresh_session client s1).0 in
      let three = Extends-trans 1 2 s s1 s2 one (refresh-Extends s1) in
      let again = Extends-trans 3 1 s s2 _ three (once-Extends path options s2) in
      let P = λ (out : Connection W × Outcome). Extends 4 s out.0 in
      if-cases P (repeats path s answer) _ _
        (λ _.
          if-cases P (truthy (session_field "accessToken" (refresh_session client s1).1)) _ _
            (λ _. again) (λ _. Extends-le 3 4 s s2 (omega arith) three))
        (λ _. Extends-le 1 4 s s1 (omega arith) one)

  -- Repeated requests: what a refresh adds is at least its own call.
  refresh-longer :
      (s : Connection W) → suc (length s.calls) ≤ length (refresh_session client s).0.calls
  unfolding refresh_session request_once exchange
  refresh-longer s =
      let step =
        request_once client "/api/v1/auth/refresh" (refresh_options (client.get_session s.world))
          s in
      let (s2, session) = after_refresh client step.1 step.0 in
      let more = after-Extends step.1 step.0 in
      let calls = ap length (stored-calls client.set_session session s2 ∙ more.calls) in
      omega (arith, calls, length-append more.newer step.0.calls)

  repeats_iff :
      (path : String) (s : Connection W) (answer : Answer)
      → (repeats path s answer ≡ true) ↔ (IsRefused answer × ¬ LoginPath path)
  repeats_iff path s answer = (
    λ e. (
      (unauthorized_iff answer).0 (answered_so e),
      λ login. clash e ((is_auth_bootstrap_iff path).1 login),
    ),
    λ (refused, other). ground (
      arith,
      (unauthorized_iff answer).1 refused,
      is_auth_bootstrap_iff path,
      eq_iff path "/api/v1/auth/refresh",
      other,
    ),
  )
    where
      answered_so : repeats path s answer ≡ true → unauthorized answer ≡ true
      answered_so e = ground arith

      clash : repeats path s answer ≡ true → is_auth_bootstrap_request path ≡ true → ⊥
      clash e h = ground arith

  not_repeated :
      (path : String) (options : RequestOptions) (s : Connection W)
      → repeats path s (first_answer path options s).1 ≡ false
      → request client path options s
        ≡ ((first_answer path options s).0, finish (first_answer path options s).1)
  unfolding request
  not_repeated path options s e = rw e

  repeated :
      (path : String) (options : RequestOptions) (s : Connection W)
      → repeats path s (first_answer path options s).1 ≡ true
      → suc (suc (length s.calls)) ≤ length (request client path options s).0.calls
  unfolding request request_once exchange
  repeated path options s e =
      let s1 = (first_answer path options s).0 in
      let (s2, refreshed) = refresh_session client s1 in
      let longer = refresh-longer s1 in
      elim (Bool-cases (truthy (session_field "accessToken" refreshed))) [
        | inl token ↦ rw (e, token) (omega (arith, longer))
        | inr no_token ↦ rw (e, no_token) longer
      ]

  excused :
      (path : String) (s : Connection W) (answer : Answer)
      → repeats path s answer ≡ false
      → ¬ IsRefused answer ⊎ LoginPath path
  excused path s answer e = elim (Bool-cases (unauthorized answer)) [
    | inr accepted ↦ inl (λ refused. let h = (unauthorized_iff answer).1 refused in cc)
    | inl refused ↦ elim (Bool-cases (is_auth_bootstrap_request path)) [
      | inl login ↦ inr ((is_auth_bootstrap_iff path).0 login)
      | inr other ↦
          let h = (repeats_iff path s answer).1 (
            (unauthorized_iff answer).0 refused,
            λ l. let k = (is_auth_bootstrap_iff path).1 l in cc,
          ) in
          cc
    ]
  ]

  -- A request calls the server only once, and then gives what the answer says, exactly where the
  -- answer is not of status 401, or the path is one of a login. Otherwise the server is called again.
  pub request_once_iff :
      (path : String) (options : RequestOptions) (s : Connection W)
      → (let (s1, answer) = first_answer path options s in
          let out = request client path options s in
          ((length out.0.calls ≡ suc (length s.calls)) ↔ (¬ IsRefused answer ⊎ LoginPath path))
          × ((out ≡ (s1, finish answer)) ↔ (¬ IsRefused answer ⊎ LoginPath path)))
  unfolding request
  request_once_iff path options s =
      let answer = (first_answer path options s).1 in
      let facts = repeats_iff path s answer in
      elim (Bool-cases (repeats path s answer)) [
        | inl again ↦
            let more = repeated path options s again in
            let (refused, other) = facts.0 again in
            (
              (λ e. absurd (too_long _ _ e more), λ h. absurd (neither refused other h)),
              (
                λ e. absurd (too_long _ _ (ap (λ out. length out.0.calls) e) more),
                λ h. absurd (neither refused other h),
              ),
            )
        | inr once ↦
            let same = not_repeated path options s once in
            let why = excused path s answer once in
            ((λ _. why, λ _. ap (λ out. length out.0.calls) same), (λ _. why, λ _. same))
      ]
    where
      too_long : (m n : ℕ) → m ≡ suc n → suc (suc n) ≤ m → ⊥
      too_long m n e le = omega arith

      neither : {A B : Type 0} → A → ¬ B → (¬ A ⊎ B) → ⊥
      neither a nb (inl na) = na a
      neither a nb (inr b) = nb b
