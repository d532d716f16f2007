-- ===== src/Http/Provider.antt =====
-- The requests of the client that apps/web/src/shared/api/ApiClientProvider.tsx creates: its
-- `getSession` gives one session, whatever is passed to `setSession` while a request runs.
use full_revna_like_projekt.Base.{String, ◌≡◌, ◌⊎◌, Option, List, ◌++◌, All, if-cases}
use full_revna_like_projekt.Base.Json.{Fields, Json}
use full_revna_like_projekt.Http.{
  RequestOptions, Call, Answer, Outcome, api_error, Connection, HttpClientOptions,
  api_client_options, truthy, session_field, call_for, exchange, request_once, refresh_session,
  request,
}
use full_revna_like_projekt.Http.Laws.{IsRefused, repeats, first_answer, finish-refused}

-- The calls of `t` are those of `s`, after newer ones that are all of a kind.
pub record Sends {W : Type 0} (P : Call → Type 0) (s t : Connection W) : Type 0 where
  pub newer : List Call
  pub calls : t.calls ≡ newer ++ s.calls
  pub kind : All P newer

module _ {W : Type 0} (fetcher : W → Call → W × Answer) (set_session : Option Fields → W → W)
    (session : Option Fields) where
  abbrev client : HttpClientOptions W
  client = api_client_options fetcher set_session session

  -- The call that the request itself makes with that session, or one for the refresh of the session.
  abbrev pub OwnOrRefresh : String → RequestOptions → Call → Type 0
  OwnOrRefresh path options call =
      (call ≡ call_for path options session)
      ⊎ (call.path ≡ "/api/v1/auth/refresh")
      ⊎ (call.path ≡ "/api/auth/session")

  -- Where the server refuses the call that a request makes with the session that the client of
  -- `ApiClientProvider` was created with, at whatever time, the request ends with the error of status 401, also when a
  -- refresh has given a new token in between.
  pub request-refused_again :
      (path : String) (options : RequestOptions) (s : Connection W)
      → ((w : W) → IsRefused (fetcher w (call_for path options session)).1)
      → (message : String) × ((request client path options s).1 ≡ api_error message 401)
  unfolding request request_once exchange
  request-refused_again path options s h =
      let s1 = (first_answer client path options s).0 in
      let answer = (first_answer client path options s).1 in
      let (s2, refreshed) = refresh_session client s1 in
      let first_refused = finish-refused answer (h s.world) in
      let Q =
        λ (out : Connection W × Outcome). (message : String) × (out.1 ≡ api_error message 401) in
      if-cases Q (repeats client path s answer) _ _
        (λ _.
          if-cases Q (truthy (session_field "accessToken" refreshed)) _ _
            (λ _. finish-refused _ (h s2.world)) (λ _. first_refused))
        (λ _. first_refused)
