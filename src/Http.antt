-- ===== src/Http.antt =====
-- `createHttpLumenApiClient` in apps/web/src/shared/api/httpClient.ts: one request, with at most one
-- repetition after the session has been refreshed. `fetcher`, `getSession` and `setSession` are
-- parameters: they read and change a world of which nothing else is known.
pub mod Laws
pub mod Sharing
pub mod Provider
use full_revna_like_projekt.Base.{
  ℕ, suc, ◌+◌, String, Bool, true, false, not, ◌&&◌, ◌||◌, Option, none, some, List, [], ◌∷◌, ◌==◌,
  leb, ◌==ₙ◌, if◌then◌else◌,
}
use full_revna_like_projekt.Base.Text.{begins_with}
use full_revna_like_projekt.Base.Decimal.{to_text}
use full_revna_like_projekt.Base.Json.{
  Json, null, bool, num, str, arr, obj, Items, nil, cons, Fields, end, field, get, put, nullish,
  to_string,
}
pub use full_revna_like_projekt.Base.Json.{truthy}
use Prim.Native.String.{◌++◌}

-- `options` of a request
pub record RequestOptions : Type 0 where
  pub body : Option Json
  pub verb : String

-- What is passed to `fetcher`: the path, and the method, body and headers that depend on the state.
pub record Call : Type 0 where
  pub path : String
  pub verb : String
  pub body : Option Json
  -- `X-Lumen-User`
  pub user : Option String
  pub authorization : Option String

-- The answer of the server; the body is missing where it is not JSON.
pub record Response : Type 0 where
  pub status : ℕ
  pub body : Option Json

-- What a call of `fetcher` gives: an error, or the answer.
pub data Answer : Type 0 where
  unreachable : String → Answer
  answered : Response → Answer

-- What a request gives: a value (none for `undefined`), a `LumenApiError`, or another error.
pub data Outcome : Type 0 where
  returned : Option Json → Outcome
  api_error : String → ℕ → Outcome
  fails : String → Outcome

-- What the client is created with.
pub record HttpClientOptions (W : Type 0) : Type 0 where
  pub fetcher : W → Call → W × Answer
  pub get_session : W → Option Fields
  pub set_session : Option (Option Fields → W → W)

-- What `ApiClientProvider` creates the client with: `getSession` gives the session of the render that
-- the client was created in.
abbrev pub api_client_options :
    {W : Type 0}
    → (W → Call → W × Answer)
    → (Option Fields → W → W)
    → Option Fields
    → HttpClientOptions W
api_client_options fetcher set_session session = record {
  fetcher = fetcher;
  get_session = λ w. session;
  set_session = some set_session;
}

-- The state of the client: the world, and the calls of `fetcher` so far, the newest first.
pub record Connection (W : Type 0) : Type 0 where
  pub world : W
  pub calls : List Call

-- `setSession?.(session)`
abbrev pub store_session :
    {W : Type 0} → Option (Option Fields → W → W) → Option Fields → Connection W → Connection W
store_session none session s = s
store_session (some set_session) session s = record s { world = set_session session s.world }

-- `session?.key`
abbrev pub session_field : String → Option Fields → Option Json
session_field key none = none
session_field key (some session) = get key session

-- `${value}`
abbrev pub shown : Option Json → String
shown none = "undefined"
shown (some v) = to_string v

unfoldable pub is_auth_bootstrap_request : String → Bool
is_auth_bootstrap_request path =
    (path == "/api/v1/auth/login")
    || (path == "/api/v1/auth/refresh")
    || (path == "/api/v1/auth/mfa/challenge/verify")
    || begins_with path "/api/v1/auth/webauthn/authenticate/"
    || (path == "/api/v1/auth/oauth/telegram/callback")

abbrev pub user_header : Option Fields → String
user_header session = elim (nullish (session_field "userId" session)) [
  | none ↦ "anonymous"
  | some v ↦ to_string v
]

abbrev pub bearer : Option Fields → Option String
bearer session =
    if truthy (session_field "accessToken" session)
    then some ("Bearer " ++ shown (session_field "accessToken" session))
    else none

unfoldable pub call_for : String → RequestOptions → Option Fields → Call
call_for path options session = record {
  path = path;
  verb = options.verb;
  body = options.body;
  user = some (user_header session);
  authorization = bearer session;
}

abbrev pub is_ok : Response → Bool
is_ok response = leb 200 response.status && leb response.status 299

-- The message of the error of an answer that is not `ok`.
unfoldable pub error_message : Response → String
error_message response = elim response.body [
  | some (obj payload) ↦ elim (nullish (get "error" payload)) [
    | some (obj error) ↦ elim (nullish (get "message" error)) [
      | some v ↦ to_string v
      | none ↦ standard
    ]
    | _ ↦ standard
  ]
  | _ ↦ standard
]
  where
    standard : String
    standard = "API request failed with status " ++ to_text response.status

-- What is made of the last answer.
unfoldable pub finish : Answer → Outcome
unfolding error_message
finish (unreachable message) = fails message
finish (answered response) =
    if not (is_ok response)
    then api_error (error_message response) response.status
    else if response.status ==ₙ 204
    then returned none
    else elim response.body [ none ↦ fails "the answer is not JSON" | some v ↦ returned (some v) ]

-- `{ ...value }`; of an array the keys are the places, of a text its characters are left out.
unfoldable pub spread : Json → Fields
spread (obj fs) = fs
spread (arr vs) = places 0 vs
  where
    places : ℕ → Items → Fields
    places n nil = end
    places n (cons v vs) = field (to_text n) v (places (suc n) vs)
spread _ = end

-- A key that is set to `undefined` reads as one that is missing.
abbrev pub put_option : String → Option Json → Fields → Fields
put_option key (some v) fs = put key v fs
put_option key none fs = without fs
  where
    without : Fields → Fields
    without end = end
    without (field k v rest) = if k == key then without rest else field k v (without rest)

-- `value.key` of a value that is not `null` or `undefined`
abbrev pub property : String → Json → Option Json
property key (obj fs) = get key fs
property key _ = none

abbrev pub with_tokens : Json → Json → Fields
with_tokens tokens session =
    put_option "refreshToken" (property "refresh_token" tokens)
      (put_option "accessToken" (property "access_token" tokens) (spread session))

abbrev pub refresh_options : Option Fields → RequestOptions
refresh_options session = record {
  body =
      if truthy (session_field "refreshToken" session)
      then elim (session_field "refreshToken" session) [
        | none ↦ none
        | some v ↦ some (obj (field "refresh_token" v end))
      ]
      else none;
  verb = "POST";
}

abbrev pub unauthorized : Answer → Bool
unauthorized (unreachable message) = false
unauthorized (answered response) = response.status ==ₙ 401

module _ {W : Type 0} (client : HttpClientOptions W) where
  unfoldable pub exchange : Call → Connection W → Connection W × Answer
  exchange call s =
      let (world, answer) = client.fetcher s.world call in
      (record s { world = world; calls = call ∷ s.calls }, answer)

  -- `request` with `retryOnUnauthorized` off
  unfoldable pub request_once : String → RequestOptions → Connection W → Connection W × Outcome
  unfolding exchange finish call_for
  request_once path options s =
      let session = client.get_session s.world in
      let (s', answer) = exchange (call_for path options session) s in (s', finish answer)

  -- `readSessionAfterTokenIssue`; none where it throws.
  unfoldable pub read_session_after_token_issue :
      Option Json → Connection W → Connection W × Option Fields
  unfolding exchange finish spread
  read_session_after_token_issue none s = (s, none)
  read_session_after_token_issue (some null) s = (s, none)
  read_session_after_token_issue (some tokens) s =
      let (s', answer) =
        exchange
          (record {
            path = "/api/auth/session";
            verb = "GET";
            body = none;
            user = none;
            authorization = some ("Bearer " ++ shown (property "access_token" tokens));
          })
          s in
      (
        s',
        elim answer [
          | unreachable message ↦ none
          | answered response ↦
              if is_ok response
              then elim response.body [ none ↦ none | some v ↦ some (with_tokens tokens v) ]
              else none
        ],
      )

  -- The rest of the `try` block of `refreshSession`.
  unfoldable pub after_refresh : Outcome → Connection W → Connection W × Option Fields
  unfolding read_session_after_token_issue
  after_refresh (returned tokens) s = read_session_after_token_issue tokens s
  after_refresh (api_error message status) s = (s, none)
  after_refresh (fails message) s = (s, none)

  -- `refreshSession`: the session that it returns is passed to `setSession`, and none is where it
  -- fails.
  unfoldable pub refresh_session : Connection W → Connection W × Option Fields
  unfolding request_once after_refresh
  refresh_session s =
      let current_session = client.get_session s.world in
      let (s1, outcome) = request_once "/api/v1/auth/refresh" (refresh_options current_session) s in
      let (s2, session) = after_refresh outcome s1 in
      (store_session client.set_session session s2, session)

  -- `request(path, options)`
  unfoldable pub request : String → RequestOptions → Connection W → Connection W × Outcome
  unfolding exchange refresh_session request_once finish call_for is_auth_bootstrap_request
  request path options s =
      let session = client.get_session s.world in
      let (s1, answer) = exchange (call_for path options session) s in
      let (s2, refreshed) = refresh_session s1 in
      if unauthorized answer
        && not (is_auth_bootstrap_request path)
        && (truthy (session_field "refreshToken" session) || not (path == "/api/v1/auth/refresh"))
      then (if truthy (session_field "accessToken" refreshed)
          then request_once path options s2
          else (s2, finish answer))
      else (s1, finish answer)
