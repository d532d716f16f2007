-- ===== src/Examples/Requests.antt =====
-- The theorems on requests, with a server that has let the session of a user expire.
use full_revna_like_projekt.Base.{
  ℕ, zero, suc, String, ◌≡◌, refl, ◌⊎◌, ◌↔◌, Option, none, some, [], ◌==◌, if◌then◌else◌, length,
}
use full_revna_like_projekt.Base.Json.{Fields, str, obj, end, field}
use full_revna_like_projekt.Http.{
  RequestOptions, Call, Answer, answered, HttpClientOptions, api_client_options, Connection,
  api_error, call_for, request, finish,
}
use full_revna_like_projekt.Http.Laws.{
  Extends, IsRefused, LoginPath, request-Extends, request_once_iff, first_answer,
}
use full_revna_like_projekt.Http.Provider.{request-refused_again}

-- The first call is refused, the second gives new tokens, and the third the session.
abbrev server : ℕ → Call → ℕ × Answer
server zero call = (1, answered (record { status = 401; body = none }))
server (suc zero) call = (
  2,
  answered (record { status = 200; body = some (obj (field "access_token" (str "fresh") end)) }),
)
server (suc (suc n)) call =
    (3, answered (record { status = 200; body = some (obj (field "userId" (str "usr_mira") end)) }))

-- The session of the render in which the client was created.
abbrev stale : Option Fields
stale = some (field "accessToken" (str "stale") (field "refreshToken" (str "again") end))

abbrev provided : HttpClientOptions ℕ
provided = api_client_options server (λ session n. n) stale

abbrev opened : Connection ℕ
opened = record { world = 0; calls = [] }

abbrev listing : RequestOptions
listing = record { body = none; verb = "GET" }

request-Extends_example : Extends 4 opened (request provided "/api/v1/users" listing opened).0
request-Extends_example = request-Extends provided "/api/v1/users" listing opened

request_once_iff_example :
    (let (s1, answer) = first_answer provided "/api/v1/auth/login" listing opened in
      let out = request provided "/api/v1/auth/login" listing opened in
      ((length out.0.calls ≡ suc (length opened.calls))
        ↔ (¬ IsRefused answer ⊎ LoginPath "/api/v1/auth/login"))
      × ((out ≡ (s1, finish answer)) ↔ (¬ IsRefused answer ⊎ LoginPath "/api/v1/auth/login")))
request_once_iff_example = request_once_iff provided "/api/v1/auth/login" listing opened

-- A server that refuses the old token each time, and otherwise gives new tokens.
abbrev strict : ℕ → Call → ℕ × Answer
strict n call = (
  suc n,
  answered (record {
    status = if call.path == "/api/v1/users" then 401 else 200;
    body = some (obj (field "access_token" (str "fresh") end));
  }),
)

strict-refuses : (n : ℕ) → IsRefused (strict n (call_for "/api/v1/users" listing stale)).1
unfolding call_for
strict-refuses n = refl

request-refused_again_example :
    (message : String) × ((request
        (api_client_options strict (λ session n. n) stale)
        "/api/v1/users"
        listing
        opened).1
      ≡ api_error message 401)
request-refused_again_example =
    request-refused_again strict (λ session n. n) stale "/api/v1/users" listing opened
      strict-refuses
