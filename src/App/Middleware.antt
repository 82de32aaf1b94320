-- ===== src/App/Middleware.antt =====
-- The ASGI middleware of backend/app/core/middleware.py, in the order of create_app in
-- backend/app/main.py: rate limiting, then metrics, request ids and security headers; and outside of
-- all of them the handler for Exception of backend/app/core/exceptions.py, which Starlette's
-- ServerErrorMiddleware calls. What is inside of them (CORS, the routers, the handlers of other
-- errors) is an argument: what it sends for a scope, and whether it then raises an exception.
use online_banking_system.Prelude.{
  ℕ, Bool, true, false, Option, none, some, List, [], ◌∷◌, ◌++◌, map, if◌then◌else◌,
}
use online_banking_system.RateLimit.{Hits, Limit, literal, admit_request}
use online_banking_system.RateLimit.Texts.{Text, same_text}

abbrev pub Header : Type 0
Header = Text × Text

pub record HttpScope : Type 0 where
  pub path : Text
  pub client : Option Text
  pub headers : List Header

-- An ASGI scope: its type is "http" or another one ("lifespan", "websocket").
pub data Scope : Type 0 where
  http : HttpScope → Scope
  other : Scope

-- "http.response.start" with its status and headers, and "http.response.body"
pub data Outgoing : Type 0 where
  response_start : ℕ → List Header → Outgoing
  response_body : Text → Outgoing

-- What was sent, and whether an exception ended it.
abbrev pub Sent : Type 0
Sent = List Outgoing × Bool

abbrev pub AsgiApp : Type 0
AsgiApp = Scope → Sent

-- An app whose `send` passes every message through a wrapper.
abbrev pub wrapped : (Outgoing → Outgoing) → Sent → Sent
wrapped wrapper sent = (map wrapper sent.0, sent.1)

abbrev pub later_or : Option Text → Option Text → Option Text
later_or none earlier = earlier
later_or (some v) earlier = some v

-- `dict(headers).get(name)`: the last of several headers with one name counts.
unfoldable pub header_value : Text → List Header → Option Text
unfolding same_text
header_value name [] = none
header_value name ((key, value) ∷ headers) =
    later_or (header_value name headers) (if same_text key name then some value else none)

-- The send_wrapper of a middleware that adds headers
unfoldable pub add_headers : List Header → Outgoing → Outgoing
add_headers extra (response_start status headers) = response_start status (headers ++ extra)
add_headers extra (response_body body) = response_body body

abbrev pub security_headers : List Header
security_headers =
    (literal "x-content-type-options", literal "nosniff")
    ∷ (literal "x-frame-options", literal "DENY")
    ∷ (literal "referrer-policy", literal "no-referrer")
    ∷ (literal "permissions-policy", literal "geolocation=(), microphone=(), camera=()")
    ∷ (literal "strict-transport-security", literal "max-age=63072000; includeSubDomains")
    ∷ (literal "cross-origin-opener-policy", literal "same-origin")
    ∷ []

unfoldable pub security_middleware : AsgiApp → AsgiApp
unfolding add_headers
security_middleware app (http scope) = wrapped (add_headers security_headers) (app (http scope))
security_middleware app other = app other

-- `headers.get(b"x-request-id", b"").decode() or str(uuid.uuid4())`: `fresh` is the text of the new
-- UUID.
abbrev pub sent_or : Text → Option Text → Text
sent_or fresh none = fresh
sent_or fresh (some []) = fresh
sent_or fresh (some (c ∷ sent)) = c ∷ sent

unfoldable pub request_id_of : Text → HttpScope → Text
unfolding header_value
request_id_of fresh scope = sent_or fresh (header_value (literal "x-request-id") scope.headers)

unfoldable pub request_id_middleware : Text → AsgiApp → AsgiApp
unfolding add_headers request_id_of
request_id_middleware fresh app (http scope) =
    wrapped (add_headers ((literal "x-request-id", request_id_of fresh scope) ∷ []))
      (app (http scope))
request_id_middleware fresh app other = app other

-- The status that is counted: of the last response that was begun, or 500.
unfoldable pub status_code : ℕ → List Outgoing → ℕ
status_code held [] = held
status_code held (response_start status headers ∷ rest) = status_code status rest
status_code held (response_body body ∷ rest) = status_code held rest

-- What MetricsMiddleware counts, also after an exception: the path's template, made by `template`, and
-- the status.
unfoldable pub metrics_middleware : (Text → Text) → AsgiApp → Scope → Sent × List (Text × ℕ)
unfolding status_code
metrics_middleware template app (http scope) =
    let sent = app (http scope) in
    (
      sent,
      if same_text (template scope.path) (literal "/metrics")
          then []
          else (template scope.path, status_code 500 sent.0) ∷ [],
    )
metrics_middleware template app other = (app other, [])

-- RateLimitMiddleware._send_rate_limited, with the JSON text of its body
unfoldable pub send_rate_limited : Text → List Outgoing
send_rate_limited body =
    response_start 429 ((literal "content-type", literal "application/json") ∷ [])
    ∷ response_body body
    ∷ []

abbrev pub client_ip : Option Text → Text
client_ip none = literal "unknown"
client_ip (some ip) = ip

-- What a request draws from outside, and the pieces that are not the backend's own.
pub record Stack : Type 0 where
  pub limits : List (Text × Limit)
  pub template : Text → Text
  pub inner : AsgiApp
  pub fresh_id : Text
  pub refusal_body : Text
  pub error_length : Text
  pub error_body : Text

-- The middleware inside of the rate limiter, where metrics are enabled.
abbrev pub served : Stack → Scope → Sent × List (Text × ℕ)
served stack =
    metrics_middleware stack.template
      (request_id_middleware stack.fresh_id (security_middleware stack.inner))

abbrev pub answered : Stack → HttpScope → Bool → Sent × List (Text × ℕ)
answered stack scope true = served stack (http scope)
answered stack scope false = ((send_rate_limited stack.refusal_body, false), [])

unfoldable pub has_begun : List Outgoing → Bool
has_begun [] = false
has_begun (response_start status headers ∷ rest) = true
has_begun (response_body body ∷ rest) = has_begun rest

-- handle_unexpected_error, with the headers and the JSON text of its JSONResponse
unfoldable pub unexpected_error : Text → Text → List Outgoing
unexpected_error content_length body =
    response_start 500 (
      (literal "content-length", content_length)
      ∷ (literal "content-type", literal "application/json")
      ∷ [])
    ∷ response_body body
    ∷ []

-- An exception that has passed the middleware is answered if no response was begun.
abbrev pub or_error : Stack → Sent → List Outgoing
or_error stack (messages, false) = messages
or_error stack (messages, true) =
    if has_begun messages
    then messages
    else messages ++ unexpected_error stack.error_length stack.error_body

-- RateLimitMiddleware.__call__ and what is outside of it: other scopes than "http" are passed on.
unfoldable pub handle : Stack → ℕ → Scope → Hits → (List Outgoing × List (Text × ℕ)) × Hits
unfolding metrics_middleware request_id_middleware security_middleware send_rate_limited
    admit_request has_begun unexpected_error
handle stack now (http scope) hits =
    let decided = admit_request stack.limits now scope.path (client_ip scope.client) hits in
    let reply = answered stack scope decided.0 in ((or_error stack reply.0, reply.1), decided.1)
handle stack now other hits = let reply = served stack other in ((reply.0.0, reply.1), hits)
