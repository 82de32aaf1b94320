-- ===== src/App/Marked.antt =====
-- Which responses carry the headers of the middleware.
use online_banking_system.Prelude.{Bool, true, false, ◌&&◌, ◌||◌, List, [], ◌∷◌, ◌++◌, not}
use online_banking_system.RateLimit.{literal}
use online_banking_system.RateLimit.Texts.{Text, same_text}
use online_banking_system.App.Middleware.{
  has_begun, Header, HttpScope, http, Outgoing, response_start, response_body, security_headers,
  Stack,
}

unfoldable pub same_header : Header → Header → Bool
unfolding same_text
same_header (n, v) (m, w) = same_text n m && same_text v w

unfoldable pub has_header : Header → List Header → Bool
unfolding same_header
has_header h [] = false
has_header h (x ∷ xs) = same_header h x || has_header h xs

unfoldable pub has_all : List Header → List Header → Bool
unfolding has_header
has_all [] xs = true
has_all (h ∷ hs) xs = has_header h xs && has_all hs xs

-- Every response that is begun has these headers.
unfoldable pub all_marked : List Header → List Outgoing → Bool
unfolding has_all
all_marked hs [] = true
all_marked hs (response_start status xs ∷ rest) = has_all hs xs && all_marked hs rest
all_marked hs (response_body body ∷ rest) = all_marked hs rest

-- The headers of every response: those for security, and the id of the request.
abbrev pub marks : Text → List Header
marks id = security_headers ++ (literal "x-request-id", id) ∷ []

-- The application raises before it has begun a response.
abbrev pub crashes : Stack → HttpScope → Bool
crashes stack scope = let sent = stack.inner (http scope) in sent.1 && not (has_begun sent.0)
