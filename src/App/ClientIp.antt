-- ===== src/App/ClientIp.antt =====
-- get_client_ip: the address that audit entries record.
use online_banking_system.Prelude.{
  ℕ, Bool, ◌&&◌, ◌||◌, Option, none, some, List, [], ◌∷◌, ◌==◌, leb, if◌then◌else◌,
}
use online_banking_system.RateLimit.{Text}

-- `","`
abbrev pub comma : ℕ
comma = 44

abbrev pub before_first : ℕ → List Text → List Text
before_first c [] = (c ∷ []) ∷ []
before_first c (first ∷ rest) = (c ∷ first) ∷ rest

-- `text.split(",")`
unfoldable pub split_commas : Text → List Text
split_commas [] = [] ∷ []
split_commas (c ∷ text) =
    let rest = split_commas text in if c == comma then [] ∷ rest else before_first c rest

-- `parts[-1]`, of a list that is not empty
unfoldable pub last_part : List Text → Text
last_part [] = []
last_part (part ∷ []) = part
last_part (part ∷ next ∷ parts) = last_part (next ∷ parts)

-- `c.isspace()` in Latin-1, which headers are read as
abbrev pub is_space : ℕ → Bool
is_space c = (leb 9 c && leb c 13) || (leb 28 c && leb c 32) || c == 133 || c == 160

unfoldable pub strip_left : Text → Text
strip_left [] = []
strip_left (c ∷ text) = let rest = strip_left text in if is_space c then rest else c ∷ text

abbrev pub unless_blank : ℕ → Text → Text
unless_blank c [] = if is_space c then [] else c ∷ []
unless_blank c (d ∷ text) = c ∷ d ∷ text

unfoldable pub strip_right : Text → Text
strip_right [] = []
strip_right (c ∷ text) = unless_blank c (strip_right text)

-- `text.strip()`
unfoldable pub strip : Text → Text
unfolding strip_left strip_right
strip text = strip_right (strip_left text)

-- An empty header counts as none.
abbrev pub forwarded_for : Option Text → Option Text → Option Text
forwarded_for none host = host
forwarded_for (some []) host = host
forwarded_for (some (c ∷ text)) host = some (strip (last_part (split_commas (c ∷ text))))

-- `settings.trust_proxy_headers`, the header X-Forwarded-For, and `request.client.host`
unfoldable pub get_client_ip : Bool → Option Text → Option Text → Option Text
unfolding split_commas last_part strip
get_client_ip trust_proxy_headers forwarded host =
    if trust_proxy_headers then forwarded_for forwarded host else host
