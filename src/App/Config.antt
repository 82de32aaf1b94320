-- ===== src/App/Config.antt =====
-- Settings._guard_production_configuration. Whether a text is a Fernet key is the library's to say.
use online_banking_system.Prelude.{
  ℕ, ◌+◌, Bool, false, ◌&&◌, ◌||◌, List, [], ◌∷◌, ◌++◌, length, ltb, leb, if◌then◌else◌,
}
use online_banking_system.RateLimit.{Text, same_text, literal}

-- The settings that the guard reads.
pub record AppSettings : Type 0 where
  pub environment : Text
  pub jwt_secret_key : Text
  pub encryption_key : Text
  pub cors_allow_origins : List Text

abbrev pub default_jwt_secret : Text
default_jwt_secret = literal "change_me_super_secret"

abbrev pub min_production_secret_length : ℕ
min_production_secret_length = 32

-- `str.lower` on ASCII
abbrev pub lower : Text → Text
lower [] = []
lower (c ∷ text) = (if leb 65 c && leb c 90 then c + 32 else c) ∷ lower text

unfoldable pub is_production : AppSettings → Bool
is_production s = same_text (lower s.environment) (literal "production")

pub data ConfigError : Type 0 where
  default_secret short_secret wildcard_origin : ConfigError
  no_encryption_key invalid_encryption_key : ConfigError

-- `if b: errors.append(e)`
abbrev pub report : Bool → ConfigError → List ConfigError
report b e = if b then e ∷ [] else []

-- `"*" in self.cors_allow_origins`
unfoldable pub has_wildcard : List Text → Bool
has_wildcard [] = false
has_wildcard (origin ∷ origins) = same_text origin (literal "*") || has_wildcard origins

-- What a start leaves: the settings, or a ValueError with its reasons.
pub data Startup : Type 0 where
  started : AppSettings → Startup
  refused : List ConfigError → Startup

-- `if errors: raise ValueError(...)`
abbrev pub unless_errors : List ConfigError → AppSettings → Startup
unless_errors [] s = started s
unless_errors (e ∷ es) s = refused (e ∷ es)

module _ (is_fernet_key : Text → Bool) where
  abbrev pub encryption_errors : Text → List ConfigError
  encryption_errors [] = no_encryption_key ∷ []
  encryption_errors (c ∷ key) = if is_fernet_key (c ∷ key) then [] else invalid_encryption_key ∷ []

  unfoldable pub config_errors : AppSettings → List ConfigError
  unfolding has_wildcard
  config_errors s =
      report (same_text s.jwt_secret_key default_jwt_secret) default_secret
      ++ report (ltb (length s.jwt_secret_key) min_production_secret_length) short_secret
      ++ report (has_wildcard s.cors_allow_origins) wildcard_origin
      ++ encryption_errors s.encryption_key

  unfoldable pub guard_production_configuration : AppSettings → Startup
  unfolding is_production config_errors
  guard_production_configuration s =
      if is_production s then unless_errors (config_errors s) s else started s
