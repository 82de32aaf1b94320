-- ===== src/App/Guarded.antt =====
-- Which settings start in production.
use online_banking_system.Prelude.{
  ◌≤◌, ◌≡◌, ◌≢◌, ◌↔◌, refl, Bool, true, false, List, [], ◌∷◌, ◌++◌, length, ltb, arith, Bool-cases,
  inl, inr, ap,
}
use online_banking_system.RateLimit.{Text, same_text}
use online_banking_system.RateLimit.Texts.{same_text_sound}
use online_banking_system.App.Config.{
  AppSettings, default_jwt_secret, is_production, ConfigError, short_secret, wildcard_origin,
  report, has_wildcard, started, unless_errors, encryption_errors, config_errors,
  guard_production_configuration,
}

-- A long secret, no wildcard among the origins, and a key for encryption.
pub record IsSecure (is_fernet_key : Text → Bool) (s : AppSettings) : Type 0 where
  pub long_secret : 32 ≤ length s.jwt_secret_key
  pub no_wildcard : has_wildcard s.cors_allow_origins ≡ false
  pub has_key : s.encryption_key ≢ []
  pub valid_key : is_fernet_key s.encryption_key ≡ true

-- The default secret is too short.
default_is_short :
    (secret : Text) → 32 ≤ length secret → same_text secret default_jwt_secret ≡ false
default_is_short secret long = elim (Bool-cases (same_text secret default_jwt_secret)) [
  | inr other ↦ other
  | inl same ↦
      let sizes = ap length (same_text_sound secret default_jwt_secret same) in
      absurd (omega (arith, sizes, long))
]

append_none : (xs ys : List ConfigError) → xs ++ ys ≡ [] → (xs ≡ []) × (ys ≡ [])
append_none [] ys h = (refl, h)
append_none (x ∷ xs) ys h = cc h

report_none : (b : Bool) (e : ConfigError) → report b e ≡ [] → b ≡ false
report_none true e h = cc h
report_none false e h = refl

module _ (is_fernet_key : Text → Bool) (s : AppSettings) where
  key_accepted :
      (key : Text) → key ≢ [] → is_fernet_key key ≡ true → encryption_errors is_fernet_key key ≡ []
  key_accepted [] there valid = absurd (there refl)
  key_accepted (c ∷ key) there valid = rw valid refl

  accepted_key :
      (key : Text)
      → encryption_errors is_fernet_key key ≡ []
      → (key ≢ []) × (is_fernet_key key ≡ true)
  accepted_key [] h = cc h
  accepted_key (c ∷ key) h = elim (Bool-cases (is_fernet_key (c ∷ key))) [
    | inl valid ↦ (λ e. cc e, valid)
    | inr invalid ↦ cc (rw invalid at h)
  ]

  errors-none : IsSecure is_fernet_key s → config_errors is_fernet_key s ≡ []
  unfolding config_errors
  errors-none w =
      let long_enough : ltb (length s.jwt_secret_key) 32 ≡ false = ground (arith, w.long_secret) in
      rw (default_is_short s.jwt_secret_key w.long_secret)
        (rw long_enough (rw w.no_wildcard (key_accepted s.encryption_key w.has_key w.valid_key)))

  none-IsSecure : config_errors is_fernet_key s ≡ [] → IsSecure is_fernet_key s
  unfolding config_errors
  none-IsSecure none =
      let (others, last) = append_none _ (encryption_errors is_fernet_key s.encryption_key) none in
      let (secrets, origins) =
        append_none _ (report (has_wildcard s.cors_allow_origins) _) others in
      let short : ltb (length s.jwt_secret_key) 32 ≡ false =
        report_none _ _ (append_none _ (report _ short_secret) secrets).1 in
      let key = accepted_key s.encryption_key last in
      record {
        long_secret = ground (arith, short);
        no_wildcard = report_none _ wildcard_origin origins;
        has_key = key.0;
        valid_key = key.1;
      }

started_none : (es : List ConfigError) (s : AppSettings) → unless_errors es s ≡ started s → es ≡ []
started_none [] s h = refl
started_none (e ∷ es) s h = cc h

-- In production the application starts exactly with settings that are secure: a secret of at least 32
-- characters, which the default one is not, no wildcard among the allowed origins, and a Fernet key.
pub starts_iff_IsSecure :
    (is_fernet_key : Text → Bool) (s : AppSettings)
    → is_production s ≡ true
    → (guard_production_configuration is_fernet_key s ≡ started s) ↔ IsSecure is_fernet_key s
unfolding guard_production_configuration
starts_iff_IsSecure is_fernet_key s production = rw production (
  λ h. none-IsSecure is_fernet_key s (started_none (config_errors is_fernet_key s) s h),
  λ w. rw (errors-none is_fernet_key s w) refl,
)
