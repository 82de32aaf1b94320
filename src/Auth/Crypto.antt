-- ===== src/Auth/Crypto.antt =====
-- What backend/app/core/security.py and backend/app/core/crypto.py take from third-party packages
-- (argon2, jose, pyotp, cryptography) and from hashlib: a parameter of the sign-in code.
use online_banking_system.Prelude.{ℕ, Bool, Option}

-- The claim `type` of a JWT.
pub data TokenKind : Type 0 where
  access password_reset mfa_challenge other : TokenKind

-- The claims of a JWT that the code reads; `pwd_fp` is absent from all but reset tokens.
pub record Claims : Type 0 where
  pub sub : ℕ
  pub kind : TokenKind
  pub pwd_fp : Option ℕ
  pub exp : ℕ

pub record Crypto : Type 0 where
  -- argon2: a password against a stored hash
  pub verify_password : ℕ → ℕ → Bool
  -- SHA-256 of a refresh token, of a one-time code, and the fingerprint of a password hash
  pub hash_refresh_token : ℕ → ℕ
  pub hash_otp_code : ℕ → ℕ
  pub password_fingerprint : ℕ → ℕ
  -- jose: the claims of a token whose signature holds, at a time before its expiry and at any time
  pub decode : ℕ → ℕ → Option Claims
  pub decode_expired : ℕ → Option Claims
  -- jose: the signed token of some claims
  pub encode : Claims → ℕ
  -- pyotp: the code of a secret at a time; Fernet: a secret as it is stored
  pub verify_totp : ℕ → ℕ → ℕ → Bool
  pub encrypt_secret : ℕ → ℕ
  pub decrypt_secret : ℕ → Option ℕ
