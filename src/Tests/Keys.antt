-- ===== src/Tests/Keys.antt =====
-- A concrete Crypto, users and sessions of the sample bank.
use online_banking_system.Prelude.{
  ℕ, ◌+◌, true, false, Option, none, some, [], ◌∷◌, ◌==◌, ltb, if◌then◌else◌,
}
use online_banking_system.Db.{User, UserRole, RefreshToken, Db}
use online_banking_system.Auth.Crypto.{Crypto, Claims, TokenKind}
use online_banking_system.Auth.{TokenSettings, Draw, RegisterRequest}
use online_banking_system.Tests.Sample.{bank}

-- Token 1 allows user 11 to reset the password with hash 500 until 900.
abbrev pub reset_of_11 : Claims
reset_of_11 = record { sub = 11; kind = TokenKind.password_reset; pwd_fp = some 500; exp = 900 }

-- Token 2 is an access token of user 99.
abbrev pub access_of_99 : Claims
access_of_99 = record { sub = 99; kind = TokenKind.access; pwd_fp = none; exp = 900 }

-- Token 3 is one of user 11.
abbrev pub access_of_11 : Claims
access_of_11 = record access_of_99 { sub = 11 }

abbrev pub signed : ℕ → Option Claims
signed token =
    if token == 1
    then some reset_of_11
    else if token == 2
    then some access_of_99
    else if token == 3
    then some access_of_11
    else none

-- A password is its own hash.
abbrev pub crypto : Crypto
crypto = record {
  verify_password = λ password hash. password == hash;
  hash_refresh_token = λ raw. raw + 1000;
  hash_otp_code = λ code. code + 2000;
  password_fingerprint = λ hash. hash;
  decode = λ token now. if ltb now 900 then signed token else none;
  decode_expired = signed;
  encode = λ c. c.sub;
  verify_totp = λ secret code now. secret == code;
  encrypt_secret = λ secret. secret;
  decrypt_secret = λ secret. some secret;
}

abbrev pub user_11 : User
user_11 = record {
  email = 71;
  password_hash = 500;
  role = UserRole.customer;
  enabled = true;
  is_blocked = false;
  email_verified = true;
  last_login_at = none;
  totp_secret = none;
  totp_enabled = false;
  deleted_at = none;
}

abbrev pub user_99 : User
user_99 = record user_11 { email = 79; role = UserRole.admin }

-- The session of the raw token 40.
abbrev pub session_31 : RefreshToken
session_31 = record {
  user_id = 11;
  token_hash = 1040;
  expires_at = 900;
  revoked_at = none;
  replaced_by_token_id = none;
}

abbrev pub signed_in_bank : Db
signed_in_bank = record (bank 5000 0) {
  users = (11, user_11) ∷ (99, user_99) ∷ [];
  refresh_tokens = (31, session_31) ∷ [];
}

abbrev pub token_settings : TokenSettings
token_settings = record { refresh_token_expire_days = 7; access_token_expire_minutes = 15 }

abbrev pub draw : ℕ → Draw
draw raw = record { raw_refresh = raw; token_id = raw + 60; now = 50 }

abbrev pub newcomer : RegisterRequest
newcomer = record {
  email = 72;
  password_hash = 600;
  phone_number = 556;
  address = none;
  national_id = some 8;
}
