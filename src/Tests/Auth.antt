-- ===== src/Tests/Auth.antt =====
-- The theorems on sign-up and sign-in at the sample bank.
use online_banking_system.Prelude.{◌≡◌, ◌↔◌, refl, true, some, arith, Bool-cases, inl, inr, ltb}
use online_banking_system.Table.{update}
use online_banking_system.Db.{invalid_refresh_token, invalid_reset_token, Db}
use online_banking_system.Db.Constraints.{meets_constraints}
use online_banking_system.Session.{open_session, ◌>>=◌}
use online_banking_system.Session.Check.{ok, err}
use online_banking_system.Auth.{
  get_user, TokenResponse, token_response, tokens, login, refresh, get_by_hash, get_by_email,
  change_password, set_password, confirm_password_reset, reset_user, registration_checks,
  create_user, create_customer_row, register, confirm_registration,
}
use online_banking_system.Auth.Admission.{MayLogIn, login_opens_iff}
use online_banking_system.Auth.Rotation.{IsRefreshable, HasRotated, refresh_rotates}
use online_banking_system.Auth.Reuse.{IsSignedOut, reuse_signs_out}
use online_banking_system.Auth.SignedOut.{change_signs_out}
use online_banking_system.Auth.SingleUse.{IsSteady, reset_once}
use online_banking_system.Auth.Onboarding.{IsWelcome, registered_can_login}
use online_banking_system.Tests.Sample.{settings}
use online_banking_system.Tests.Keys.{
  crypto, reset_of_11, user_11, session_31, signed_in_bank, token_settings, draw, newcomer,
}

signed_in_bank-accepted : meets_constraints signed_in_bank ≡ true
unfolding meets_constraints
signed_in_bank-accepted = refl

login_opens_iff_example :
    ((r : TokenResponse) × ((login crypto token_settings
          (draw 41)
          71
          500
          (open_session signed_in_bank)).0
        ≡ ok (tokens r)))
    ↔ MayLogIn crypto 71 500 signed_in_bank
login_opens_iff_example =
    login_opens_iff crypto token_settings (draw 41) 71 500 signed_in_bank signed_in_bank-accepted

refreshable : IsRefreshable crypto 40 50 31 session_31 signed_in_bank
unfolding get_by_hash get_user
refreshable = record { user = user_11; stored = refl; valid = refl; known = refl; admitted = refl }

refresh_rotates_example :
    let out = refresh crypto token_settings (λ d. d) (draw 41) 40 (open_session signed_in_bank) in
    (out.0 ≡ ok (token_response token_settings (draw 41) 11))
    × HasRotated crypto token_settings
        (draw 41)
        31
        session_31
        session_31
        signed_in_bank
        out.1.committed
refresh_rotates_example =
    refresh_rotates crypto token_settings (λ d. d) (draw 41) 40 31 session_31 session_31
      signed_in_bank refreshable refl (λ e. omega (arith, e)) signed_in_bank-accepted

reuse_signs_out_example :
    let after =
      (refresh crypto token_settings
        (λ d. d)
        (draw 41)
        40
        (open_session signed_in_bank)).1.committed in
    let out = refresh crypto token_settings (λ d. d) (draw 42) 40 (open_session after) in
    (out.0 ≡ err invalid_refresh_token) × IsSignedOut 11 out.1.committed
reuse_signs_out_example =
    reuse_signs_out crypto token_settings (draw 41) (draw 42) 40 31 session_31 signed_in_bank
      refreshable refl (λ e. omega (arith, e)) (λ e. omega (arith, e)) signed_in_bank-accepted

changed : (change_password crypto 600 50 500 11 user_11 (open_session signed_in_bank)).0 ≡ ok tt
unfolding change_password set_password meets_constraints update ◌>>=◌
changed = refl

abbrev changed_bank : Db
changed_bank =
    (change_password crypto 600 50 500 11 user_11 (open_session signed_in_bank)).1.committed

ended : get_by_hash 1040 changed_bank ≡ some (31, record session_31 { revoked_at = some 50 })
unfolding get_by_hash change_password set_password meets_constraints update ◌>>=◌
ended = refl

change_signs_out_example :
    (refresh crypto token_settings (λ d. d) (draw 41) 40 (open_session changed_bank)).0
    ≡ err invalid_refresh_token
change_signs_out_example =
    change_signs_out crypto token_settings 600 50 500 11 user_11 signed_in_bank tt (λ d. d)
      (draw 41) 40 31 (record session_31 { revoked_at = some 50 }) changed ended refl

steady : IsSteady crypto
steady = record {
  steady = λ token now c read. elim (Bool-cases (ltb now 900)) [
    | inl early ↦ rw early at read
    | inr late ↦ cc (rw late at read)
  ];
}

known : get_user 11 signed_in_bank ≡ some user_11
unfolding get_user
known = refl

reset : (confirm_password_reset crypto 600 50 1 (open_session signed_in_bank)).0 ≡ ok tt
unfolding confirm_password_reset reset_user meets_constraints set_password update ◌>>=◌
reset = refl

reset_once_example :
    let after =
      (confirm_password_reset crypto 600 50 1 (open_session signed_in_bank)).1.committed in
    (confirm_password_reset crypto 700 60 1 (open_session after)).0 ≡ err invalid_reset_token
reset_once_example =
    reset_once crypto 600 50 1 signed_in_bank reset_of_11 user_11 tt 700 60 steady refl known
      (λ e. omega (arith, e)) reset

welcome : IsWelcome 12 13 newcomer signed_in_bank signed_in_bank
unfolding registration_checks get_by_email meets_constraints create_user create_customer_row
welcome = record { allowed = refl; unused = refl; meets = refl }

registered_can_login_example :
    let first = register (λ d. d) settings 50 2123 12 13 newcomer (open_session signed_in_bank) in
    let second = confirm_registration crypto (λ d. d) 60 12 123 (open_session first.1.committed) in
    (login crypto token_settings (draw 41) 72 600 (open_session second.1.committed)).0
    ≡ ok (tokens (token_response token_settings (draw 41) 12))
registered_can_login_example =
    registered_can_login crypto settings token_settings (λ d. d) 50 2123 12 13 60 123 600 newcomer
      (draw 41) signed_in_bank welcome refl (omega arith) refl
