-- ===== src/Cards/Luhn.antt =====
-- Generated card numbers are valid by the Luhn rule.
use online_banking_system.Prelude.{ℕ, ◌+◌, ◌-◌, ◌%◌, ◌≡◌, true, false, List, [], ◌∷◌, ◌++◌, arith}
use mathlib.Core.List.{reverse, reverse-append}
use online_banking_system.Cards.{luhn_total, luhn_check_digit, generate_synthetic_pan}

-- The Luhn sum of a whole number: from the right, every second digit is doubled, the last is not.
pub luhn_sum : List ℕ → ℕ
luhn_sum pan = luhn_total false (reverse pan)

check_digit_completes : (t : ℕ) → ((10 - t % 10) % 10 + t) % 10 ≡ 0
check_digit_completes t = omega arith

-- The Luhn sum of every generated card number is divisible by ten.
pub generate_synthetic_pan_luhn :
    (bin_prefix random_digits : List ℕ)
    → luhn_sum (generate_synthetic_pan bin_prefix random_digits) % 10 ≡ 0
unfolding luhn_sum generate_synthetic_pan luhn_total
generate_synthetic_pan_luhn bin_prefix random_digits =
    let body = bin_prefix ++ random_digits in
    rw (reverse-append body (luhn_check_digit body ∷ []))
      (check_digit_completes (luhn_total true (reverse body)))
