-- ===== src/Cards/Number.antt =====
-- Card numbers, as lists of decimal digits: _luhn_check_digit, generate_synthetic_pan, Card.mask.
use online_banking_system.Prelude.{
  ℕ, ◌+◌, ◌-◌, ◌*◌, ◌%◌, Bool, true, not, ◌&&◌, List, [], ◌∷◌, ◌++◌, map, length, take, drop, ltb,
  leb, if◌then◌else◌,
}
use mathlib.Core.List.{reverse}

-- `d *= 2; if d > 9: d -= 9`
abbrev pub doubled : ℕ → ℕ
doubled d = if ltb 9 (d * 2) then d * 2 - 9 else d * 2

-- The loop over the reversed digits; `even` is `i % 2 == 0`.
unfoldable pub luhn_total : Bool → List ℕ → ℕ
luhn_total even [] = 0
luhn_total even (d ∷ ds) = (if even then doubled d else d) + luhn_total (not even) ds

unfoldable pub luhn_check_digit : List ℕ → ℕ
unfolding luhn_total
luhn_check_digit partial_number = (10 - luhn_total true (reverse partial_number) % 10) % 10

-- The random digits come from outside.
unfoldable pub generate_synthetic_pan : List ℕ → List ℕ → List ℕ
unfolding luhn_check_digit
generate_synthetic_pan bin_prefix random_digits =
    let body = bin_prefix ++ random_digits in body ++ luhn_check_digit body ∷ []

-- The ASCII digits of a text; a card number has no others.
unfoldable pub digits_of : List ℕ → List ℕ
digits_of [] = []
digits_of (c ∷ s) = let rest = digits_of s in if leb b'0' c && leb c b'9' then c ∷ rest else rest

-- " **** **** " and "**** **** **** ****"
abbrev pub stars : List ℕ
stars = b'*' ∷ b'*' ∷ b'*' ∷ b'*' ∷ []

abbrev pub masked_middle : List ℕ
masked_middle = b' ' ∷ stars ++ (b' ' ∷ stars) ++ (b' ' ∷ [])

abbrev pub all_masked : List ℕ
all_masked = stars ++ (b' ' ∷ stars) ++ (b' ' ∷ stars) ++ (b' ' ∷ stars)

-- Card.mask, of a number written in ASCII
unfoldable pub mask : List ℕ → List ℕ
unfolding digits_of take drop
mask card_number =
    let digits = digits_of card_number in
    if ltb (length digits) 8
    then all_masked
    else take 4 digits ++ masked_middle ++ drop (length digits - 4) digits

-- The digits of a number as text.
abbrev pub as_text : List ℕ → List ℕ
as_text digits = map (λ d. b'0' + d) digits
