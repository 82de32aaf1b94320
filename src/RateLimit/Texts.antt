-- ===== src/RateLimit/Texts.antt =====
-- Texts as lists of code points: the paths, prefixes and keys of the rate limiter.
use online_banking_system.Prelude.{
  ℕ, ◌≡◌, refl, Bool, true, false, ◌&&◌, List, [], ◌∷◌, ◌==◌, arith,
}

abbrev pub Text : Type 0
Text = List ℕ

unfoldable pub same_text : Text → Text → Bool
same_text [] [] = true
same_text (c ∷ s) (d ∷ t) = c == d && same_text s t
same_text _ _ = false

-- `path.startswith(prefix)`
unfoldable pub startswith : Text → Text → Bool
startswith path [] = true
startswith [] (_ ∷ _) = false
startswith (c ∷ path) (d ∷ prefix) = c == d && startswith path prefix

pub same_text_refl : (s : Text) → same_text s s ≡ true
unfolding same_text
same_text_refl [] = refl
same_text_refl (c ∷ s) = ground (arith, same_text_refl s)

pub same_text_sound : (s t : Text) → same_text s t ≡ true → s ≡ t
unfolding same_text
same_text_sound [] [] same = refl
same_text_sound [] (d ∷ t) same = absurd (ground arith)
same_text_sound (c ∷ s) [] same = absurd (ground arith)
same_text_sound (c ∷ s) (d ∷ t) same = ground (arith, same_text_sound s t)
