-- ===== src/App/Forwarded.antt =====
-- What a client can make of the recorded address.
use online_banking_system.Prelude.{
  ℕ, ◌≡◌, ◌∙◌, refl, Bool, true, false, ◌&&◌, not, Option, some, List, [], ◌∷◌, ◌++◌, ◌==◌, arith,
  Bool-cases, inl, inr,
}
use online_banking_system.RateLimit.{Text, literal}
use online_banking_system.App.ClientIp.{
  comma, split_commas, last_part, is_space, strip_left, unless_blank, strip_right, strip,
  forwarded_for, get_client_ip,
}

-- No comma and no white space, as in an address.
unfoldable pub is_plain : Text → Bool
is_plain [] = true
is_plain (c ∷ text) = not (c == comma) && not (is_space c) && is_plain text

-- There is always a part.
some_part : (t : Text) → (q : Text) × (ps : List Text) × (split_commas t ≡ q ∷ ps)
unfolding split_commas
some_part [] = ([], [], refl)
some_part (c ∷ t) = elim (Bool-cases (c == comma)) [
  | inl here ↦ ([], split_commas t, rw here refl)
  | inr past ↦ let (q, ps, parts) = some_part t in (c ∷ q, ps, rw past (rw parts refl))
]

-- What stands before a comma does not change the last part.
split-append :
    (s t : Text)
    → (p : Text) × (q : Text) × (ps : List Text) × (split_commas (s ++ (comma ∷ t)) ≡ p ∷ q ∷ ps)
      × (last_part (q ∷ ps) ≡ last_part (split_commas t))
unfolding split_commas last_part
split-append [] t = let (q, ps, parts) = some_part t in ([], q, ps, rw parts refl, rw parts refl)
split-append (c ∷ s) t =
    let (p, q, ps, parts, last) = split-append s t in
    elim (Bool-cases (c == comma)) [
      | inl here ↦ ([], p, q ∷ ps, rw here (rw parts refl), last)
      | inr past ↦ (c ∷ p, q, ps, rw past (rw parts refl), last)
    ]

split-plain : (t : Text) → is_plain t ≡ true → split_commas t ≡ t ∷ []
unfolding split_commas is_plain
split-plain [] plain = refl
split-plain (c ∷ t) plain = ground (arith, plain, split-plain t)

strip_left-plain : (t : Text) → is_plain t ≡ true → strip_left t ≡ t
unfolding strip_left is_plain
strip_left-plain [] plain = refl
strip_left-plain (c ∷ t) plain = ground (arith, plain)

unless_blank-solid : (c : ℕ) (t : Text) → is_space c ≡ false → unless_blank c t ≡ c ∷ t
unless_blank-solid c [] solid = rw solid refl
unless_blank-solid c (d ∷ t) solid = refl

plain_parts :
    (c : ℕ) (t : Text) → is_plain (c ∷ t) ≡ true → (is_space c ≡ false) × (is_plain t ≡ true)
unfolding is_plain
plain_parts c t plain = ground (arith, plain)

strip_right-plain : (t : Text) → is_plain t ≡ true → strip_right t ≡ t
unfolding strip_right
strip_right-plain [] plain = refl
strip_right-plain (c ∷ t) plain =
    let (solid, rest) = plain_parts c t plain in
    rw (strip_right-plain t rest) (unless_blank-solid c t solid)

-- The proxy's part of the header, with the space before it.
last_address :
    (sent peer : Text)
    → is_plain peer ≡ true
    → strip (last_part (split_commas (sent ++ (comma ∷ 32 ∷ peer)))) ≡ peer
unfolding strip split_commas last_part strip_left
last_address sent peer plain =
    let (p, q, ps, parts, last) = split-append sent (32 ∷ peer) in
    rw parts (
      rw last (
        rw (split-plain peer plain)
          (rw (strip_left-plain peer plain) (strip_right-plain peer plain))))

header_read :
    (sent rest : Text) (c : ℕ) (host : Option Text)
    → forwarded_for (some (sent ++ (c ∷ rest))) host
      ≡ some (strip (last_part (split_commas (sent ++ (c ∷ rest)))))
header_read [] rest c host = refl
header_read (d ∷ sent) rest c host = refl

-- A client cannot forge the address that is recorded: behind the trusted proxy, which appends a comma,
-- a space and the address that it has seen to what the client has sent, it is the proxy's address,
-- whatever the client has sent; and without a trusted proxy the header is not looked at.
pub address_not_forged :
    (sent peer : Text) (header host : Option Text)
    → is_plain peer ≡ true
    → (get_client_ip true (some (sent ++ (literal ", " ++ peer))) host ≡ some peer)
      × (get_client_ip false header host ≡ host)
unfolding get_client_ip
address_not_forged sent peer header host plain =
    (header_read sent (32 ∷ peer) comma host ∙ rw (last_address sent peer plain) refl, refl)
