-- ===== src/Config/Names.antt =====
-- internal/config/config.go: the patterns that names have to match, as tests of the bytes.
use tentacles.Base.{
  ℕ, zero, suc, Bool, true, false, ◌&&◌, ◌||◌, [], ◌∷◌, Text, codes, ltb, leb, ◌==◌, if◌then◌else◌,
  length, starts_with, drop,
}

abbrev pub all_of : (ℕ → Bool) → Text → Bool
all_of p [] = true
all_of p (c ∷ s) = let rest = all_of p s in if p c then rest else false

abbrev pub digit : ℕ → Bool
digit c = leb 48 c && leb c 57

abbrev pub lower : ℕ → Bool
lower c = leb 97 c && leb c 122

abbrev pub upper : ℕ → Bool
upper c = leb 65 c && leb c 90

abbrev pub word : ℕ → Bool
word c = lower c || upper c || digit c || (c == 95)

-- labelRe
unfoldable pub label_matches : Text → Bool
label_matches [] = false
label_matches (c ∷ s) = word c && all_of (λ d. word d || (d == 46) || (d == 45)) s

-- poolIDRe
unfoldable pub pool_id_matches : Text → Bool
pool_id_matches [] = false
pool_id_matches (c ∷ s) =
    (lower c || digit c) && (all_of (λ d. lower d || digit d || (d == 45)) s && leb (length s) 31)

-- What is left past the digits; `none` where there is no digit.
abbrev past_digits : Text → Text
past_digits [] = []
past_digits (c ∷ s) = let rest = past_digits s in if digit c then rest else c ∷ s

abbrev starts_digit : Text → Bool
starts_digit [] = false
starts_digit (c ∷ s) = digit c

-- A number, the dots and the numbers after it.
unfoldable pub numbers_match : ℕ → Text → Bool
numbers_match zero s = starts_digit s && (length (past_digits s) == 0)
numbers_match (suc n) s = starts_digit s && after_dot (past_digits s) (numbers_match n)
  where
    after_dot : Text → (Text → Bool) → Bool
    after_dot [] more = false
    after_dot (c ∷ t) more = (c == 46) && more t

-- versionRe
unfoldable pub version_matches : Text → Bool
unfolding numbers_match
version_matches s = numbers_match 2 s

abbrev is_hex : ℕ → Bool
is_hex c = digit c || (leb 97 c && leb c 102) || (leb 65 c && leb c 70)

-- sha256Re
unfoldable pub sha256_matches : Text → Bool
sha256_matches s = (length s == 64) && all_of is_hex s

-- addressFamilyRe
unfoldable pub address_family_matches : Text → Bool
unfolding starts_with
address_family_matches s =
    starts_with (codes "AF_") s && (ltb 3 (length s) && all_of (λ d. upper d || digit d) (drop 3 s))
