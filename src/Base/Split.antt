-- ===== src/Base/Split.antt =====
-- Text by lines, fields and numbers. Texts are ASCII here, as in the white space of ASCII.
use Prim.Native.Nat.{ℕ, ◌+◌, ◌-◌, ◌*◌, ◌^◌}
use mathlib.Core.Bool.{Bool, ◌&&◌, ◌||◌}
use mathlib.Core.Option.{Option, none, some}
use mathlib.Core.List.{List, [], ◌∷◌}
use tentacles.Base.Tests.{ltb, leb, ◌==◌, if◌then◌else◌}
use tentacles.Base.Words.{Text}

-- The text up to the first such byte, and those after it.
unfoldable pub split_at_byte : ℕ → Text → Text × List Text
split_at_byte b [] = ([], [])
split_at_byte b (c ∷ s) =
    let rest = split_at_byte b s in if c == b then ([], rest.0 ∷ rest.1) else (c ∷ rest.0, rest.1)

-- strings.Split at a line break
unfoldable pub split_lines : Text → List Text
unfolding split_at_byte
split_lines s = let parts = split_at_byte 10 s in parts.0 ∷ parts.1

unfoldable pub white : ℕ → Bool
white c = (leb 9 c && leb c 13) || (c == 32)

abbrev pub end_field : Text → List Text → List Text
end_field [] fs = fs
end_field (c ∷ s) fs = (c ∷ s) ∷ fs

-- The first field, empty where white space comes first, and the others.
unfoldable pub split_fields : Text → Text × List Text
unfolding white
split_fields [] = ([], [])
split_fields (c ∷ s) =
    let rest = split_fields s in
    if white c then ([], end_field rest.0 rest.1) else (c ∷ rest.0, rest.1)

-- strings.Fields
unfoldable pub fields : Text → List Text
unfolding split_fields
fields s = let parts = split_fields s in end_field parts.0 parts.1

-- The number that digits spell, from a number before them.
unfoldable pub decimal : ℕ → Text → Option ℕ
decimal n [] = some n
decimal n (c ∷ s) =
    let rest = decimal (n * 10 + (c - 48)) s in if leb 48 c && leb c 57 then rest else none

abbrev pub below : ℕ → Option ℕ → Option ℕ
below bound none = none
below bound (some n) = if ltb n bound then some n else none

-- strconv.ParseUint to the base ten of 64 bits
unfoldable pub parse_uint : Text → Option ℕ
unfolding decimal
parse_uint [] = none
parse_uint (c ∷ s) = below (2 ^ 64) (decimal 0 (c ∷ s))

-- strconv.ParseInt to the base ten of 64 bits, of the numbers that are not negative
unfoldable pub parse_natural : Text → Option ℕ
unfolding decimal
parse_natural [] = none
parse_natural (c ∷ s) = signed s
  where
    signed : Text → Option ℕ
    signed [] = if c == 43 then none else below (2 ^ 63) (decimal 0 (c ∷ []))
    signed (d ∷ t) =
        if c == 43
        then below (2 ^ 63) (decimal 0 (d ∷ t))
        else below (2 ^ 63) (decimal 0 (c ∷ d ∷ t))
