-- ===== src/Base/Words.antt =====
-- Text as the list of its bytes, and its equality test.
use Prim.Native.Nat.{ℕ, zero, suc, ◌-◌}
use Prim.Native.Char.{code}
use Prim.Native.String.{String}
use mathlib.Core.Path.{◌≡◌, refl, sym, ap, ◌∙◌}
use mathlib.Core.Logic.{◌↔◌}
use mathlib.Core.Bool.{Bool, true, false}
use mathlib.Core.List.{List, [], ◌∷◌, ◌++◌}
use tentacles.Base.Lists.{length, take, drop, length-append}
use native.Mathlib.Omega.{arith}
use tentacles.Base.Tests.{◌==◌, leb, if◌then◌else◌}

-- A Go string is a sequence of bytes.
abbrev pub Text : Type 0
Text = List ℕ

-- The bytes of an ASCII literal.
abbrev pub codes : String → Text
codes String.[] = []
codes (String.◌∷◌ c s) = code c ∷ codes s

unfoldable pub text_eq : Text → Text → Bool
text_eq [] [] = true
text_eq (a ∷ s) (b ∷ t) = let rest = text_eq s t in if a == b then rest else false
text_eq _ _ = false

pub text_eq_iff : (s t : Text) → (text_eq s t ≡ true) ↔ (s ≡ t)
unfolding text_eq
text_eq_iff [] [] = ground arith
text_eq_iff [] (b ∷ t) = ground arith
text_eq_iff (a ∷ s) [] = ground arith
text_eq_iff (a ∷ s) (b ∷ t) = ground (arith, text_eq_iff s t)

pub text_eq_refl : (s : Text) → text_eq s s ≡ true
text_eq_refl s = (text_eq_iff s s).1 refl

unfoldable pub starts_with : Text → Text → Bool
starts_with [] s = true
starts_with (c ∷ p) [] = false
starts_with (c ∷ p) (d ∷ s) = let rest = starts_with p s in if c == d then rest else false

-- strings.TrimPrefix
unfoldable pub trim_prefix : Text → Text → Text
unfolding starts_with
trim_prefix p s = if starts_with p s then drop (length p) s else s

-- strings.HasSuffix
unfoldable pub ends_with : Text → Text → Bool
unfolding text_eq
ends_with p s =
    if leb (length p) (length s) then text_eq (drop (length s - length p) s) p else false

-- strings.TrimSuffix
unfoldable pub trim_suffix : Text → Text → Text
unfolding ends_with
trim_suffix p s = if ends_with p s then take (length s - length p) s else s

-- A text that begins with a prefix is the prefix and the rest; so for a suffix.
pub starts_with-append : (p s : Text) → starts_with p (p ++ s) ≡ true
unfolding starts_with
starts_with-append [] s = refl
starts_with-append (c ∷ p) s = ground (arith, starts_with-append p s)

pub starts_with_split : (p s : Text) → starts_with p s ≡ true → s ≡ p ++ drop (length p) s
unfolding starts_with
starts_with_split [] s h = refl
starts_with_split (c ∷ p) [] h = cc
starts_with_split (c ∷ p) (d ∷ s) h = ground (arith, starts_with_split p s)

pub drop-append : (p s : Text) → drop (length p) (p ++ s) ≡ s
drop-append [] s = refl
drop-append (c ∷ p) s = drop-append p s

pub take-append : (p s : Text) → take (length p) (p ++ s) ≡ p
take-append [] s = refl
take-append (c ∷ p) s = ap (◌∷◌ c) (take-append p s)

pub take-append-drop : (n : ℕ) (s : Text) → take n s ++ drop n s ≡ s
take-append-drop zero s = refl
take-append-drop (suc n) [] = refl
take-append-drop (suc n) (c ∷ s) = ap (◌∷◌ c) (take-append-drop n s)

pub trim_prefix-append : (p s : Text) → trim_prefix p (p ++ s) ≡ s
unfolding trim_prefix
trim_prefix-append p s = rw (starts_with-append p s) (drop-append p s)

length_rest : (p s : Text) → length (s ++ p) - length p ≡ length s
length_rest p s = omega (arith, length-append s p)

pub ends_with-append : (p s : Text) → ends_with p (s ++ p) ≡ true
unfolding ends_with
ends_with-append p s =
    rw (length_rest p s, drop-append s p) (ground (arith, length-append s p, text_eq_refl p))

pub trim_suffix-append : (p s : Text) → trim_suffix p (s ++ p) ≡ s
unfolding trim_suffix
trim_suffix-append p s = rw (ends_with-append p s, length_rest p s) (take-append s p)

pub ends_with_split : (p s : Text) → ends_with p s ≡ true → s ≡ trim_suffix p s ++ p
unfolding ends_with trim_suffix
ends_with_split p s h = rw h (
    sym (take-append-drop (length s - length p) s)
    ∙ ap (◌++◌ (take (length s - length p) s))
        ((text_eq_iff _ p).0 (unfold ends_with in ground arith)))
