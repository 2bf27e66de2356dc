-- ===== src/Env/Quoted.antt =====
-- Quoted values of the environment file.
use tentacles.Base.{
  ℕ, suc, ◌-◌, ◌≡◌, refl, sym, subst, false, some, [], ◌∷◌, ◌++◌, Text, codes, arith, All, length,
  length-append, take-append, starts_with, ◌==◌,
}
use mathlib.Core.List.{append_assoc}
use tentacles.Env.{
  is_space, is_blank, trim_start, trim_end, trim_space, split_equals, last_byte, unquote, binding,
  parse_binding, parse_trimmed, parse_line,
}

blank_append : (s : Text) (c : ℕ) → is_blank (s ++ (c ∷ [])) ≡ false
blank_append [] c = refl
blank_append (d ∷ s) c = refl

-- Nothing is trimmed off an end that is no space.
trim_end_closed : (s : Text) (c : ℕ) → is_space c ≡ false → trim_end (s ++ (c ∷ [])) ≡ s ++ (c ∷ [])
unfolding trim_end
trim_end_closed [] c h = rw h refl
trim_end_closed (d ∷ s) c h = rw (trim_end_closed s c h, blank_append s c) refl

split_equals_at :
    (k v : Text) → All (λ c. (c == 61) ≡ false) k → split_equals (k ++ (61 ∷ v)) ≡ some (k, v)
unfolding split_equals
split_equals_at [] v h = refl
split_equals_at (c ∷ k) v h = rw (h.0, split_equals_at k v h.1) refl

last_byte-append : (d : ℕ) (s : Text) (c : ℕ) → last_byte d (s ++ (c ∷ [])) ≡ c
unfolding last_byte
last_byte-append d [] c = refl
last_byte-append d (e ∷ s) c = last_byte-append e s c

unquote_quoted : (v : Text) → unquote (34 ∷ (v ++ (34 ∷ []))) ≡ v
unfolding unquote
unquote_quoted v =
    let n : length (v ++ (34 ∷ [])) ≡ suc (length v) = omega (arith, length-append v (34 ∷ [])) in
    let rest : suc (length v) - 1 ≡ length v = omega arith in
    rw (last_byte-append 34 v 34, n, rest, take-append v (34 ∷ [])) (ground arith)

-- A key as the file's format has it: it begins with neither a space nor a '#', has no '=', and is
-- trimmed.
pub record IsKey (k : Text) : Type 0 where
  pub first : ℕ
  pub others : Text
  pub begins : k ≡ first ∷ others
  pub no_space : is_space first ≡ false
  pub no_comment : (35 == first) ≡ false
  pub no_equals : All (λ c. (c == 61) ≡ false) k
  pub trimmed : trim_space k ≡ k

abbrev pub quoted_line : Text → Text → Text
quoted_line k v = k ++ (61 ∷ (34 ∷ (v ++ (34 ∷ []))))

trim_space-closed :
    (c : ℕ) (s : Text) (d : ℕ)
    → is_space c ≡ false
    → is_space d ≡ false
    → trim_space (c ∷ (s ++ (d ∷ []))) ≡ c ∷ (s ++ (d ∷ []))
unfolding trim_space
trim_space-closed c s d h g =
    let start : trim_start (c ∷ (s ++ (d ∷ []))) ≡ c ∷ (s ++ (d ∷ [])) =
      unfold trim_start in rw h refl in
    rw start (trim_end_closed (c ∷ s) d g)

quote_is_no_space : is_space 34 ≡ false
unfolding is_space
quote_is_no_space = refl

parse_trimmed-quoted :
    (c : ℕ) (o v : Text)
    → (35 == c) ≡ false
    → All (λ x. (x == 61) ≡ false) (c ∷ o)
    → trim_space (c ∷ o) ≡ c ∷ o
    → parse_trimmed (quoted_line (c ∷ o) v) ≡ binding (c ∷ o) v
unfolding parse_trimmed
parse_trimmed-quoted c o v comment plain trimmed =
    let value = trim_space-closed 34 v 34 quote_is_no_space quote_is_no_space in
    let test : starts_with (codes "#") (quoted_line (c ∷ o) v) ≡ false =
      unfold starts_with in rw comment refl in
    rw (test, split_equals_at (c ∷ o) (34 ∷ (v ++ (34 ∷ []))) plain)
      (unfold parse_binding in rw (trimmed, value, unquote_quoted v) refl)

-- A line that assigns a double-quoted value to a key is read as that key and exactly that value, which
-- may hold spaces, quotes, '=' and '#'. The key begins with neither a space nor a '#', has no '=', and
-- has no space at its ends.
pub parse_line-quoted : (k v : Text) → IsKey k → parse_line (quoted_line k v) ≡ binding k v
unfolding parse_line
parse_line-quoted k v key =
    let c = key.first in
    let o = key.others in
    let line =
      subst (λ x. trim_space (quoted_line x v) ≡ quoted_line x v) (sym key.begins)
        (same c o key.no_space) in
    let result =
      parse_trimmed-quoted c o v key.no_comment
        (subst (All (λ x. (x == 61) ≡ false)) key.begins key.no_equals)
        (subst (λ x. trim_space x ≡ x) key.begins key.trimmed) in
    rw line (subst (λ x. parse_trimmed (quoted_line x v) ≡ binding x v) (sym key.begins) result)
  where
    same :
        (c : ℕ) (o : Text)
        → is_space c ≡ false
        → trim_space (quoted_line (c ∷ o) v) ≡ quoted_line (c ∷ o) v
    same c o h =
        let shape : o ++ (61 ∷ (34 ∷ (v ++ (34 ∷ [])))) ≡ (o ++ (61 ∷ (34 ∷ v))) ++ (34 ∷ []) =
          sym (append_assoc o (61 ∷ (34 ∷ v)) (34 ∷ [])) in
        subst (λ x. trim_space (c ∷ x) ≡ c ∷ x) (sym shape)
          (trim_space-closed c (o ++ (61 ∷ (34 ∷ v))) 34 h quote_is_no_space)
