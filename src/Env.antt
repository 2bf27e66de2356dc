-- ===== src/Env.antt =====
-- internal/env/env.go: the runner's environment file. Texts are ASCII here, so the white space that is
-- trimmed is that of ASCII; the file is the list of its lines.
pub mod Quoted
mod Examples
use tentacles.Base.{
  ℕ, suc, ◌-◌, Bool, true, false, not, ◌&&◌, ◌||◌, Option, none, some, List, [], ◌∷◌, ◌++◌, Text,
  codes, text_eq, starts_with, ltb, leb, ◌==◌, if◌then◌else◌, length, take, any, keep, map, find,
  put, sort_by,
}

unfoldable pub is_space : ℕ → Bool
is_space c = (leb 9 c && leb c 13) || (c == 32)

abbrev pub is_blank : Text → Bool
is_blank [] = true
is_blank (c ∷ s) = false

unfoldable pub trim_start : Text → Text
unfolding is_space
trim_start [] = []
trim_start (c ∷ s) = let rest = trim_start s in if is_space c then rest else c ∷ s

unfoldable pub trim_end : Text → Text
unfolding is_space
trim_end [] = []
trim_end (c ∷ s) = let rest = trim_end s in if is_blank rest && is_space c then [] else c ∷ rest

-- strings.TrimSpace
unfoldable pub trim_space : Text → Text
unfolding trim_start trim_end
trim_space s = trim_end (trim_start s)

-- The text before and after the first '='.
unfoldable pub split_equals : Text → Option (Text × Text)
split_equals [] = none
split_equals (c ∷ s) = let rest = split_equals s in if c == 61 then some ([], s) else after rest
  where
    after : Option (Text × Text) → Option (Text × Text)
    after none = none
    after (some (k, v)) = some (c ∷ k, v)

last_byte : ℕ → Text → ℕ
last_byte d [] = d
last_byte d (c ∷ s) = last_byte c s

-- unquote
unfoldable pub unquote : Text → Text
unfolding last_byte
unquote [] = []
unquote (c ∷ s) =
    if leb 1 (length s)
      && ((c == 34) && (last_byte c s == 34) || (c == 39) && (last_byte c s == 39))
    then take (length s - 1) s
    else c ∷ s

-- What a line of the file is.
pub data Line : Type 0 where
  skipped malformed : Line
  binding : Text → Text → Line

unfoldable pub parse_binding : Option (Text × Text) → Line
unfolding trim_space unquote
parse_binding none = malformed
parse_binding (some (k, v)) = binding (trim_space k) (unquote (trim_space v))

unfoldable pub parse_trimmed : Text → Line
unfolding parse_binding split_equals
parse_trimmed line =
    if is_blank line || starts_with (codes "#") line
    then skipped
    else parse_binding (split_equals line)

unfoldable pub parse_line : Text → Line
unfolding parse_trimmed trim_space
parse_line line = parse_trimmed (trim_space line)

abbrev pub Vars : Type 0
Vars = List (Text × Text)

pub data Parsed : Type 0 where
  variables : Vars → Parsed
  malformed_line : ℕ → Parsed

-- One line that says what it is; the loop ends at the first malformed one.
unfoldable pub parse_lines : ℕ → List Text → Vars → Parsed
unfolding parse_line put
parse_lines n [] vars = variables vars
parse_lines n (l ∷ ls) vars = next (parse_line l) (parse_lines (suc n) ls)
  where
    next : Line → (Vars → Parsed) → Parsed
    next skipped more = more vars
    next malformed more = malformed_line (suc n)
    next (binding k v) more = more (put text_eq k v vars)

-- ParseFile, of a file that can be read
unfoldable pub parse_file : List Text → Parsed
unfolding parse_lines
parse_file ls = parse_lines 0 ls []

unfoldable pub value_of : Vars → Text → Text
unfolding find
value_of vars k = elim (find text_eq k vars) [ none ↦ [] | some v ↦ v ]

-- Validate: the required variables that are missing or blank
unfoldable pub validate : Vars → List Text
unfolding trim_space value_of
validate vars =
    keep (λ k. is_blank (trim_space (value_of vars k))) (codes "PATH" ∷ codes "HOME" ∷ [])

-- The key of an entry of the environment; one without '=' is its own key.
unfoldable pub key_of : Text → Text
unfolding split_equals
key_of entry = elim (split_equals entry) [ none ↦ entry | some kv ↦ kv.0 ]

unfoldable pub assign : Text → Text → Text
assign k v = k ++ (codes "=" ++ v)

unfoldable pub replace : Vars → Text → Text
unfolding key_of assign find
replace vars entry = elim (find text_eq (key_of entry) vars) [
  | none ↦ entry
  | some v ↦ assign (key_of entry) v
]

-- The byte order of strings.
unfoldable pub text_before : Text → Text → Bool
text_before s [] = false
text_before [] (d ∷ t) = true
text_before (c ∷ s) (d ∷ t) =
    let rest = text_before s t in if ltb c d then true else if c == d then rest else false

-- Apply
unfoldable pub apply : List Text → Vars → List Text
unfolding replace text_before sort_by
apply environ vars =
    let unseen = keep (λ kv. not (any (λ e. text_eq (key_of e) kv.0) environ)) vars in
    map (replace vars) environ
    ++ map (λ kv. assign kv.0 kv.1) (sort_by (λ a b. text_before a.0 b.0) unseen)
