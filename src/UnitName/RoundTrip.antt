-- ===== src/UnitName/RoundTrip.antt =====
-- internal/slot/manager.go: unit names and slot IDs, there and back.
use mathlib.Core.List.{append_assoc}
use tentacles.Base.{
  ℕ, ◌+◌, ◌-◌, ◌*◌, ◌/◌, ◌%◌, ◌≤◌, ◌<◌, ◌≡◌, refl, sym, ap, ◌∙◌, Bool, true, ◌&&◌, Option, none,
  some, [], ◌∷◌, ◌++◌, arith, Text, codes, starts_with, ends_with, trim_prefix, trim_suffix,
  starts_with-append, starts_with_split, trim_prefix-append, ends_with-append, trim_suffix-append,
  ends_with_split, Bool-cases, ◌==◌, inl, inr, if◌then◌else◌, length, drop, subst, take,
  take-append, length-append,
}
use tentacles.UnitName.{
  max_slot_id, format_id, digits_value, in_range, parse_id, unit_name, id_from_unit,
}

-- A valid ID is read back from its four digits.
pub parse_id-format_id : (n : ℕ) → 1 ≤ n → n ≤ max_slot_id → parse_id (format_id n) ≡ some n
unfolding parse_id format_id
parse_id-format_id n low high = ground arith

-- One round of validID's loop.
digits_value-cons :
    (m c : ℕ) (s : Text) (n : ℕ)
    → digits_value m (c ∷ s) ≡ some n
    → (48 ≤ c) × (c ≤ 57) × (digits_value (m * 10 + (c - 48)) s ≡ some n)
unfolding digits_value
digits_value-cons m c s n h = ground arith

digits_value-nil : (m n : ℕ) → digits_value m [] ≡ some n → m ≡ n
unfolding digits_value
digits_value-nil m n h = ground arith

four_digits :
    (a b c d n : ℕ)
    → digits_value 0 (a ∷ b ∷ c ∷ d ∷ []) ≡ some n
    → format_id n ≡ a ∷ b ∷ c ∷ d ∷ []
unfolding format_id
four_digits a b c d n h =
    let ha = digits_value-cons 0 a _ n h in
    let hb = digits_value-cons _ b _ n ha.2 in
    let hc = digits_value-cons _ c _ n hb.2 in
    let hd = digits_value-cons _ d _ n hc.2 in
    let e = digits_value-nil _ n hd.2 in
    let ea : 48 + n / 1000 ≡ a = omega arith in
    let eb : 48 + n / 100 % 10 ≡ b = omega arith in
    let ec : 48 + n / 10 % 10 ≡ c = omega arith in
    let ed : 48 + n % 10 ≡ d = omega arith in rw (ea, eb, ec, ed)

in_range-some : (o : Option ℕ) (n : ℕ) → in_range o ≡ some n → o ≡ some n
unfolding in_range
in_range-some none n h = cc
in_range-some (some m) n h = ground arith

in_range_bounds : (o : Option ℕ) (n : ℕ) → in_range o ≡ some n → (1 ≤ n) × (n ≤ max_slot_id)
unfolding in_range
in_range_bounds none n h = absurd (cc h)
in_range_bounds (some m) n h = ground arith

-- An ID that is read is a valid one.
pub parse_id_bounds : (s : Text) (n : ℕ) → parse_id s ≡ some n → (1 ≤ n) × (n ≤ max_slot_id)
unfolding parse_id
parse_id_bounds s n h = elim (Bool-cases (length s == 4)) [
  | inl e ↦ in_range_bounds (digits_value 0 s) n (rw e at h)
  | inr e ↦ absurd (cc (rw e at h))
]

-- The number that four digits spell is written with those digits.
format_id-parse_id : (s : Text) (n : ℕ) → parse_id s ≡ some n → format_id n ≡ s
unfolding parse_id
format_id-parse_id [] n h = cc
format_id-parse_id (a ∷ []) n h = cc
format_id-parse_id (a ∷ b ∷ []) n h = cc
format_id-parse_id (a ∷ b ∷ c ∷ []) n h = cc
format_id-parse_id (a ∷ b ∷ c ∷ d ∷ []) n h = four_digits a b c d n (in_range-some _ n h)
format_id-parse_id (a ∷ b ∷ c ∷ d ∷ e ∷ s) n h = ground arith

-- id_from_unit over any prefix and suffix.
between : Text → Text → Text → Option ℕ
between p q u =
    if starts_with p u && ends_with q u then parse_id (trim_suffix q (trim_prefix p u)) else none

between-append : (p q m : Text) → between p q (p ++ (m ++ q)) ≡ parse_id m
unfolding between
between-append p q m = rw (
  starts_with-append p (m ++ q),
  trim_prefix-append p (m ++ q),
  trim_suffix-append q m,
  sym (append_assoc p m q),
  ends_with-append q (p ++ m),
)

-- The last byte.
last_or : ℕ → Text → ℕ
last_or d [] = d
last_or d (c ∷ s) = last_or c s

last_or-append : (d c : ℕ) (s t : Text) → last_or d (s ++ (c ∷ t)) ≡ last_or c t
unfolding last_or
last_or-append d c [] t = refl
last_or-append d c (x ∷ s) t = last_or-append x c s t

-- Four digits cannot be the end of a text that ends in a letter.
last_of_id : (m : Text) (n : ℕ) (p : Text) → parse_id m ≡ some n → last_or 0 (p ++ m) ≤ 57
last_of_id m n p h = rw (sym (format_id-parse_id m n h)) (
    unfold format_id in (rw (last_or-append 0 (48 + n / 1000) p _) (unfold last_or in omega arith)))

last_or_suffix : (q s : Text) → 57 < last_or 0 q → last_or 0 (s ++ q) ≡ last_or 0 q
last_or_suffix [] s h = absurd (unfold last_or in omega arith)
last_or_suffix (c ∷ q) s h = unfold last_or in last_or-append 0 c s q

-- What stands between the prefix and the suffix.
middle :
    (q m : Text) (n : ℕ) (p u : Text)
    → 57 < last_or 0 q
    → u ≡ p ++ m
    → ends_with q u ≡ true
    → parse_id (trim_suffix q m) ≡ some n
    → ends_with q m ≡ true
middle q m n p u letter e ends h = elim (Bool-cases (ends_with q m)) [
  | inl yes_ ↦ yes_
  | inr short ↦
      let same : trim_suffix q m ≡ m = unfold trim_suffix in rw short in
      let low : last_or 0 u ≤ 57 =
        rw e (last_of_id m n p (subst (λ x. parse_id x ≡ some n) same h)) in
      let high : last_or 0 u ≡ last_or 0 q =
        ap (last_or 0) (ends_with_split q u ends) ∙ last_or_suffix q (trim_suffix q u) letter in
      absurd (omega arith)
]

opened :
    (p q u : Text) (n : ℕ)
    → between p q u ≡ some n
    → (if starts_with p u && ends_with q u
        then parse_id (trim_suffix q (trim_prefix p u))
        else none)
      ≡ some n
unfolding between
opened p q u n h = h

between-some :
    (p q u : Text) (n : ℕ)
    → 57 < last_or 0 q
    → between p q u ≡ some n
    → (m : Text) × (u ≡ p ++ (m ++ q)) × (parse_id m ≡ some n)
between-some p q u n letter h =
    let (starts, ends, parsed) =
      tests (starts_with p u) (ends_with q u) (parse_id (trim_suffix q (trim_prefix p u)))
        (opened p q u n h) in
    let m = drop (length p) u in
    let e : u ≡ p ++ m = starts_with_split p u starts in
    let same : trim_prefix p u ≡ m = unfold trim_prefix in rw starts in
    let parsed' : parse_id (trim_suffix q m) ≡ some n =
      subst (λ x. parse_id (trim_suffix q x) ≡ some n) same parsed in
    (
      trim_suffix q m,
      e ∙ ap (◌++◌ p) (ends_with_split q m (middle q m n p u letter e ends parsed')),
      parsed',
    )
  where
    tests :
        (a b : Bool) (o : Option ℕ)
        → (if a && b then o else none) ≡ some n
        → (a ≡ true) × (b ≡ true) × (o ≡ some n)
    tests a b o h = ground arith

abbrev unit_prefix : Text → Text
unit_prefix namespace = codes "tentacle-" ++ (namespace ++ codes "-")

id_from_unit-between :
    (namespace u : Text)
    → id_from_unit namespace u ≡ between (unit_prefix namespace) (codes ".service") u
unfolding id_from_unit between
id_from_unit-between namespace u = refl

unit_name_parts :
    (namespace : Text) (n : ℕ)
    → unit_name namespace n ≡ unit_prefix namespace ++ (format_id n ++ codes ".service")
unfolding unit_name
unit_name_parts namespace n = simp append_assoc

-- The unit name of an ID from 1 to 9999 in a pool is read back as that ID.
pub id_from_unit-unit_name :
    (namespace : Text) (n : ℕ)
    → 1 ≤ n
    → n ≤ max_slot_id
    → id_from_unit namespace (unit_name namespace n) ≡ some n
id_from_unit-unit_name namespace n low high =
    id_from_unit-between namespace (unit_name namespace n)
    ∙ ap (between (unit_prefix namespace) (codes ".service")) (unit_name_parts namespace n)
    ∙ between-append (unit_prefix namespace) (codes ".service") (format_id n)
    ∙ parse_id-format_id n low high

-- A unit that is read as an ID is the unit name of that ID in the pool.
pub unit_name-id_from_unit :
    (namespace unit : Text) (n : ℕ)
    → id_from_unit namespace unit ≡ some n
    → unit ≡ unit_name namespace n
unit_name-id_from_unit namespace unit n h =
    let (m, e, parsed) =
      between-some (unit_prefix namespace) (codes ".service") unit n (unfold last_or in omega arith)
        (sym (id_from_unit-between namespace unit) ∙ h) in
    e
    ∙ ap (λ (x : Text). unit_prefix namespace ++ (x ++ codes ".service"))
        (sym (format_id-parse_id m n parsed))
    ∙ sym (unit_name_parts namespace n)

-- The namespace is what is left of a unit name when the ID and the fixed parts are taken off.
namespace_of : (a b x y : Text) → length x ≡ length y → a ++ x ≡ b ++ y → a ≡ b
namespace_of a b x y same e =
    let n : length a ≡ length b =
      omega (arith, ap length e, length-append a x, length-append b y) in
    sym (take-append a x) ∙ ap (take (length a)) e ∙ rw n (take-append b y)

tail_of : (n : ℕ) → Text
tail_of n = codes "-" ++ (format_id n ++ codes ".service")

length-tail_of : (n : ℕ) → length (tail_of n) ≡ 13
unfolding tail_of format_id
length-tail_of n = refl

-- If valid IDs of two pools have the same unit name, the pools and the IDs are the same.
pub unit_name_injective :
    (namespace other : Text) (n k : ℕ)
    → 1 ≤ n
    → n ≤ max_slot_id
    → unit_name namespace n ≡ unit_name other k
    → 1 ≤ k
    → k ≤ max_slot_id
    → (namespace ≡ other) × (n ≡ k)
unit_name_injective namespace other n k low high e low' high' =
    let same : namespace ≡ other =
      namespace_of namespace other (tail_of n) (tail_of k)
        (length-tail_of n ∙ sym (length-tail_of k)) (unfold unit_name tail_of in (ap (drop 9) e)) in
    let found : some n ≡ some k =
      sym (id_from_unit-unit_name namespace n low high)
      ∙ ap (id_from_unit namespace) e
      ∙ rw same (id_from_unit-unit_name other k low' high') in
    (same, cc found)
