-- ===== src/Backend/Query/Lines.antt =====
-- What the lines of a state query set, when they are read without an error.
use tentacles.Base.{
  ◌≡◌, ◌≢◌, refl, sym, ap, subst, ◌∙◌, ◌⊎◌, inl, inr, true, Option, none, some, List, [], ◌∷◌, Text,
  codes, text_eq, text_eq_iff, text_eq_refl, arith, find, put, find-put_same, find-put_other,
  if_cases, Bool-cases, All, AllPairs,
}
use tentacles.Env.{split_equals}
use tentacles.Backend.Query.{
  Values, property_keys, is_one_of, read_value, read_fresh, or_nil, and_read, read_values, value_at,
}

-- A list has an entry with a property.
abbrev pub Any {ℓ} : {A : Type ℓ} → (A → Type 0) → List A → Type 0
Any P [] = ⊥
Any P (x ∷ xs) = P x ⊎ Any P xs

abbrev IsPair : Option (Text × Text) → Text → Text → Type 0
IsPair o k v = o ≡ some (k, v)

-- A line sets a property to a value.
abbrev pub Sets : Text → Text → Text → Type 0
Sets k v line = split_equals line ≡ some (k, v)

-- A value that the map has is old, or a line sets it.
read_value-find :
    (k v : Text) (values more : Values) (o : Option (Text × Text))
    → read_value values o ≡ some more
    → find text_eq k more ≡ some v
    → (find text_eq k values ≡ some v) ⊎ IsPair o k v
unfolding read_value
read_value-find k v values more none e f = cc e
read_value-find k v values more (some (j, u)) e f = from (find text_eq j values) e
  where
    placed :
        more ≡ put text_eq j u values → (find text_eq k values ≡ some v) ⊎ IsPair (some (j, u)) k v
    placed same = elim (Bool-cases (text_eq k j)) [
      | inl t ↦
          let eq : k ≡ j = (text_eq_iff k j).0 t in
          let at : find text_eq j (put text_eq j u values) ≡ some u =
            find-put_same text_eq j u values (text_eq_refl j) in
          inr (cc (f, same, eq, at))
      | inr t ↦ inl (
          sym (
            find-put_other text_eq k j u values t
              (λ m jm. ground (arith, text_eq_iff j m, text_eq_iff k m, text_eq_iff k j, jm, t)))
          ∙ ap (find text_eq k) (sym same)
          ∙ f)
    ]

    from :
        (o : Option Text)
        → read_fresh j u values o ≡ some more
        → (find text_eq k values ≡ some v) ⊎ IsPair (some (j, u)) k v
    from (some old) made = cc made
    from none made =
        if_cases
          (λ (x : Option Values).
            x ≡ some more → (find text_eq k values ≡ some v) ⊎ IsPair (some (j, u)) k v)
          (is_one_of property_keys j) _ _
          (λ _ put_there.
            placed (sym (let same : put text_eq j u values ≡ more = cc put_there in same)))
          (λ _ no. absurd (cc no)) made

and_read-some :
    (o : Option Values) (rest : Values → Option Values) (more : Values)
    → and_read o rest ≡ some more
    → (values : Values) × (o ≡ some values) × (rest values ≡ some more)
and_read-some none rest more e = cc e
and_read-some (some values) rest more e = (values, refl, e)

pub read_values-find :
    (k v : Text) (values more : Values) (ls : List Text)
    → read_values values ls ≡ some more
    → find text_eq k more ≡ some v
    → (find text_eq k values ≡ some v) ⊎ Any (Sets k v) ls
unfolding read_values
read_values-find k v values more [] e f =
    let same : values ≡ more = cc e in inl (ap (find text_eq k) same ∙ f)
read_values-find k v values more (l ∷ ls) e f =
    let (next, first, rest) = and_read-some (read_value values (split_equals l)) _ more e in
    elim (read_values-find k v next more ls rest f) [
      | inr later ↦ inr (inr later)
      | inl held ↦ elim (read_value-find k v values next (split_equals l) first held) [
        | inl old ↦ inl old
        | inr set ↦ inr (inl set)
      ]
    ]

-- A line sets one of the two properties that isActive asks for.
abbrev pub IsProperty : Text → Type 0
IsProperty line =
    (k : Text) × (v : Text) × Sets k v line × ((k ≡ codes "LoadState") ⊎ (k ≡ codes "ActiveState"))

-- No two lines set one property.
abbrev pub SetsOther : Text → Text → Type 0
SetsOther line other = (k v w : Text) → Sets k v line → Sets k w other → ⊥

property_key :
    (k : Text)
    → is_one_of property_keys k ≡ true
    → (k ≡ codes "LoadState") ⊎ (k ≡ codes "ActiveState")
property_key k h = elim (Bool-cases (text_eq k (codes "LoadState"))) [
  | inl e ↦ inl ((text_eq_iff k _).0 e)
  | inr a ↦ elim (Bool-cases (text_eq k (codes "ActiveState"))) [
    | inl e ↦ inr ((text_eq_iff k _).0 e)
    | inr b ↦ absurd (cc (rw (a, b) at h))
  ]
]

-- What one line that is read shows: it sets a property that the map did not have, and the map has it now.
record IsRead (values more : Values) (line : Text) : Type 0 where
  pub key : Text
  pub value : Text
  pub sets : Sets key value line
  pub property : (key ≡ codes "LoadState") ⊎ (key ≡ codes "ActiveState")
  pub fresh : find text_eq key values ≡ none
  pub same : more ≡ put text_eq key value values

read_value-IsRead :
    (values more : Values) (line : Text)
    → read_value values (split_equals line) ≡ some more
    → IsRead values more line
unfolding read_value
read_value-IsRead values more line = from (split_equals line) refl
  where
    fresh :
        (k v : Text) (o : Option Text)
        → split_equals line ≡ some (k, v)
        → find text_eq k values ≡ o
        → read_fresh k v values o ≡ some more
        → IsRead values more line
    fresh k v (some old) at f made = absurd (cc made)
    fresh k v none at f made =
        if_cases (λ (x : Option Values). x ≡ some more → IsRead values more line)
          (is_one_of property_keys k) _ _
          (λ one put_there. record {
            key = k;
            value = v;
            sets = at;
            property = property_key k one;
            fresh = f;
            same = (let same : put text_eq k v values ≡ more = cc put_there in sym same);
          })
          (λ _ no. absurd (cc no)) made

    from :
        (o : Option (Text × Text))
        → split_equals line ≡ o
        → read_value values o ≡ some more
        → IsRead values more line
    from none at made = absurd (unfold read_value in cc made)
    from (some (k, v)) at made =
        fresh k v (find text_eq k values) at refl (unfold read_value in made)

-- A property that the map has stays in it.
put_held :
    (j v k w : Text) (values : Values)
    → find text_eq j (put text_eq k w values) ≡ none
    → (j ≢ k) × (find text_eq j values ≡ none)
put_held j v k w values h = elim (Bool-cases (text_eq j k)) [
  | inl t ↦
      let eq : j ≡ k = (text_eq_iff j k).0 t in
      let at : find text_eq k (put text_eq k w values) ≡ some w =
        find-put_same text_eq k w values (text_eq_refl k) in
      absurd (cc (h, eq, at))
  | inr t ↦ (
    λ e. cc ((text_eq_iff j k).1 e, t),
    sym (
          find-put_other text_eq j k w values t
            (λ m km. ground (arith, text_eq_iff k m, text_eq_iff j m, text_eq_iff j k, km, t)))
        ∙ h,
  )
]

-- The lines that are read set properties that the map did not have.
pub SetsNew : Values → Text → Type 0
SetsNew values line = (k v : Text) → Sets k v line → find text_eq k values ≡ none

sets_fresh : (values more : Values) (line : Text) → IsRead values more line → SetsNew values line
unfolding SetsNew
sets_fresh values more line r k v at =
    let both : some (r.key, r.value) ≡ some (k, v) = sym r.sets ∙ at in
    let eq : r.key ≡ k = cc both in subst (λ j. find text_eq j values ≡ none) eq r.fresh

new_before :
    (values more : Values) (l m : Text)
    → IsRead values more l
    → SetsNew more m
    → SetsNew values m × SetsOther l m
unfolding SetsNew
new_before values more l m r later = (
  λ k v at. (held k v at).1,
  λ k v w first second.
      let both : some (r.key, r.value) ≡ some (k, v) = sym r.sets ∙ first in
      let eq : k ≡ r.key = cc both in (held k w second).0 eq,
)
  where
    held : (k v : Text) → Sets k v m → (k ≢ r.key) × (find text_eq k values ≡ none)
    held k v at =
        put_held k v r.key r.value values
          (subst (λ x. find text_eq k x ≡ none) r.same (later k v at))

all_before :
    (values more : Values) (l : Text) (ls : List Text)
    → IsRead values more l
    → All (SetsNew more) ls
    → All (SetsNew values) ls × All (SetsOther l) ls
all_before values more l [] r all = (tt, tt)
all_before values more l (m ∷ ms) r all =
    let one = new_before values more l m r all.0 in
    let rest = all_before values more l ms r all.1 in ((one.0, rest.0), (one.1, rest.1))

-- Lines that are read without an error: each sets one of the two properties, and no two set one.
abbrev pub IsWellFormed : List Text → Type 0
IsWellFormed ls = All IsProperty ls × AllPairs SetsOther ls

pub read_values-IsWellFormed :
    (values more : Values) (ls : List Text)
    → read_values values ls ≡ some more
    → All (SetsNew values) ls × IsWellFormed ls
unfolding read_values
read_values-IsWellFormed values more [] e = (tt, (tt, tt))
read_values-IsWellFormed values more (l ∷ ls) e =
    let (next, first, rest) = and_read-some (read_value values (split_equals l)) _ more e in
    let r = read_value-IsRead values next l first in
    let later = read_values-IsWellFormed next more ls rest in
    let before = all_before values next l ls r later.0 in
    (
      (sets_fresh values next l r, before.0),
      (((r.key, r.value, r.sets, r.property), later.1.0), (before.1, later.1.1)),
    )

pub value_at-find :
    (k v : Text) (values : Values) → value_at k values ≡ v → v ≢ [] → find text_eq k values ≡ some v
unfolding value_at
value_at-find k v values = from (find text_eq k values)
  where
    from : (o : Option Text) → or_nil o ≡ v → v ≢ [] → o ≡ some v
    from none e full = absurd (full (sym e))
    from (some u) e full = ap some e

abbrev pub active_key : Text
active_key = codes "ActiveState"
