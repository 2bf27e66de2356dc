-- ===== src/History/Replay.antt =====
-- What the store knows after it is opened again.
use mathlib.Core.List.{append-nil, append_assoc}
use tentacles.Base.{
  ℕ, zero, suc, ◌-◌, ◌*◌, ◌^◌, ◌<◌, ◌≤◌, ◌≡◌, ◌⊎◌, inl, inr, refl, sym, ap, subst, ◌∙◌, Bool, true,
  false, Option, none, some, List, [], ◌∷◌, ◌++◌, Text, text_eq, arith, length, drop, any,
  length-append, ltb, leb, ◌==◌, ◌&&◌, ◌||◌, Bool-cases, All, All-append, if◌then◌else◌,
}
use tentacles.Base.Float.{FloatOps}
use tentacles.Base.Split.{split_lines, split_at_byte}
use tentacles.Env.{trim_space}
use tentacles.History.{Record, Store, Weights, empty_store, absorb, absorb_all}
use tentacles.History.File.{
  Codec, decode_line, decode_lines, add_record, too_long, read_records, replay_tail, replay_window,
  AppendCalls, rotate, open_, append, write, after_rotation, after_encoding,
}

-- The bytes of a line: none is a line break, and the Scanner takes it.
pub record IsLine (line : Text) : Type 0 where
  pub unbroken : All (λ b. (b == 10) ≡ false) line
  pub fits : length line < 2 ^ 20

-- A file of whole lines.
abbrev pub whole : List Text → Text
whole [] = []
whole (l ∷ ls) = l ++ (10 ∷ whole ls)

abbrev pub IsWhole : Text → Type 0
IsWhole file = (ls : List Text) × (file ≡ whole ls) × All IsLine ls

split_at_byte-line :
    (l s : Text)
    → All (λ b. (b == 10) ≡ false) l
    → split_at_byte 10 (l ++ (10 ∷ s)) ≡ (l, split_lines s)
unfolding split_at_byte split_lines
split_at_byte-line [] s h = refl
split_at_byte-line (b ∷ l) s h =
    rw (h.0)
      (ap (λ (parts : Text × List Text). (b ∷ parts.0, parts.1)) (split_at_byte-line l s h.1))

split_lines-whole : (ls : List Text) → All IsLine ls → split_lines (whole ls) ≡ ls ++ ([] ∷ [])
unfolding split_lines
split_lines-whole [] h = unfold split_at_byte in refl
split_lines-whole (l ∷ ls) h =
    ap (λ (parts : Text × List Text). parts.0 ∷ parts.1)
      (split_at_byte-line l (whole ls) h.0.unbroken)
    ∙ ap (◌∷◌ l) (split_lines-whole ls h.1)

whole-append : (ls : List Text) (l : Text) → whole ls ++ (l ++ (10 ∷ [])) ≡ whole (ls ++ (l ∷ []))
whole-append [] l = refl
whole-append (k ∷ ls) l =
    append_assoc k (10 ∷ whole ls) (l ++ (10 ∷ [])) ∙ ap (λ s. k ++ (10 ∷ s)) (whole-append ls l)

fitting : (ls : List Text) → All IsLine ls → any too_long (ls ++ ([] ∷ [])) ≡ false
fitting [] h = refl
fitting (l ∷ ls) h = let fits = h.0.fits in let rest = fitting ls h.1 in ground (arith, fits, rest)

module _ (c : Codec) where
  decode_lines-blank : (ls : List Text) → decode_lines c (ls ++ ([] ∷ [])) ≡ decode_lines c ls
  unfolding decode_lines decode_line
  decode_lines-blank [] = unfold trim_space text_eq in refl
  decode_lines-blank (l ∷ ls) = ap (add_record (decode_line c l)) (decode_lines-blank ls)

  decode_lines-append :
      (ls : List Text) (l : Text) (r : Record)
      → decode_line c l ≡ some r
      → decode_lines c (ls ++ (l ∷ [])) ≡ decode_lines c ls ++ (r ∷ [])
  unfolding decode_lines
  decode_lines-append [] l r e = ap (λ o. add_record o []) e
  decode_lines-append (k ∷ ls) l r e =
      ap (add_record (decode_line c k)) (decode_lines-append ls l r e)
      ∙ add_first (decode_line c k) (decode_lines c ls)
    where
      add_first :
          (o : Option Record) (rs : List Record)
          → add_record o (rs ++ (r ∷ [])) ≡ add_record o rs ++ (r ∷ [])
      add_first none rs = refl
      add_first (some q) rs = refl

  read_records-whole :
      (ls : List Text) → All IsLine ls → read_records c (whole ls) ≡ some (decode_lines c ls)
  unfolding read_records
  read_records-whole ls h =
      let Read : List Text → Type 0 = λ ps.
        (if any too_long ps then none else some (decode_lines c ps)) ≡ some (decode_lines c ls) in
      let fits = fitting ls h in
      let blank = decode_lines-blank ls in
      subst Read (sym (split_lines-whole ls h)) (rw (fits, blank) refl)

drop_none {ℓ} : {A : Type ℓ} (n : ℕ) (xs : List A) → n ≡ 0 → drop n xs ≡ xs
drop_none zero xs h = refl
drop_none (suc n) xs h = absurd (omega arith)

-- A record that is encoded is encoded to one line, which decodes to it.
abbrev pub IsEncoded : Codec → Record → Type 0
IsEncoded c r = (line : Text) → c.encode r ≡ some line → IsLine line × (decode_line c line ≡ some r)

module _ (fl : FloatOps) (weights : Weights) (c : Codec) where
  absorb_all-append :
      (rs qs : List Record) (s : Store)
      → absorb_all fl weights (rs ++ qs) s ≡ absorb_all fl weights qs (absorb_all fl weights rs s)
  unfolding absorb_all
  absorb_all-append [] qs s = refl
  absorb_all-append (r ∷ rs) qs s = absorb_all-append rs qs (absorb fl weights r s)

  -- A file of whole lines with no more records than the window is replayed in full.
  open_-whole :
      (ls : List Text)
      → All IsLine ls
      → length (decode_lines c ls) ≤ replay_window
      → open_ fl weights c (whole ls)
        ≡ some (absorb_all fl weights (decode_lines c ls) (empty_store fl weights))
  unfolding open_ replay_tail
  open_-whole ls h short =
      rw
        (
          read_records-whole c ls h,
          drop_none (length (decode_lines c ls) - replay_window) (decode_lines c ls)
              (omega (arith, short)),
        )
        refl

  open_-append :
      (ls : List Text) (line : Text) (r : Record)
      → All IsLine ls
      → IsLine line
      → decode_line c line ≡ some r
      → length (decode_lines c ls) < replay_window
      → open_ fl weights c (whole (ls ++ (line ∷ [])))
        ≡ some (
            absorb fl weights r
              (absorb_all fl weights (decode_lines c ls) (empty_store fl weights)))
  open_-append ls line r h good e short =
      let both = decode_lines-append c ls line r e in
      let longer : length (decode_lines c (ls ++ (line ∷ []))) ≤ replay_window =
        rw both (omega (arith, short, length-append (decode_lines c ls) (r ∷ []))) in
      open_-whole (ls ++ (line ∷ [])) (All-append IsLine ls (line ∷ []) h (good, tt)) longer
      ∙ ap (λ rs. some (absorb_all fl weights rs (empty_store fl weights))) both
      ∙ ap some last
    where
      last :
          absorb_all fl weights (decode_lines c ls ++ (r ∷ [])) (empty_store fl weights)
          ≡ absorb fl weights r (absorb_all fl weights (decode_lines c ls) (empty_store fl weights))
      last =
          unfold absorb_all in
          absorb_all-append (decode_lines c ls) (r ∷ []) (empty_store fl weights)

  rotate_small :
      (limit : ℕ) (succeeds : Bool) (file : Text)
      → (limit ≡ 0) ⊎ (length file < limit * 250)
      → rotate c limit succeeds file ≡ (if leb limit 0 || succeeds then some file else none)
  unfolding rotate
  rotate_small limit succeeds file h = elim (Bool-cases (leb limit 0)) [
    | inl e ↦ rw e refl
    | inr e ↦ from succeeds e
  ]
    where
      from :
          (b : Bool)
          → leb limit 0 ≡ false
          → rotate c limit b file ≡ (if leb limit 0 || b then some file else none)
      from false e = unfold rotate in rw e refl
      from true e =
          let large : ltb (length file) (limit * 250) ≡ true = ground (arith, e, h) in
          unfold rotate in rw (e, large) refl

  -- An Append succeeds if the record is encoded, the rotation does not fail and the file is opened.
  abbrev pub succeeds : ℕ → AppendCalls → Option Text → Bool
  succeeds limit calls none = false
  succeeds limit calls (some line) = (leb limit 0 || calls.rotates) && calls.opens

  -- After an Append to these lines that succeeds or not: the store is what its file is opened to, the file is one
  -- of whole lines, and its records are those before with, if the Append has succeeded, the new one.
  pub record IsReopened (ls : List Text) (r : Record) (ok : Bool) (done : Text × Store × Bool)
      : Type 0 where
    pub reopened : open_ fl weights c done.0 ≡ some done.1
    pub lines_whole : IsWhole done.0
    pub answer : done.2 ≡ ok
    pub records : read_records c done.0 ≡ some (decode_lines c ls ++ (if ok then r ∷ [] else []))

  -- If a store is what its file of whole lines is opened to, the file has fewer records than the replay
  -- window and is too small to be rotated, and the record, if it is encoded, is encoded to one line that decodes
  -- to it and that the Scanner takes, then an Append whose write is not cut short succeeds exactly if the
  -- record is encoded and the calls before the write succeed. In both cases the store is what the new file is
  -- opened to, and the new file is one of whole lines, with the same records and, after a success, the new
  -- one as the last.
  pub append-IsReopened :
      (limit : ℕ) (calls : AppendCalls) (r : Record) (ls : List Text) (s : Store)
      → All IsLine ls
      → length (decode_lines c ls) < replay_window
      → (limit ≡ 0) ⊎ (length (whole ls) < limit * 250)
      → IsEncoded c r
      → calls.cut_after ≡ none
      → open_ fl weights c (whole ls) ≡ some s
      → IsReopened ls r
          (succeeds limit calls (c.encode r))
          (append fl weights c limit calls r (whole ls) s)
  unfolding append
  append-IsReopened limit calls r ls s h short small encoded uncut opened = from (c.encode r) refl
    where
      same : IsReopened ls r false (whole ls, s, false)
      same = record {
        reopened = opened;
        lines_whole = (ls, refl, h);
        answer = refl;
        records = read_records-whole c ls h ∙ ap some (sym (append-nil (decode_lines c ls)));
      }

      before : absorb_all fl weights (decode_lines c ls) (empty_store fl weights) ≡ s
      before = let both = sym (open_-whole ls h (omega (arith, short))) ∙ opened in cc both

      written :
          (line : Text)
          → IsLine line
          → decode_line c line ≡ some r
          → IsReopened ls r true (whole ls ++ (line ++ (10 ∷ [])), absorb fl weights r s, true)
      written line good e =
          let joined = whole-append ls line in
          let all = All-append IsLine ls (line ∷ []) h (good, tt) in
          record {
            reopened =
                ap (open_ fl weights c) joined
                ∙ open_-append ls line r h good e short
                ∙ ap (λ t. some (absorb fl weights r t)) before;
            lines_whole = (ls ++ (line ∷ []), joined, all);
            answer = refl;
            records =
                ap (read_records c) joined
                ∙ read_records-whole c (ls ++ (line ∷ [])) all
                ∙ ap some (decode_lines-append c ls line r e);
          }

      opens :
          (line : Text)
          → c.encode r ≡ some line
          → (b : Bool)
          → IsReopened ls r b (
              if b
              then write fl weights c calls.cut_after r (line ++ (10 ∷ [])) (whole ls) s
              else (whole ls, s, false))
      opens line e false = same
      opens line e true = rw uncut (written line (encoded line e).0 (encoded line e).1)

      rotated :
          (line : Text)
          → c.encode r ≡ some line
          → (b : Bool)
          → IsReopened ls r (b && calls.opens) (
              after_rotation fl weights c calls r line
                (whole ls)
                s
                (if b then some (whole ls) else none))
      rotated line e false = same
      rotated line e true = opens line e calls.opens

      from :
          (o : Option Text)
          → c.encode r ≡ o
          → IsReopened ls r
              (succeeds limit calls o)
              (after_encoding fl weights c limit calls r (whole ls) s o)
      from none e = same
      from (some line) e =
          rw (rotate_small limit calls.rotates (whole ls) small)
            (rotated line e (leb limit 0 || calls.rotates))
