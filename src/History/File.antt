-- ===== src/History/File.antt =====
-- internal/history/history.go: the file of the history, as its bytes. JSON is a parameter; what the calls of
-- the file system come to is an argument. Texts are ASCII where a line is trimmed.
use tentacles.Base.{
  ℕ, ◌-◌, ◌*◌, ◌/◌, ◌^◌, Bool, true, false, not, Option, none, some, List, [], ◌∷◌, ◌++◌, Text,
  text_eq, length, drop, take, any, leb, ltb, if◌then◌else◌,
}
use tentacles.Base.Float.{FloatOps}
use tentacles.Base.Split.{split_lines}
use tentacles.Env.{trim_space}
use tentacles.History.{Record, Store, Weights, empty_store, absorb, absorb_all}

-- json.Marshal, and json.Unmarshal, of a record.
pub record Codec : Type 0 where
  pub encode : Record → Option Text
  pub decode : Text → Option Record

-- A line of the file: blank and malformed ones are skipped.
unfoldable pub decode_line : Codec → Text → Option Record
unfolding trim_space text_eq
decode_line c line =
    let trimmed = trim_space line in if text_eq trimmed [] then none else c.decode trimmed

abbrev pub add_record : Option Record → List Record → List Record
add_record none rs = rs
add_record (some r) rs = r ∷ rs

unfoldable pub decode_lines : Codec → List Text → List Record
unfolding decode_line
decode_lines c [] = []
decode_lines c (l ∷ ls) = add_record (decode_line c l) (decode_lines c ls)

-- A line that does not fit into the buffer of the Scanner ends it with an error.
abbrev pub too_long : Text → Bool
too_long line = leb (2 ^ 20) (length line)

-- The loop of replayTail; `none` is an error.
unfoldable pub read_records : Codec → Text → Option (List Record)
unfolding decode_lines split_lines
read_records c file =
    let ls = split_lines file in if any too_long ls then none else some (decode_lines c ls)

abbrev pub newest : ℕ → Option (List Record) → Option (List Record)
newest n none = none
newest n (some rs) = some (drop (length rs - n) rs)

-- replayTail
unfoldable pub replay_tail : Codec → ℕ → Text → Option (List Record)
unfolding read_records
replay_tail c n file = newest n (read_records c file)

abbrev pub replay_window : ℕ
replay_window = 5000

abbrev pub add_line : Option Text → Text → Text
add_line none file = file
add_line (some line) file = line ++ (10 ∷ file)

-- The lines that a rotation writes.
unfoldable pub rewritten : Codec → List Record → Text
rewritten c [] = []
rewritten c (r ∷ rs) = add_line (c.encode r) (rewritten c rs)

abbrev pub rewrite_all : Codec → Option (List Record) → Option Text
rewrite_all c none = none
rewrite_all c (some rs) = some (rewritten c rs)

-- What the calls of one Append come to: those of the rotation succeed, the file is opened, and the write
-- succeeds, or fails after a number of bytes.
pub record AppendCalls : Type 0 where
  pub rotates : Bool
  pub opens : Bool
  pub cut_after : Option ℕ

-- rotateLocked: the file after it; `none` is an error, which leaves the file as it was
unfoldable pub rotate : Codec → ℕ → Bool → Text → Option Text
unfolding replay_tail rewritten
rotate c limit succeeds file =
    if leb limit 0
    then some file
    else if not succeeds
    then none
    else if ltb (length file) (limit * 250)
    then some file
    else rewrite_all c (replay_tail c (limit / 2) file)

module _ (fl : FloatOps) (weights : Weights) (c : Codec) where
  abbrev pub absorb_newest : Option (List Record) → Option Store
  absorb_newest none = none
  absorb_newest (some rs) = some (absorb_all fl weights rs (empty_store fl weights))

  -- Open, of a file that is opened; `none` is an error
  unfoldable pub open_ : Text → Option Store
  unfolding replay_tail absorb_all
  open_ file = absorb_newest (replay_tail c replay_window file)

  -- The write: the file and the store after it, and whether Append returns no error.
  abbrev pub write : Option ℕ → Record → Text → Text → Store → Text × Store × Bool
  write none r line file s = (file ++ line, absorb fl weights r s, true)
  write (some n) r line file s = (file ++ take n line, s, false)

  abbrev pub after_rotation :
      AppendCalls → Record → Text → Text → Store → Option Text → Text × Store × Bool
  after_rotation calls r line file s none = (file, s, false)
  after_rotation calls r line file s (some kept) =
      if calls.opens then write calls.cut_after r (line ++ (10 ∷ [])) kept s else (kept, s, false)

  abbrev pub after_encoding :
      ℕ → AppendCalls → Record → Text → Store → Option Text → Text × Store × Bool
  after_encoding limit calls r file s none = (file, s, false)
  after_encoding limit calls r file s (some line) =
      after_rotation calls r line file s (rotate c limit calls.rotates file)

  -- Store.Append
  unfoldable pub append : ℕ → AppendCalls → Record → Text → Store → Text × Store × Bool
  unfolding rotate absorb
  append limit calls r file s = after_encoding limit calls r file s (c.encode r)
