-- ===== src/History/Examples.antt =====
-- The history at concrete inputs.
use tentacles.Base.{
  ◌≡◌, refl, subst, inr, true, some, none, List, [], ◌∷◌, Text, codes, text_eq, arith, All,
  if◌then◌else◌,
}
use tentacles.Table.Examples.{numbers}
use tentacles.History.{Record, Store, Weights, empty_store, absorb}
use tentacles.History.File.{
  Codec, AppendCalls, append, open_, decode_line, decode_lines, read_records,
}
use tentacles.History.Replay.{IsLine, IsEncoded, IsReopened, whole, append-IsReopened}

abbrev weights : Weights
weights = record { alpha = 1; rest = 3; half = 2 }

abbrev build : Record
build = record {
  pool = codes "org";
  slot = codes "0001";
  workflow_ref = codes "build";
  run_id = 7;
  cpu_seconds = 40;
  peak_mem_bytes = 900;
  wall_seconds = 60;
  queue_wait_seconds = 1;
  sampled = true;
  at = 500;
}

-- A codec that knows one record.
abbrev codec : Codec
codec = record {
  encode = λ r. some (codes "{}");
  decode = λ line. if text_eq line (codes "{}") then some build else none;
}

abbrev calls : AppendCalls
calls = record { rotates = true; opens = true; cut_after = none }

abbrev lines : List Text
lines = codes "{}" ∷ codes "torn" ∷ []

object-IsLine : IsLine (codes "{}")
object-IsLine = record { unbroken = (refl, (refl, tt)); fits = omega arith }

lines-IsLine : All IsLine lines
lines-IsLine = (
  object-IsLine,
  (record { unbroken = (refl, (refl, (refl, (refl, tt)))); fits = omega arith }, tt),
)

abbrev opened : Store
opened = absorb numbers weights build (empty_store numbers weights)

build-IsEncoded : IsEncoded codec build
unfolding decode_line
build-IsEncoded line e =
    let same : codes "{}" ≡ line = cc e in
    subst (λ l. IsLine l × (decode_line codec l ≡ some build)) same (object-IsLine, refl)

append-IsReopened_example :
    IsReopened numbers weights codec lines build true
      (append numbers weights codec 5000 calls build (whole lines) opened)
append-IsReopened_example =
    append-IsReopened numbers weights codec 5000 calls build lines opened lines-IsLine
      (unfold decode_lines in omega arith) (inr (omega arith)) build-IsEncoded refl
      (unfold open_ in refl)

-- A write that is cut short is lost, and so is the record after it: its line begins with the fragment.
lost_after_torn :
    let torn =
      append numbers weights codec 5000 (record calls { cut_after = some 1 }) build [] opened in
    read_records codec (append numbers weights codec 5000 calls build torn.0 torn.1).0 ≡ some []
unfolding append read_records
lost_after_torn = refl
