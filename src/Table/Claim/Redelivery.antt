-- ===== src/Table/Claim/Redelivery.antt =====
-- Claim under at-least-once delivery. Go's iteration over the map of slots meets the records in an order of
-- its own in each call.
use mathlib.Core.List.{Permᴰ}
use tentacles.Base.{◌≡◌, ◌≢◌, Bool, true, false, List, Text, text_eq, AllPairs}
use tentacles.Table.{SlotRec, Table}
use tentacles.Table.Claim.{can_claim}

-- At most one record has the runner's name.
abbrev pub OneNamed : Text → List SlotRec → Type 0
OneNamed name = AllPairs (λ r q. r.runner_name ≡ name → q.runner_name ≢ name)

abbrev is_named : Text → SlotRec → Bool
is_named name r = text_eq r.runner_name name

-- A record that a claim for the name leaves as it is.
abbrev IsTaken : Text → SlotRec → Type 0
IsTaken name r = is_named name r ≡ true → can_claim r ≡ false
