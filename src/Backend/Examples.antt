-- ===== src/Backend/Examples.antt =====
-- The backend at concrete units, outputs of systemctl and starts.
use tentacles.Base.{
  ◌≡◌, ◌≢◌, refl, true, false, some, List, [], ◌∷◌, Text, codes, arith, starts_with, ends_with,
  trim_suffix, trim_prefix,
}
use tentacles.UnitName.{unit_name}
use tentacles.Table.Examples.{numbers}
use tentacles.Backend.{
  namespace_from_unit, valid_namespace, all_bytes, is_name_start, is_digit, valid_unit,
  exit_confirmed, query_error,
}
use tentacles.Backend.Owned.{namespace_from_unit-unit_name}
use tentacles.Backend.Query.{WaitRound, queried, printed, wait_for, is_active, list_active, usage}
use tentacles.Backend.Query.Lines.{Any}
use tentacles.Backend.Query.Confirmed.{Reports, wait_for-Reports}
use tentacles.Backend.Start.{Backend, Spec, address_families}
use tentacles.Backend.Launch.{LaunchWorld, running, launch}
use tentacles.Backend.Launch.Outcome.{IsHonest, IsAllowed, launch_outcome}

valid_org : valid_namespace (codes "org-a") ≡ true
unfolding valid_namespace all_bytes is_name_start is_digit
valid_org = refl

namespace_from_unit-unit_name_example :
    namespace_from_unit (unit_name (codes "org-a") 12) ≡ some (codes "org-a")
namespace_from_unit-unit_name_example =
    namespace_from_unit-unit_name (codes "org-a") 12 valid_org (omega arith)

abbrev slot_unit : Text
slot_unit = codes "tentacle-org-a-0012.service"

abbrev polls : List WaitRound
polls =
    queried (printed (codes "LoadState=loaded\nActiveState=active\n"))
    ∷ queried (printed (codes "ActiveState=inactive\nLoadState=not-found\n"))
    ∷ []

-- One property twice is a malformed output.
twice_refused : is_active (printed (codes "ActiveState=failed\nActiveState=failed\n")) ≡ query_error
unfolding is_active
twice_refused = refl

confirmed : wait_for (codes "org-a") slot_unit polls ≡ exit_confirmed
unfolding wait_for starts_with ends_with trim_suffix trim_prefix
confirmed = refl

wait_for-Reports_example : (valid_unit (codes "org-a") slot_unit ≡ true) × Any Reports polls
wait_for-Reports_example = wait_for-Reports (codes "org-a") slot_unit polls confirmed

one_active :
    list_active (codes "org-a") (
      printed (
        codes
          "tentacle-org-a-0012.service loaded active running slot\ntentacle-org-0001.service loaded failed running x\n"))
    ≡ some (slot_unit ∷ [])
unfolding list_active starts_with ends_with trim_suffix trim_prefix
one_active = refl

used :
    usage numbers
      (codes "org-a")
      slot_unit
      (printed (codes "CPUUsageNSec=70\nMemoryCurrent=8\nMemoryPeak=[not set]\n"))
    ≡ some (record { cpu_seconds = 70; peak_mem_bytes = 0; current_mem_bytes = 8 })
unfolding usage starts_with ends_with trim_suffix trim_prefix
used = refl

families :
    address_families (codes "AF_NETLINK" ∷ codes "AF_INET" ∷ codes "AF_NETLINK" ∷ [])
    ≡ codes "AF_UNIX AF_INET AF_INET6 AF_NETLINK"
unfolding address_families
families = refl

abbrev backend : Backend
backend = record {
  options = record {
    namespace = codes "org-a";
    stop_timeout = 30000000000;
    cache_subdirs = codes ".cache" ∷ [];
    extra_address_families = [];
    job_home = codes "/home/gha";
  };
  started = [];
}

abbrev spec : Spec
spec = record {
  unit_name = slot_unit;
  slot_dir = codes "/var/lib/t/slots/0012";
  jit_path = codes "/run/t/0012";
  user = codes "gha";
  group = codes "gha";
  env_file = codes "/etc/runner.env";
  cpu_quota = codes "200%";
  memory_max = codes "4G";
}

abbrev host : LaunchWorld
host = record {
  is_cancelled = false;
  identity = some (1001, codes "/home/gha");
  env_lines = some (codes "PATH=/bin" ∷ []);
  has_jit = true;
  makes_caches = true;
  makes_home = true;
  prepares_slot = true;
  cancelled_after = false;
  run_succeeds = true;
}

launched : (launch (λ n. codes "30s") host backend spec).end ≡ running
unfolding launch starts_with ends_with trim_suffix trim_prefix
launched = refl

launch_outcome_example :
    let l = launch (λ n. codes "30s") host backend spec in
    IsHonest backend l × (l.calls ≢ [] → IsAllowed host (codes "org-a") spec)
launch_outcome_example = launch_outcome (λ n. codes "30s") host backend spec
