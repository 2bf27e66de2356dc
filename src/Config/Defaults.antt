-- ===== src/Config/Defaults.antt =====
-- internal/config/load.go: Load and the values that it gives to omitted fields. What the YAML decoder
-- answers is an argument; of its node tree only what the code reads is here.
use tentacles.Base.{
  ℕ, Bool, true, false, Option, none, some, List, [], ◌∷◌, map, Text, codes, text_eq, ◌==◌,
  if◌then◌else◌, ◌^◌,
}
use tentacles.Base.Int.{ℤ, pos, is_zero}
use tentacles.Config.{
  Config, Pool, GitHub, ScaleSet, Runner, Paths, Runtime, Scaling, Observability, seconds,
  default_shared_cache_paths,
}

-- A text that is empty takes a default; so do an integer that is zero and an empty list.
abbrev pub or_text : Text → Text → Text
or_text [] d = d
or_text (c ∷ s) d = c ∷ s

abbrev pub or_int : ℤ → ℤ → ℤ
or_int n d = if is_zero n then d else n

abbrev pub or_list : List Text → List Text → List Text
or_list [] d = d
or_list (w ∷ ws) d = w ∷ ws

-- A flag that the document does not set is on.
abbrev pub or_flag : Bool → Bool → Bool
or_flag true b = b
or_flag false b = true

-- A byte before a text that is cut already.
abbrev pub before_cut : ℕ → Text → Text
before_cut c [] = if c == 47 then [] else c ∷ []
before_cut c (d ∷ t) = c ∷ (d ∷ t)

-- strings.TrimRight of '/'
unfoldable pub trim_slashes : Text → Text
trim_slashes [] = []
trim_slashes (c ∷ s) = before_cut c (trim_slashes s)

unfoldable pub default_pool : Pool → Pool
unfolding trim_slashes
default_pool p =
    let github : GitHub = record p.github {
      url = trim_slashes (or_text p.github.url (codes "https://github.com"));
    } in
    let scale_set : ScaleSet = record p.scale_set {
      runner_group = or_text p.scale_set.runner_group (codes "Default");
    } in
    record p { github = github; scale_set = scale_set }

unfoldable pub default_runner : Bool → Runner → Runner
default_runner disable_update_set r = record r {
  work_directory = or_text r.work_directory (codes "_work");
  user = or_text r.user (codes "gha-runner");
  disable_update = or_flag disable_update_set r.disable_update;
  shared_cache_paths = or_list r.shared_cache_paths default_shared_cache_paths;
}

unfoldable pub default_paths : Paths → Paths
default_paths p = record {
  state_dir = or_text p.state_dir (codes "/var/lib/tentacles");
  cache_dir = or_text p.cache_dir (codes "/var/cache/tentacles");
  log_dir = or_text p.log_dir (codes "/var/log/tentacles");
}

unfoldable pub default_runtime : Runtime → Runtime
default_runtime r = record {
  backend = or_text r.backend (codes "systemd");
  slot_start_timeout = or_int r.slot_start_timeout (seconds 90);
  slot_stop_timeout = or_int r.slot_stop_timeout (seconds 30);
  cleanup_timeout = or_int r.cleanup_timeout (seconds 60);
  acquire_grace = or_int r.acquire_grace (seconds 180);
  idle_grace = or_int r.idle_grace (seconds 30);
  jit_dir = or_text r.jit_dir (codes "/run/tentacles");
}

unfoldable pub default_observability : Bool → Observability → Observability
default_observability ship_diag_set o = record {
  listen = or_text o.listen (codes "127.0.0.1:9090");
  log_level = or_text o.log_level (codes "info");
  ship_diag = or_flag ship_diag_set o.ship_diag;
  diag_max_age = or_int o.diag_max_age (seconds 604800);
  diag_max_bytes = or_int o.diag_max_bytes (pos (2 ^ 30));
}

unfoldable pub default_scaling : Bool → Bool → Scaling → Scaling
default_scaling admission_set margin_set s = record {
  admission_control = or_flag admission_set s.admission_control;
  cpu_target_percent = or_int s.cpu_target_percent (pos 90);
  memory_margin_percent = if margin_set then s.memory_margin_percent else pos 20;
  sample_interval = or_int s.sample_interval (seconds 30);
}

-- Which of the keys with a default other than zero the document sets.
pub record Present : Type 0 where
  pub disable_update_set : Bool
  pub ship_diag_set : Bool
  pub admission_set : Bool
  pub margin_set : Bool

-- applyDefaults
unfoldable pub apply_defaults : Present → Config → Config
unfolding default_pool default_runner default_paths default_runtime default_observability
    default_scaling
apply_defaults e c = record {
  pools = map default_pool c.pools;
  capacity = c.capacity;
  runner = default_runner e.disable_update_set c.runner;
  paths = default_paths c.paths;
  runtime = default_runtime c.runtime;
  scaling = default_scaling e.admission_set e.margin_set c.scaling;
  observability = default_observability e.ship_diag_set c.observability;
}

-- What the code reads of a yaml.Node: whether it is a mapping, its value and its content.
mutual
  pub data Node : Type 0 where
    node : Bool → Text → Nodes → Node

  pub data Nodes : Type 0 where
    nil : Nodes
    cons : Node → Nodes → Nodes

abbrev value : Node → Text
value (node is_mapping v content) = v

-- The node under the first key of that text, if the content is a list of keys and values.
unfoldable pub under_key : Text → Nodes → Option Node
unfolding text_eq
under_key key nil = none
under_key key (cons k nil) = none
under_key key (cons k (cons v rest)) =
    let more = under_key key rest in if text_eq (value k) key then some v else more

unfoldable pub child : Text → Node → Option Node
unfolding under_key
child key (node true v content) = under_key key content
child key (node false v content) = none

-- mappingHasPath
unfoldable pub mapping_has_path : Node → List Text → Bool
unfolding child
mapping_has_path n [] = false
mapping_has_path n (key ∷ []) = elim (child key n) [ none ↦ false | some m ↦ true ]
mapping_has_path n (key ∷ next ∷ keys) = elim (child key n) [
  | none ↦ false
  | some m ↦ mapping_has_path m (next ∷ keys)
]

unfoldable pub present_in : Nodes → Present
unfolding mapping_has_path
present_in (cons root nil) = record {
  disable_update_set = mapping_has_path root (codes "runner" ∷ codes "disable_update" ∷ []);
  ship_diag_set = mapping_has_path root (codes "observability" ∷ codes "ship_diag" ∷ []);
  admission_set = mapping_has_path root (codes "scaling" ∷ codes "admission_control" ∷ []);
  margin_set = mapping_has_path root (codes "scaling" ∷ codes "memory_margin_percent" ∷ []);
}
present_in _ = record {
  disable_update_set = false;
  ship_diag_set = false;
  admission_set = false;
  margin_set = false;
}

-- What decoding a document comes to.
pub data Decoded {ℓ} (A : Type ℓ) : Type ℓ where
  decoded : A → Decoded A
  end_of_file decode_error : Decoded A

-- A file: whether it can be read, its first two documents, and its node tree, `none` if it has none.
pub record Document : Type 0 where
  pub is_readable : Bool
  pub first : Decoded Config
  pub second : Decoded (Unit {0})
  pub tree : Option Nodes

pub data Loaded : Type 0 where
  loaded : Config → Loaded
  not_readable no_document many_documents malformed_document : Loaded

abbrev pub present : Option Nodes → Present
present none = present_in nil
present (some ns) = present_in ns

unfoldable pub load_first : Option Nodes → Decoded Config → Decoded (Unit {0}) → Loaded
unfolding apply_defaults present_in
load_first tree end_of_file next = no_document
load_first tree decode_error next = malformed_document
load_first tree (decoded c) (decoded _) = many_documents
load_first tree (decoded c) decode_error = malformed_document
load_first tree (decoded c) end_of_file = loaded (apply_defaults (present tree) c)

-- Load
unfoldable pub load : Document → Loaded
unfolding load_first
load d = if d.is_readable then load_first d.tree d.first d.second else not_readable
