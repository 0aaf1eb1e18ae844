-- ===== src/Programs.antt =====
-- Programs and what is asked of a load (program.go, load_spec.go, image.go).
pub mod Load
use go_bpfman.Prelude.{
  ℕ, Text, codes, Bool, true, false, ◌||◌, not, List, [], ◌∷◌, Option, none, some, text_eq,
  if◌then◌else◌,
}
use go_bpfman.Errors.{plain}
use go_bpfman.Exec.{Outcome, ok, err}

-- ProgramType, a string
abbrev pub ProgramType : Type 0
ProgramType = Text

-- allProgramTypes
abbrev pub all_program_types : List ProgramType
all_program_types =
    codes "xdp"
    ∷ codes "tc"
    ∷ codes "tcx"
    ∷ codes "tracepoint"
    ∷ codes "kprobe"
    ∷ codes "kretprobe"
    ∷ codes "uprobe"
    ∷ codes "uretprobe"
    ∷ codes "fentry"
    ∷ codes "fexit"
    ∷ []

find_type : Text → List ProgramType → Outcome ProgramType
find_type s [] = err (plain "unknown program type")
find_type s (t ∷ rest) = let found = find_type s rest in if text_eq s t then ok t else found

-- ParseProgramType
unfoldable pub parse_program_type : Text → Outcome ProgramType
unfolding find_type
parse_program_type s = find_type s all_program_types

is_parsed : Outcome ProgramType → Bool
is_parsed (ok _) = true
is_parsed _ = false

-- ProgramType.Valid
unfoldable pub valid_program_type : ProgramType → Bool
unfolding is_parsed parse_program_type
valid_program_type t = is_parsed (parse_program_type t)

-- RequiresAttachFunc
unfoldable pub requires_attach_func : ProgramType → Bool
requires_attach_func t = text_eq t (codes "fentry") || text_eq t (codes "fexit")

-- ImagePullPolicy, a string
abbrev pub ImagePullPolicy : Type 0
ImagePullPolicy = Text

-- A map[string][]byte, nil or not.
abbrev pub GlobalData : Type 0
GlobalData = Option (List (Text × List ℕ))

-- A map[string]string, nil or not, each key once.
abbrev pub Metadata : Type 0
Metadata = Option (List (Text × Text))

pub record LoadSpec : Type 0 where
  pub object_path : Text
  pub source_path : Text
  pub program_name : Text
  pub program_type : ProgramType
  pub global_data : GlobalData
  pub image_url : Text
  pub image_digest : Text
  pub image_pull_policy : ImagePullPolicy
  pub image_username : Text
  pub image_password : Text
  pub attach_func : Text
  pub map_owner_id : ℕ

-- LoadSpec{}
abbrev pub no_spec : LoadSpec
no_spec = record {
  object_path = [];
  source_path = [];
  program_name = [];
  program_type = [];
  global_data = none;
  image_url = [];
  image_digest = [];
  image_pull_policy = [];
  image_username = [];
  image_password = [];
  attach_func = [];
  map_owner_id = 0;
}

-- `s == ""`
abbrev pub is_empty : Text → Bool
is_empty [] = true
is_empty (_ ∷ _) = false

-- NewLoadSpec
unfoldable pub new_load_spec : Text → Text → ProgramType → Outcome LoadSpec
unfolding valid_program_type requires_attach_func
new_load_spec path name t =
    if is_empty path
    then err (plain "objectPath is required")
    else if is_empty name
    then err (plain "programName is required")
    else if not (valid_program_type t)
    then err (plain "invalid program type")
    else if requires_attach_func t
    then err (plain "requires NewAttachLoadSpec with attachFunc")
    else ok (record no_spec { object_path = path; program_name = name; program_type = t })

-- NewAttachLoadSpec
unfoldable pub new_attach_load_spec : Text → Text → ProgramType → Text → Outcome LoadSpec
unfolding valid_program_type requires_attach_func
new_attach_load_spec path name t fn =
    if is_empty path
    then err (plain "objectPath is required")
    else if is_empty name
    then err (plain "programName is required")
    else if not (valid_program_type t)
    then err (plain "invalid program type")
    else if not (requires_attach_func t)
    then err (plain "does not require attachFunc")
    else if is_empty fn
    then err (plain "attachFunc is required")
    else ok (record no_spec {
      object_path = path;
      program_name = name;
      program_type = t;
      attach_func = fn;
    })

-- IsGPLCompatible
unfoldable pub is_gpl_compatible : Text → Bool
is_gpl_compatible license =
    text_eq license (codes "GPL")
    || text_eq license (codes "GPL v2")
    || text_eq license (codes "GPL and additional rights")
    || text_eq license (codes "Dual BSD/GPL")
    || text_eq license (codes "Dual MIT/GPL")
    || text_eq license (codes "Dual MPL/GPL")

-- HasImageSource
abbrev pub has_image_source : LoadSpec → Bool
has_image_source s = not (is_empty s.image_url)

-- WithGlobalData
abbrev pub with_global_data : GlobalData → LoadSpec → LoadSpec
with_global_data values s = record s { global_data = values }

-- WithMapOwnerID
abbrev pub with_map_owner_id : ℕ → LoadSpec → LoadSpec
with_map_owner_id id s = record s { map_owner_id = id }

-- WithImageProvenance
abbrev pub with_image_provenance : Text → Text → ImagePullPolicy → LoadSpec → LoadSpec
with_image_provenance url digest policy s = record s {
  image_url = url;
  image_digest = digest;
  image_pull_policy = policy;
}
