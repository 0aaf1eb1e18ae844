-- ===== src/Programs/Load.antt =====
-- From the programs of a request to the specifications that are loaded (manager/load.go).
pub mod Base
pub mod Built
use go_bpfman.Prelude.{
  ℕ, Text, codes, true, false, ◌++◌, List, [], ◌∷◌, map, Option, none, some, text_eq, ◌==◌,
  if◌then◌else◌,
}
use go_bpfman.Errors.{wrap}
use go_bpfman.Exec.{Outcome, ok, err, panic}
use go_bpfman.Programs.{
  ProgramType, GlobalData, Metadata, LoadSpec, ImagePullPolicy, is_empty, parse_program_type,
  requires_attach_func, new_load_spec, new_attach_load_spec, with_global_data, with_map_owner_id,
  with_image_provenance,
}

-- ProgramSpec
pub record ProgramSpec : Type 0 where
  pub name : Text
  pub program_type : ProgramType
  pub attach_func : Text
  pub global_data : GlobalData
  pub map_owner_id : ℕ

-- LoadOpts
pub record LoadOpts : Type 0 where
  pub user_metadata : Metadata
  pub global_data : GlobalData
  pub owner : Text

-- platform.PulledImage, with the fields that a specification takes from it.
pub record PulledImage : Type 0 where
  pub url : Text
  pub digest : Text
  pub pull_policy : ImagePullPolicy

-- LoadRequestOpts
pub record LoadRequestOpts : Type 0 where
  pub user_metadata : Metadata
  pub global_data : GlobalData
  pub application : Text
  pub map_owner_id : ℕ
  pub owner : Text

-- LoadRequest, without its source
pub record LoadRequest : Type 0 where
  pub programs : List ProgramSpec
  pub opts : LoadOpts

unfoldable pub entries : Metadata → List (Text × Text)
entries none = []
entries (some m) = m

unfoldable pub value_at : Text → List (Text × Text) → Option Text
value_at key [] = none
value_at key ((k, v) ∷ m) = let rest = value_at key m in if text_eq k key then some v else rest

-- out[key] = value
unfoldable pub assign : Text → Text → List (Text × Text) → List (Text × Text)
assign key value [] = (key, value) ∷ []
assign key value ((k, v) ∷ m) =
    let rest = assign key value m in if text_eq k key then (k, value) ∷ m else (k, v) ∷ rest

abbrev pub application_metadata_key : Text
application_metadata_key = codes "bpfman.io/application"

-- loadRequestMetadata
unfoldable pub load_request_metadata : Metadata → Text → Metadata
unfolding entries assign
load_request_metadata metadata application = elim (is_empty application) [
  | true ↦ elim (entries metadata) [ [] ↦ none | e ∷ m ↦ some (e ∷ m) ]
  | false ↦ some (assign application_metadata_key application (entries metadata))
]

-- applyLoadRequestMapOwner
unfoldable pub apply_load_request_map_owner : List ProgramSpec → ℕ → List ProgramSpec
apply_load_request_map_owner programs owner =
    map (λ p. if p.map_owner_id == 0 then record p { map_owner_id = owner } else p) programs

-- NewLoadRequest
unfoldable pub new_load_request : List ProgramSpec → LoadRequestOpts → LoadRequest
unfolding apply_load_request_map_owner load_request_metadata
new_load_request programs opts = record {
  programs = apply_load_request_map_owner programs opts.map_owner_id;
  opts = record {
    user_metadata = load_request_metadata opts.user_metadata opts.application;
    global_data = opts.global_data;
    owner = opts.owner;
  };
}

-- actualTypeMetadataKey
abbrev pub actual_type_metadata_key : Text → Text
actual_type_metadata_key name = codes "bpfman.io/actual-type:" ++ name

parsed_or : ProgramType → Outcome ProgramType → ProgramType
parsed_or t (ok actual) = actual
parsed_or t _ = t

actual_or : ProgramType → Option Text → ProgramType
unfolding parsed_or parse_program_type
actual_or t none = t
actual_or t (some s) = parsed_or t (parse_program_type s)

-- resolveActualProgramType
unfoldable pub resolve_actual_program_type : ProgramType → Text → Metadata → ProgramType
unfolding actual_or value_at entries
resolve_actual_program_type t name metadata =
    actual_or t (value_at (actual_type_metadata_key name) (entries metadata))

-- normalizeLoadProgramSpecs
unfoldable pub normalize_load_program_specs : List ProgramSpec → LoadOpts → List ProgramSpec
unfolding resolve_actual_program_type
normalize_load_program_specs programs opts =
    map {A = ProgramSpec} {B = ProgramSpec}
      (λ p. record p {
        program_type = resolve_actual_program_type p.program_type p.name opts.user_metadata;
      })
      programs

-- The specification before its options.
unfoldable pub base_spec : Text → ProgramSpec → Outcome LoadSpec
unfolding requires_attach_func
base_spec object_path p =
    if requires_attach_func p.program_type
    then new_attach_load_spec object_path p.name p.program_type p.attach_func
    else new_load_spec object_path p.name p.program_type

-- The batch's data, unless the program has data of its own.
unfoldable pub with_data : LoadOpts → ProgramSpec → LoadSpec → LoadSpec
with_data opts p spec = elim p.global_data [
  | some values ↦ with_global_data (some values) spec
  | none ↦ elim opts.global_data [ some values ↦ with_global_data (some values) spec | none ↦ spec ]
]

unfoldable pub with_owner : ProgramSpec → LoadSpec → LoadSpec
with_owner p spec = if p.map_owner_id == 0 then spec else with_map_owner_id p.map_owner_id spec

unfoldable pub with_provenance : Option PulledImage → LoadSpec → LoadSpec
with_provenance none spec = spec
with_provenance (some image) spec =
    with_image_provenance image.url image.digest image.pull_policy spec

module _ (object_path : Text) (opts : LoadOpts) (pulled : Option PulledImage) where
  -- buildLoadSpecs
  unfoldable pub build_load_specs : List ProgramSpec → Outcome (List LoadSpec)
  unfolding base_spec with_data with_owner with_provenance
  build_load_specs [] = ok []
  build_load_specs (p ∷ programs) =
      let rest = build_load_specs programs in
      elim (base_spec object_path p) [
        | err e ↦ err (wrap "invalid load spec" e)
        | panic m ↦ panic m
        | ok spec ↦ elim rest [
          | ok specs ↦ ok (with_provenance pulled (with_owner p (with_data opts p spec)) ∷ specs)
          | err e ↦ err e
          | panic m ↦ panic m
        ]
      ]
