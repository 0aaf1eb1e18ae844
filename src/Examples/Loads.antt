-- ===== src/Examples/Loads.antt =====
-- Loading batches at concrete programs.
use go_bpfman.Prelude.{
  Text, codes, ◌≡◌, refl, ◌⊎◌, List, [], ◌∷◌, Option, none, some, In, ◌==◌, if◌then◌else◌, length,
}
use go_bpfman.Errors.{Err, plain, errors_join, is_not_found, record_not_found}
use go_bpfman.Exec.{ok, err}
use go_bpfman.Exec.Settled.{Settled}
use go_bpfman.Operation.{build, run, get}
use go_bpfman.Programs.{LoadSpec, no_spec, new_load_spec}
use go_bpfman.Programs.Load.{ProgramSpec, LoadOpts, PulledImage, build_load_specs}
use go_bpfman.Programs.Load.Base.{IsLoadable}
use go_bpfman.Programs.Load.Built.{Specify, build_load_specs-Specify}
use go_bpfman.Manager.World.{World, ManagerEnv, Call, Trace}
use go_bpfman.Manager.World
use go_bpfman.Manager.Executor.{execute}
use go_bpfman.Manager.Load.{load_body}
use go_bpfman.Manager.Load.Left.{left_pins}
use go_bpfman.Manager.Load.Saved.{specs_of}
use go_bpfman.Manager.Load.Rollback.{NoneAdded, Added, load_body-Settled}
use go_bpfman.Examples.Unloads
use go_bpfman.Examples.Unloads.{now}

abbrev opts : LoadOpts
opts = record { user_metadata = none; global_data = some []; owner = codes "team" }

abbrev program : Text → ProgramSpec
program name = record {
  name = name;
  program_type = codes "xdp";
  attach_func = [];
  global_data = none;
  map_owner_id = 0;
}

abbrev spec : Text → LoadSpec
spec name = record no_spec {
  object_path = codes "/tmp/x.o";
  program_name = name;
  program_type = codes "xdp";
}

abbrev specs : List LoadSpec
specs = spec (codes "pass") ∷ spec (codes "drop") ∷ []

-- No program is recorded yet, and the second cannot be saved.
abbrev refuses : World → Call → Option Err
refuses w (World.get_program id) = some record_not_found
refuses w (World.save_program id p) = if id == 0 then none else some (plain "disk full")
refuses w _ = none

-- A program's pin has its name, and its id is the number of calls made before.
abbrev env : ManagerEnv
env = record Unloads.env {
  fails = refuses;
  output_of = λ t s. record {
    pin_path = s.program_name;
    maps_dir = codes "/run/fs/maps";
    program_id = length t;
    map_ids = 3 ∷ [];
    license = codes "GPL";
    inferred_type = s.program_type;
    shared_map_names = [];
  };
}

built :
    build_load_specs (codes "/tmp/x.o") opts none (program (codes "pass") ∷ [])
    ≡ ok (record (spec (codes "pass")) { global_data = some [] } ∷ [])
unfolding build_load_specs new_load_spec
built = refl

abbrev pulled : Option PulledImage
pulled = some (record {
  url = codes "quay.io/bpfman/xdp_pass";
  digest = codes "sha256:1f";
  pull_policy = codes "Always";
})

from_image :
    build_load_specs (codes "/tmp/x.o") opts pulled (program (codes "pass") ∷ [])
    ≡ ok (
        record (spec (codes "pass")) {
          global_data = some [];
          image_url = codes "quay.io/bpfman/xdp_pass";
          image_digest = codes "sha256:1f";
          image_pull_policy = codes "Always";
        }
        ∷ [])
unfolding build_load_specs new_load_spec
from_image = refl

-- The first program alone is loaded, the two are rolled back.
loaded :
    left_pins env (load_body env opts (spec (codes "pass") ∷ []) now).1.trace ≡ codes "pass" ∷ []
unfolding left_pins load_body World.invoke execute build run get is_not_found
loaded = refl

cleaned_up : left_pins env (load_body env opts specs now).1.trace ≡ []
unfolding left_pins load_body World.invoke execute build run get is_not_found errors_join
cleaned_up = refl

load_body-Settled_example :
    Settled
      (λ _. NoneAdded env now)
      (λ programs w. (specs_of programs ≡ specs) × Added env now programs w)
      (load_body env opts specs now)
load_body-Settled_example = load_body-Settled env now opts specs (λ _. refl)

build_load_specs-Specify_example :
    ((specs : List LoadSpec) × (build_load_specs
          (codes "/tmp/x.o")
          opts
          pulled
          (program (codes "pass") ∷ program [] ∷ [])
        ≡ ok specs)
      × Specify (codes "/tmp/x.o") opts pulled (program (codes "pass") ∷ program [] ∷ []) specs)
    ⊎ ((e : Err) × (p : ProgramSpec) × (build_load_specs
            (codes "/tmp/x.o")
            opts
            pulled
            (program (codes "pass") ∷ program [] ∷ [])
          ≡ err e)
        × In p (program (codes "pass") ∷ program [] ∷ [])
        × ¬ (IsLoadable (codes "/tmp/x.o") p))
build_load_specs-Specify_example =
    build_load_specs-Specify (codes "/tmp/x.o") opts pulled
      (program (codes "pass") ∷ program [] ∷ [])
