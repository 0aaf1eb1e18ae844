-- ===== src/Examples/Unloads.antt =====
-- Detaching, unloading and batch deletion at concrete programs and links.
use go_bpfman.Prelude.{
  ℕ, pos, ◌≡◌, refl, codes, true, false, [], ◌∷◌, Option, none, some, ◌==◌, if◌then◌else◌,
}
use go_bpfman.Errors.{Err, plain, wrap, errors_join, is_not_found, is_program_not_found}
use go_bpfman.Platform.{dispatcher_type_eq}
use go_bpfman.Programs.{no_spec}
use go_bpfman.Exec.{ok}
use go_bpfman.Exec.Ends.{Ends}
use go_bpfman.Links.{LinkRecord, fentry_details, xdp_details}
use go_bpfman.Links
use go_bpfman.Operation.{build, run0}
use go_bpfman.Operation.InTurn.{in_turn}
use go_bpfman.Manager.World.{World, ManagerEnv, ProgramRecord, ListedProgram, Call}
use go_bpfman.Manager.World
use go_bpfman.Manager.Executor.{execute}
use go_bpfman.Manager.Lookup.{get_link}
use go_bpfman.Manager.Detach.{detach, dispatcher_key}
use go_bpfman.Manager.Detach.Plan.{detach_actions, detach-in_turn}
use go_bpfman.Manager.Unload.{unload_program}
use go_bpfman.Manager.Unload.Program.{ProgramFailed, ProgramDeleted, unload_program-Contract}
use go_bpfman.Manager.Delete.{delete_programs}
use go_bpfman.Manager.Delete.Programs.{Reports, delete_programs-Reports}
use go_bpfman.Examples.Fixtures

abbrev link : LinkRecord
link = record {
  id = 3;
  program_id = 8;
  kernel_link_id = some 30;
  link_kind = Links.fentry;
  pin_path = some (codes "/run/fs/links/3");
  metadata = [];
  details = fentry_details (codes "do_unlinkat");
}

-- The map set of program 8 cannot be deleted, and program 9 is not recorded.
abbrev refuses : World → Call → Option Err
refuses w (World.delete_map_set id) = if id == 8 then some (plain "busy") else none
refuses w (World.get_program id) = if id == 9 then some (plain "locked") else none
refuses w _ = none

abbrev program : ℕ → ProgramRecord
program id = record {
  program_id = id;
  pin_path = codes "/run/fs/prog";
  maps_dir = codes "/run/fs/maps";
  map_owner_id = none;
  load = no_spec;
  license = codes "GPL";
  gpl_compatible = true;
  name = codes "pass";
  owner = [];
  metadata = none;
}

abbrev listed : ℕ → Option ℕ → ListedProgram
listed id owner = record { program_id = id; map_owner_id = owner }

abbrev pub env : ManagerEnv
env = record {
  fails = refuses;
  program_of = λ _ id. program id;
  link_of = λ _ _. link;
  links_of = λ _ id. if id == 8 then link ∷ [] else [];
  programs_of = λ _. listed 7 none ∷ listed 8 (some 7) ∷ listed 9 none ∷ [];
  orphaned_of = λ _ _. codes "counters" ∷ [];
  exists_of = λ _ _. true;
  users_of = λ _ _. 0;
  records_of = λ _.
      (7, program 7)
      ∷ (8, record (program 8) { map_owner_id = some 7 })
      ∷ (9, program 9)
      ∷ (10, record (program 10) { map_owner_id = some 9 })
      ∷ [];
  kernel_ids_of = λ _. 10 ∷ [];
  output_of = λ _ spec. record {
    pin_path = codes "/run/fs/prog_20";
    maps_dir = codes "/run/fs/maps/20";
    program_id = 20;
    map_ids = 3 ∷ [];
    license = codes "GPL";
    inferred_type = spec.program_type;
    shared_map_names = [];
  };
  pending_of = λ _ spec. record link {
    id = 4;
    program_id = spec.program_id;
    kernel_link_id = none;
    pin_path = some (codes "/run/fs/links/4");
    details = spec.details;
  };
  finalised_of = λ _ id kernel_id. record link { id = id; kernel_link_id = kernel_id };
  attached_of = λ _ _. record {
    kernel_link_id = some 30;
    kernel_link = none;
    pin_path = codes "/run/fs/links/4";
  };
  created_of = λ _ spec. record link {
    id = 4;
    program_id = spec.program_id;
    pin_path = spec.pin_path;
    details = spec.details;
  };
  tcx_links_of = λ _ _ _ _.
      record { link_id = 3; kernel_link_id = 30; kernel_program_id = 8; priority = pos 10 } ∷ [];
  ifindex_of = λ _ _ _. 2;
  nsid_of = λ _ _. 1;
  is_not_exist = λ _. false;
  tracepoints_of = λ _. codes "sched/sched_switch" ∷ [];
  map_of = λ _ id. record { id = id; name = codes "counters" };
  is_busy = λ _. false;
  tx_retry_backoffs = [];
  dispatchers = λ _. Fixtures.env;
  order = λ _ keys. keys;
  base = codes "/run";
}

abbrev pub now : World
now = record { trace = []; log = [] }

abbrev found : World
found = record { trace = World.done (World.get_link 3) ∷ []; log = [] }

found_link : get_link env 3 now ≡ (ok link, found)
unfolding get_link World.invoke
found_link = refl

no_dispatcher : dispatcher_key env link ≡ ok none
unfolding dispatcher_key
no_dispatcher = refl

detach-in_turn_example :
    detach env 3 now ≡ in_turn (Unit {0}) (execute env) (detach_actions link none) found
detach-in_turn_example = detach-in_turn env 3 now found link none found_link no_dispatcher

unload_program-Contract_example :
    Ends (ProgramFailed env 8 now) (λ _. ProgramDeleted env 8 now) (unload_program env 8 now)
unload_program-Contract_example = unload_program-Contract env 8 now (λ _. refl)

-- A map set that stays is no error of the unload.
unloaded : (unload_program env 8 now).0 ≡ ok tt
unfolding unload_program execute World.invoke dispatcher_type_eq errors_join
unloaded = refl

-- The dependent goes first, though its owner is named alone.
batch :
    (delete_programs env 5 (7 ∷ 9 ∷ 8 ∷ []) true false now).0
    ≡ ok (
        record { id = 8; error = none }
        ∷ record { id = 7; error = none }
        ∷ record { id = 9; error = some (wrap "unload" (wrap "get program" (plain "locked"))) }
        ∷ [])
unfolding delete_programs execute World.invoke dispatcher_type_eq errors_join detach build run0
    unload_program is_not_found is_program_not_found
batch = refl

delete_programs-Reports_example :
    Ends
      (λ _ _. ⊥)
      (Reports now (7 ∷ 9 ∷ 8 ∷ []))
      (delete_programs env 5 (7 ∷ 9 ∷ 8 ∷ []) true false now)
delete_programs-Reports_example =
    delete_programs-Reports env 5 (7 ∷ 9 ∷ 8 ∷ []) true false now (λ id w. refl)
