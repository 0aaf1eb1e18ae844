-- ===== src/Layout.antt =====
-- The paths of pins under the bpffs mount (fs/bpffs_layout.go). `base` is the layout's base
-- directory, which is clean, so that `filepath.Join` puts a slash between its arguments.
use go_bpfman.Prelude.{ℕ, zero, suc, ◌+◌, ◌/◌, ◌%◌, Text, codes, [], ◌∷◌, ◌++◌, ltb, if◌then◌else◌}
use go_bpfman.Platform.{DispatcherType, unset, xdp, tc_ingress, tc_egress, Key}

-- strconv.FormatUint(n, 10) and %d; `suc n` rounds are enough, since a round divides by ten.
decimal_from : ℕ → ℕ → Text
decimal_from zero n = []
decimal_from (suc f) n =
    let rest = decimal_from f (n / 10) ++ (48 + n % 10) ∷ [] in
    if ltb n 10 then (48 + n) ∷ [] else rest

unfoldable pub decimal : ℕ → Text
unfolding decimal_from
decimal n = decimal_from (suc n) n

abbrev join : Text → Text → Text
join a b = a ++ codes "/" ++ b

-- DispatcherType.String
unfoldable pub dispatcher_type_name : DispatcherType → Text
dispatcher_type_name unset = []
dispatcher_type_name xdp = codes "xdp"
dispatcher_type_name tc_ingress = codes "tc-ingress"
dispatcher_type_name tc_egress = codes "tc-egress"

module _ (base : Text) where
  abbrev mount_point : Text
  mount_point = join base (codes "fs")

  -- dispatcherTypeDir
  abbrev dispatcher_type_dir : DispatcherType → Text
  dispatcher_type_dir t = join mount_point (dispatcher_type_name t)

  -- DispatcherLinkPath
  unfoldable pub dispatcher_link_path : Key → Text
  unfolding decimal dispatcher_type_name
  dispatcher_link_path k =
      join (dispatcher_type_dir k.typ)
        (codes "dispatcher_" ++ decimal k.nsid ++ codes "_" ++ decimal k.ifindex ++ codes "_link")

  -- DispatcherRevisionDir
  unfoldable pub dispatcher_revision_dir : Key → ℕ → Text
  unfolding decimal dispatcher_type_name
  dispatcher_revision_dir k revision = join (dispatcher_type_dir k.typ) (
      codes "dispatcher_"
      ++ decimal k.nsid
      ++ codes "_"
      ++ decimal k.ifindex
      ++ codes "_"
      ++ decimal revision)

  -- DispatcherProgPath
  unfoldable pub dispatcher_prog_path : Key → ℕ → Text
  dispatcher_prog_path k revision = join (dispatcher_revision_dir k revision) (codes "dispatcher")

  -- ExtensionLinkPath
  unfoldable pub extension_link_path : Key → ℕ → ℕ → Text
  unfolding decimal
  extension_link_path k revision position =
      join (dispatcher_revision_dir k revision) (codes "link_" ++ decimal position)

  -- ProgPinPath
  unfoldable pub prog_pin_path : ℕ → Text
  unfolding decimal
  prog_pin_path id = join mount_point (codes "prog_" ++ decimal id)

  -- MapPinDir
  unfoldable pub map_pin_dir : ℕ → Text
  unfolding decimal
  map_pin_dir id = join (join mount_point (codes "maps")) (decimal id)

  -- SharedMapPin
  unfoldable pub shared_map_pin : Text → Text
  shared_map_pin name = join (join mount_point (codes "shared")) name

  -- Bytecode.ProgramDir (fs/runtime.go)
  unfoldable pub program_dir : ℕ → Text
  unfolding decimal
  program_dir id = join (join base (codes "programs")) (decimal id)

  -- Bytecode.ProgramBytecodePath (fs/runtime.go)
  unfoldable pub program_bytecode_path : ℕ → Text
  unfolding program_dir
  program_bytecode_path id = join (program_dir id) (codes "bytecode.o")

  -- TCXLinkPath
  unfoldable pub tcx_link_path : Text → ℕ → ℕ → ℕ → Text
  unfolding decimal
  tcx_link_path direction nsid ifindex program_id =
      join (join mount_point (codes "tcx-" ++ direction)) (
        codes "link_"
        ++ decimal nsid
        ++ codes "_"
        ++ decimal ifindex
        ++ codes "_"
        ++ decimal program_id)

  -- BPFFS.Links
  unfoldable pub links_dir : Text
  links_dir = join mount_point (codes "links")
