-- ===== src/Programs/Load/Built.antt =====
-- The specifications that buildLoadSpecs returns, and when it returns none.
use go_bpfman.Prelude.{
  Text, ◌≡◌, refl, ap, sym, ◌∙◌, ◌⊎◌, inl, inr, List, [], ◌∷◌, Option, none, some, In, ◌==◌,
  Bool-cases, Option-cases, ==_iff, arith,
}
use go_bpfman.Errors.{Err, wrap}
use go_bpfman.Exec.{ok, err}
use go_bpfman.Programs.{GlobalData, LoadSpec}
use go_bpfman.Programs.Load.{
  ProgramSpec, LoadOpts, PulledImage, base_spec, with_data, with_owner, with_provenance,
  build_load_specs,
}
use go_bpfman.Programs.Load.Base.{
  IsValid, Provenance, IsPlain, attach_func_of, IsLoadable, IsBase, base_spec-IsBase,
}

-- A program's own data, or else the batch's.
abbrev pub own_or : GlobalData → GlobalData → GlobalData
own_or (some values) batch = some values
own_or none batch = batch

module _ (object_path : Text) (opts : LoadOpts) (pulled : Option PulledImage) where
  -- `s` is valid and says of the program `p` what the request asks for.
  pub record IsBuilt (p : ProgramSpec) (s : LoadSpec) : Type 0 where
    pub valid : IsValid s
    pub path : s.object_path ≡ object_path
    pub name : s.program_name ≡ p.name
    pub kind : s.program_type ≡ p.program_type
    pub global_data : s.global_data ≡ own_or p.global_data opts.global_data
    pub image : Provenance pulled s
    pub plain : IsPlain s
    pub attach_func : s.attach_func ≡ attach_func_of p
    pub map_owner_id : s.map_owner_id ≡ p.map_owner_id

  -- One specification for each program, in their order.
  abbrev pub Specify : List ProgramSpec → List LoadSpec → Type 0
  Specify [] [] = Unit
  Specify [] (_ ∷ _) = ⊥
  Specify (_ ∷ _) [] = ⊥
  Specify (p ∷ programs) (s ∷ specs) = IsBuilt p s × Specify programs specs

  with_data_lem :
      (p : ProgramSpec) (s : LoadSpec)
      → s.global_data ≡ none
      → with_data opts p s ≡ record s { global_data = own_or p.global_data opts.global_data }
  unfolding with_data
  with_data_lem p s h = elim (Option-cases p.global_data) [
    | inr (v, e) ↦ rw e refl
    | inl e ↦ elim (Option-cases opts.global_data) [
      | inr (v, f) ↦ rw (e, f) refl
      | inl f ↦ rw (e, f) (ap (λ d. record s { global_data = d }) h)
    ]
  ]

  with_owner_lem :
      (p : ProgramSpec) (s : LoadSpec)
      → s.map_owner_id ≡ 0
      → with_owner p s ≡ record s { map_owner_id = p.map_owner_id }
  unfolding with_owner
  with_owner_lem p s h = elim (Bool-cases (p.map_owner_id == 0)) [
    | inr e ↦ rw e refl
    | inl e ↦
        rw e (ap (λ d. record s { map_owner_id = d }) (h ∙ sym ((==_iff p.map_owner_id 0).0 e)))
  ]

module _ (object_path : Text) (opts : LoadOpts) where
  with_provenance-IsBuilt :
      (pulled : Option PulledImage) (p : ProgramSpec) (s : LoadSpec)
      → IsBuilt object_path opts none p s
      → IsBuilt object_path opts pulled p (with_provenance pulled s)
  unfolding with_provenance
  with_provenance-IsBuilt none p s b = b
  with_provenance-IsBuilt (some image) p s b = record {
    valid = record {
      path = b.valid.path;
      name = b.valid.name;
      known = b.valid.known;
      attached = b.valid.attached;
    };
    path = b.path;
    name = b.name;
    kind = b.kind;
    global_data = b.global_data;
    image = (refl, refl, refl);
    plain = record {
      source_path = b.plain.source_path;
      username = b.plain.username;
      password = b.plain.password;
    };
    attach_func = b.attach_func;
    map_owner_id = b.map_owner_id;
  }

  options-IsBuilt :
      (p : ProgramSpec) (s : LoadSpec)
      → IsBase object_path p s
      → IsBuilt object_path opts none p (with_owner p (with_data opts p s))
  options-IsBuilt p s b =
      rw
        (
          with_data_lem object_path opts none p s b.global_data,
          with_owner_lem object_path opts none p
              (record s { global_data = own_or p.global_data opts.global_data }) b.map_owner_id,
        )
        record {
          valid = record {
            path = b.valid.path;
            name = b.valid.name;
            known = b.valid.known;
            attached = b.valid.attached;
          };
          path = b.path;
          name = b.name;
          kind = b.kind;
          global_data = refl;
          image = b.image;
          plain = record {
            source_path = b.plain.source_path;
            username = b.plain.username;
            password = b.plain.password;
          };
          attach_func = b.attach_func;
          map_owner_id = refl;
        }

  build_refused :
      (pulled : Option PulledImage) (p : ProgramSpec) (programs : List ProgramSpec) (e : Err)
      → base_spec object_path p ≡ err e
      → build_load_specs object_path opts pulled (p ∷ programs) ≡ err (wrap "invalid load spec" e)
  unfolding build_load_specs
  build_refused pulled p programs e q = ground (arith, q)

  build_failed :
      (pulled : Option PulledImage) (p : ProgramSpec) (programs : List ProgramSpec) (s : LoadSpec)
      (e : Err)
      → base_spec object_path p ≡ ok s
      → build_load_specs object_path opts pulled programs ≡ err e
      → build_load_specs object_path opts pulled (p ∷ programs) ≡ err e
  unfolding build_load_specs
  build_failed pulled p programs s e q r = ground (arith, q, r)

  build_next :
      (pulled : Option PulledImage) (p : ProgramSpec) (programs : List ProgramSpec) (s : LoadSpec)
      (specs : List LoadSpec)
      → base_spec object_path p ≡ ok s
      → build_load_specs object_path opts pulled programs ≡ ok specs
      → build_load_specs object_path opts pulled (p ∷ programs)
        ≡ ok (with_provenance pulled (with_owner p (with_data opts p s)) ∷ specs)
  unfolding build_load_specs
  build_next pulled p programs s specs q r = ground (arith, q, r)

-- buildLoadSpecs returns one specification for each program, in their order: it is valid, names the
-- object, the program and its type, carries the function that the type attaches to, the program's
-- own global data or else the batch's, its map owner, and the address, the digest and the pull policy
-- of the image that was pulled, and all its other fields are empty. Or else it returns an error, and there is a program of
-- an unknown type, without its name or without the function that its type attaches to, or the
-- object has no path.
pub build_load_specs-Specify :
    (object_path : Text) (opts : LoadOpts) (pulled : Option PulledImage)
    (programs : List ProgramSpec)
    → ((specs : List LoadSpec) × (build_load_specs object_path opts pulled programs ≡ ok specs)
        × Specify object_path opts pulled programs specs)
      ⊎ ((e : Err) × (p : ProgramSpec) × (build_load_specs object_path opts pulled programs ≡ err e)
          × In p programs
          × ¬ (IsLoadable object_path p))
unfolding build_load_specs
build_load_specs-Specify path opts pulled [] = inl ([], refl, tt)
build_load_specs-Specify path opts pulled (p ∷ programs) = elim (base_spec-IsBase path p) [
  | inr (e, q, n) ↦
      inr
        (wrap "invalid load spec" e, p, build_refused path opts pulled p programs e q, inl refl, n)
  | inl (s, q, b) ↦ elim (build_load_specs-Specify path opts pulled programs) [
    | inr (e, k, r, i, n) ↦ inr (e, k, build_failed path opts pulled p programs s e q r, inr i, n)
    | inl (specs, r, all) ↦ inl (
      _,
      build_next path opts pulled p programs s specs q r,
      (with_provenance-IsBuilt path opts pulled p _ (options-IsBuilt path opts p s b), all),
    )
  ]
]
