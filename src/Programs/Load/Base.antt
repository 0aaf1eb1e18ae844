-- ===== src/Programs/Load/Base.antt =====
-- The specification before its options: what its constructors (load_spec.go) set, and when they refuse.
use go_bpfman.Prelude.{
  Text, true, false, ◌≡◌, refl, ◌⊎◌, inl, inr, not, [], Option, none, some, if◌then◌else◌,
  Bool-cases, arith,
}
use go_bpfman.Errors.{Err}
use go_bpfman.Exec.{ok, err}
use go_bpfman.Programs.{
  LoadSpec, is_empty, valid_program_type, requires_attach_func, new_load_spec, new_attach_load_spec,
}
use go_bpfman.Programs.Load.{ProgramSpec, PulledImage, base_spec}

-- What a specification promises to the kernel adapter.
pub record IsValid (s : LoadSpec) : Type 0 where
  pub path : is_empty s.object_path ≡ false
  pub name : is_empty s.program_name ≡ false
  pub known : valid_program_type s.program_type ≡ true
  pub attached : requires_attach_func s.program_type ≡ not (is_empty s.attach_func)

-- The image that the specification names, none where none was pulled.
abbrev pub Provenance : Option PulledImage → LoadSpec → Type 0
Provenance none s = (s.image_url ≡ []) × (s.image_digest ≡ []) × (s.image_pull_policy ≡ [])
Provenance (some image) s =
    (s.image_url ≡ image.url)
    × (s.image_digest ≡ image.digest)
    × (s.image_pull_policy ≡ image.pull_policy)

-- What no request sets.
pub record IsPlain (s : LoadSpec) : Type 0 where
  pub source_path : s.source_path ≡ []
  pub username : s.image_username ≡ []
  pub password : s.image_password ≡ []

-- The function that the program attaches to, which only some types have.
abbrev pub attach_func_of : ProgramSpec → Text
attach_func_of p = if requires_attach_func p.program_type then p.attach_func else []

module _ (object_path : Text) where
  -- A program of which a specification can be made.
  pub record IsLoadable (p : ProgramSpec) : Type 0 where
    pub path : is_empty object_path ≡ false
    pub name : is_empty p.name ≡ false
    pub known : valid_program_type p.program_type ≡ true
    pub attached : requires_attach_func p.program_type ≡ true → is_empty p.attach_func ≡ false

  -- The fields that the constructors set.
  pub record IsBase (p : ProgramSpec) (s : LoadSpec) : Type 0 where
    pub valid : IsValid s
    pub path : s.object_path ≡ object_path
    pub name : s.program_name ≡ p.name
    pub kind : s.program_type ≡ p.program_type
    pub global_data : s.global_data ≡ none
    pub image : Provenance none s
    pub plain : IsPlain s
    pub attach_func : s.attach_func ≡ attach_func_of p
    pub map_owner_id : s.map_owner_id ≡ 0

  pub base_spec-IsBase :
      (p : ProgramSpec)
      → ((s : LoadSpec) × (base_spec object_path p ≡ ok s) × IsBase p s)
        ⊎ ((e : Err) × (base_spec object_path p ≡ err e) × ¬ (IsLoadable p))
  unfolding base_spec new_load_spec new_attach_load_spec
  base_spec-IsBase p = elim (Bool-cases (is_empty object_path)) [
    | inl e ↦ elim (Bool-cases (requires_attach_func p.program_type)) [
      | inl r ↦ rw (e, r) (inr (_, refl, λ l. ground (arith, l.path, e)))
      | inr r ↦ rw (e, r) (inr (_, refl, λ l. ground (arith, l.path, e)))
    ]
    | inr e ↦ elim (Bool-cases (is_empty p.name)) [
      | inl n ↦ elim (Bool-cases (requires_attach_func p.program_type)) [
        | inl r ↦ rw (e, n, r) (inr (_, refl, λ l. ground (arith, l.name, n)))
        | inr r ↦ rw (e, n, r) (inr (_, refl, λ l. ground (arith, l.name, n)))
      ]
      | inr n ↦ elim (Bool-cases (valid_program_type p.program_type)) [
        | inr v ↦ elim (Bool-cases (requires_attach_func p.program_type)) [
          | inl r ↦ rw (e, n, v, r) (inr (_, refl, λ l. ground (arith, l.known, v)))
          | inr r ↦ rw (e, n, v, r) (inr (_, refl, λ l. ground (arith, l.known, v)))
        ]
        | inl v ↦ elim (Bool-cases (requires_attach_func p.program_type)) [
          | inr r ↦
              rw (e, n, v, r)
                (inl (
                  _,
                  refl,
                  record {
                    valid = record { path = e; name = n; known = v; attached = r };
                    path = refl;
                    name = refl;
                    kind = refl;
                    global_data = refl;
                    image = (refl, refl, refl);
                    plain = record { source_path = refl; username = refl; password = refl };
                    attach_func = rw r refl;
                    map_owner_id = refl;
                  },
                ))
          | inl r ↦ elim (Bool-cases (is_empty p.attach_func)) [
            | inl f ↦ rw (e, n, v, r, f) (inr (_, refl, λ l. ground (arith, l.attached r, f)))
            | inr f ↦
                rw (e, n, v, r, f)
                  (inl (
                    _,
                    refl,
                    record {
                      valid = record { path = e; name = n; known = v; attached = rw (r, f) refl };
                      path = refl;
                      name = refl;
                      kind = refl;
                      global_data = refl;
                      image = (refl, refl, refl);
                      plain = record { source_path = refl; username = refl; password = refl };
                      attach_func = rw r refl;
                      map_owner_id = refl;
                    },
                  ))
          ]
        ]
      ]
    ]
  ]
