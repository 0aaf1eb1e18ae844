-- ===== src/Actions.antt =====
-- The return codes that a dispatcher may proceed on (xdp_action.go, tc_action.go).
pub mod Names
use go_bpfman.Prelude.{
  ℤ, pos, negsuc, String, Text, codes, List, [], ◌∷◌, map, Option, none, some, text_eq, eq_ℤ,
  if◌then◌else◌,
}
use go_bpfman.Errors.{plain}
use go_bpfman.Exec.{Outcome, ok, err}

-- XDPAction
pub record XdpAction : Type 0 where
  pub name : Text
  pub code : ℤ  -- int32

-- The values of `xdpActionNameToAction`; no two share a name or a code.
abbrev pub xdp_actions : List XdpAction
xdp_actions =
    record { name = codes "aborted"; code = pos 0 }
    ∷ record { name = codes "drop"; code = pos 1 }
    ∷ record { name = codes "pass"; code = pos 2 }
    ∷ record { name = codes "tx"; code = pos 3 }
    ∷ record { name = codes "redirect"; code = pos 4 }
    ∷ record { name = codes "dispatcher_return"; code = pos 31 }
    ∷ []

-- TCAction
pub record TcAction : Type 0 where
  pub name : Text
  pub code : ℤ  -- int32

-- allTCActions
abbrev pub tc_actions : List TcAction
tc_actions =
    record { name = codes "unspec"; code = negsuc 0 }
    ∷ record { name = codes "ok"; code = pos 0 }
    ∷ record { name = codes "reclassify"; code = pos 1 }
    ∷ record { name = codes "shot"; code = pos 2 }
    ∷ record { name = codes "pipe"; code = pos 3 }
    ∷ record { name = codes "stolen"; code = pos 4 }
    ∷ record { name = codes "queued"; code = pos 5 }
    ∷ record { name = codes "repeat"; code = pos 6 }
    ∷ record { name = codes "redirect"; code = pos 7 }
    ∷ record { name = codes "trap"; code = pos 8 }
    ∷ record { name = codes "dispatcher_return"; code = pos 30 }
    ∷ []

find_xdp : ℤ → List XdpAction → Outcome XdpAction
find_xdp c [] = err (plain "unknown XDP action code")
find_xdp c (a ∷ rest) = if eq_ℤ a.code c then ok a else find_xdp c rest

-- XDPActionFromInt32, by the map from codes
unfoldable pub xdp_action_from_int32 : ℤ → Outcome XdpAction
unfolding find_xdp
xdp_action_from_int32 c = find_xdp c xdp_actions

find_tc : ℤ → List TcAction → Outcome TcAction
find_tc c [] = err (plain "unknown TC action code")
find_tc c (a ∷ rest) = if eq_ℤ a.code c then ok a else find_tc c rest

-- TCActionFromInt32, by the map from codes
unfoldable pub tc_action_from_int32 : ℤ → Outcome TcAction
unfolding find_tc
tc_action_from_int32 c = find_tc c tc_actions

-- A lookup in the map from the names of a table to its entries.
unfoldable pub find_named {ℓ} : {A : Type ℓ} → (A → Text) → Text → List A → Option A
find_named name key [] = none
find_named name key (a ∷ rest) =
    let found = find_named name key rest in if text_eq (name a) key then some a else found

parsed : {A : Type 0} → String → Option A → Outcome A
parsed label none = err (plain label)
parsed label (some a) = ok a

-- `strings.TrimSpace` and `strings.ToLower` work on Unicode, and are parameters.
module _ (trim_space to_lower : Text → Text) where
  -- ParseXDPAction
  unfoldable pub parse_xdp_action : Text → Outcome XdpAction
  unfolding find_named parsed
  parse_xdp_action s =
      parsed "unknown XDP action" (find_named (λ a. a.name) (trim_space (to_lower s)) xdp_actions)

  -- ParseTCAction
  unfoldable pub parse_tc_action : Text → Outcome TcAction
  unfolding find_named parsed
  parse_tc_action s =
      parsed "unknown TC action" (find_named (λ a. a.name) (trim_space (to_lower s)) tc_actions)

-- XDPActionCodes
unfoldable pub xdp_action_codes : List XdpAction → List ℤ
xdp_action_codes = map (λ a. a.code)

-- TCActionCodes
unfoldable pub tc_action_codes : List TcAction → List ℤ
tc_action_codes = map (λ a. a.code)
