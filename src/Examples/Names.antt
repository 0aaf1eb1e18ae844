-- ===== src/Examples/Names.antt =====
-- Parsing the names of actions, with the functions of `strings` for ASCII text.
use go_bpfman.Prelude.{
  ◌+◌, pos, Text, codes, ◌≡◌, refl, ◌↔◌, [], ◌∷◌, map, ◌==◌, leb, ◌&&◌, if◌then◌else◌, In,
}
use go_bpfman.Exec.{ok}
use go_bpfman.Actions.{
  XdpAction, TcAction, xdp_actions, tc_actions, parse_xdp_action, parse_tc_action,
}
use go_bpfman.Actions.Names.{parse_xdp_action_iff, parse_tc_action_iff}

abbrev to_lower : Text → Text
to_lower = map (λ c. if leb 65 c && leb c 90 then c + 32 else c)

trim_left : Text → Text
trim_left [] = []
trim_left (c ∷ s) = let rest = trim_left s in if c == 32 then rest else c ∷ s

abbrev pass : XdpAction
pass = record { name = codes "pass"; code = pos 2 }

abbrev shot : TcAction
shot = record { name = codes "shot"; code = pos 2 }

parsed_pass : parse_xdp_action trim_left to_lower (codes " PASS") ≡ ok pass
unfolding parse_xdp_action trim_left
parsed_pass = refl

parse_xdp_action_iff_example :
    (parse_xdp_action trim_left to_lower (codes " PASS") ≡ ok pass)
    ↔ (In pass xdp_actions × (codes "pass" ≡ trim_left (to_lower (codes " PASS"))))
parse_xdp_action_iff_example = parse_xdp_action_iff trim_left to_lower (codes " PASS") pass

parse_tc_action_iff_example :
    (parse_tc_action trim_left to_lower (codes "Shot") ≡ ok shot)
    ↔ (In shot tc_actions × (codes "shot" ≡ trim_left (to_lower (codes "Shot"))))
parse_tc_action_iff_example = parse_tc_action_iff trim_left to_lower (codes "Shot") shot
