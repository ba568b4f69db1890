-- ===== src/Config/Validate/Policy.antt =====
-- internal/config/validate.go: the rules of a VIP's policy, and of its communities.
use pathosd.Common.{
  ℕ, suc, String, append, Bool, true, false, Option, none, some, List, [], ◌∷◌, ◌++◌, ◌||◌, ◌==◌,
  if◌then◌else◌, codes, parse_uint16, split_colon,
}
use pathosd.Common.Int.{ℤ, pos, ltb_ℤ}
use pathosd.Config.Vip.{AnnounceConfig, LowerPriorityConfig, PolicyConfig}
use pathosd.Config.Validate.Report.{Problem, report, concat, at_index}

-- `err != nil`, after strconv.ParseUint
unfoldable pub is_bad_half : List ℕ → Bool
is_bad_half part = elim (parse_uint16 part) [ none ↦ true | some n ↦ false ]

-- A community that is reported: no colon, or a part that does not parse. One report suffices.
unfoldable pub is_bad_community : String → Bool
unfolding is_bad_half
is_bad_community c = elim (split_colon (codes c)) [
  | none ↦ true
  | some (high, low) ↦ is_bad_half high || is_bad_half low
]

-- func validateCommunities
unfoldable pub validate_communities : String → ℕ → List String → List Problem
unfolding is_bad_community
validate_communities path i [] = []
validate_communities path i (c ∷ communities) =
    report (is_bad_community c) (at_index path i) ++ validate_communities path (suc i) communities

-- a prepend that is set, and outside of its range
unfoldable pub is_out_of_range : Option ℤ → ℤ → ℤ → Bool
is_out_of_range none low high = false
is_out_of_range (some v) low high = ltb_ℤ v low || ltb_ℤ high v

unfoldable pub validate_lower_priority : String → Option LowerPriorityConfig → List Problem
unfolding is_out_of_range validate_communities
validate_lower_priority prefix none = []
validate_lower_priority prefix (some l) =
    report (is_out_of_range l.as_path_prepend (pos 1) (pos 16))
      (append prefix ".lower_priority.as_path_prepend")
    ++ validate_communities (append prefix ".lower_priority.communities") 0 l.communities

unfoldable pub validate_announce : String → Option AnnounceConfig → List Problem
unfolding is_out_of_range validate_communities
validate_announce prefix none = []
validate_announce prefix (some a) =
    report (is_out_of_range a.as_path_prepend (pos 0) (pos 16))
      (append prefix ".announce.as_path_prepend")
    ++ validate_communities (append prefix ".announce.communities") 0 a.communities

-- func validatePolicy; the empty action has a message of its own
unfoldable pub validate_policy : String → PolicyConfig → List Problem
unfolding validate_lower_priority validate_announce
validate_policy prefix p = concat (
    (if p.fail_action == "withdraw" || p.fail_action == "lower_priority"
      then []
      else append prefix ".fail_action" ∷ [])
    ∷ validate_lower_priority prefix p.lower_priority
    ∷ validate_announce prefix p.announce
    ∷ [])
