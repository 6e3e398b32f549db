-- ===== src/Backlog.antt =====
-- packages/core/src/commands/handlers/planning/validate-backlog.ts `hasCycle`: a search through the
-- dependencies, in which a feature that is being visited is grey and one that is done is black.
pub mod Searching
pub mod Visits
pub mod Cycles
use mini_coder.Common.{
  ℕ, zero, suc, ◌+◌, Bool, true, false, List, [], ◌∷◌, String, ◌==◌, String_eq, length, map,
  where_rows, if◌then◌else◌,
}
use mini_coder.Store.Rows.{FeatureDependency}

pub data Color : Type 0 where
  white gray black : Color

-- The map of the colours, `color.get(id) ?? WHITE`.
abbrev pub Colors : Type 0
Colors = String → Color

abbrev pub set_color : String → Color → Colors → Colors
set_color id c colors x = if x == id then c else colors x

abbrev pub all_white : Colors
all_white x = Color.white

-- `adjacency.get(id) ?? []`.
abbrev pub targets_of : List FeatureDependency → String → List String
targets_of deps id = map (λ d. d.target_fr_id) (where_rows (λ d. d.source_fr_id == id) deps)

-- What a visit comes to: `true`, or `false` with the colours that it leaves.
pub data Visit : Type 0 where
  out_of_fuel : Visit
  cyclic : Visit
  finished : Colors → Visit

abbrev pub and_go_on : Visit → (Colors → Visit) → Visit
and_go_on out_of_fuel k = out_of_fuel
and_go_on cyclic k = cyclic
and_go_on (finished colors) k = k colors

-- The loop over the dependencies of a feature.
abbrev pub visit_next :
    (String → Colors → Visit) → String → Colors → Color → (Colors → Visit) → Visit
visit_next visit next colors Color.gray k = cyclic
visit_next visit next colors Color.white k = and_go_on (visit next colors) k
visit_next visit next colors Color.black k = k colors

unfoldable pub visit_each : (String → Colors → Visit) → List String → Colors → Visit
visit_each visit [] colors = finished colors
visit_each visit (next ∷ rest) colors =
    visit_next visit next colors (colors next) (visit_each visit rest)

-- `visit`.
unfoldable pub visit : ℕ → List FeatureDependency → String → Colors → Visit
visit zero deps id colors = out_of_fuel
visit (suc n) deps id colors =
    and_go_on (visit_each (visit n deps) (targets_of deps id) (set_color id Color.gray colors))
      (λ left. finished (set_color id Color.black left))

-- The loop over the features.
abbrev pub visit_white :
    (String → Colors → Visit) → String → Colors → Color → (Colors → Visit) → Visit
visit_white visit id colors Color.white k = and_go_on (visit id colors) k
visit_white visit id colors _ k = k colors

unfoldable pub visit_features : (String → Colors → Visit) → List String → Colors → Visit
visit_features visit [] colors = finished colors
visit_features visit (id ∷ ids) colors =
    visit_white visit id colors (colors id) (visit_features visit ids)

-- As many visits as there are features and dependencies are enough.
abbrev pub search : List String → List FeatureDependency → Visit
search ids deps = visit_features (visit (length ids + length deps) deps) ids all_white

abbrev pub is_cyclic : Visit → Bool
is_cyclic cyclic = true
is_cyclic _ = false

-- `hasCycle`.
unfoldable pub has_cycle : List String → List FeatureDependency → Bool
has_cycle ids deps = is_cyclic (search ids deps)
