-- ===== src/Tests/Histories.antt =====
-- A history of changes that outlives its ten bits.
use pmctrack.Prelude.{◌+◌, ◌%◌, ◌^◌, ◌≡◌, refl, Bool, true, false, List, ◌∷◌, ◌++◌, replicate}
use pmctrack.Prelude.Newest.{newest}
use pmctrack.ChangeHistory.{
  init_pmon_change_history, pmon_register_metric_change, pmon_register_metric_stable_value,
  register_all,
}
use pmctrack.ChangeHistory.Vector.{word, stables, changes}
use pmctrack.ChangeHistory.Window.{unchanged, register_all-init_pmon_change_history}

abbrev events : List Bool
events = false ∷ false ∷ replicate 9 true

vector : (register_all init_pmon_change_history events).change_vector ≡ 0x3fe
unfolding init_pmon_change_history pmon_register_metric_change pmon_register_metric_stable_value
vector = refl

local_changes : (register_all init_pmon_change_history events).local_changes ≡ 1
unfolding init_pmon_change_history pmon_register_metric_change pmon_register_metric_stable_value
local_changes = refl

register_all-init_pmon_change_history_example :
    let h = register_all init_pmon_change_history events in
    let w = newest 10 (unchanged ++ events) in
    (h.change_vector ≡ word w)
    × (h.local_stable_values ≡ stables w)
    × (h.local_changes ≡ changes w)
    × (h.local_stable_values + h.local_changes ≡ 10)
    × (h.cnt_stable_values ≡ stables events % 2 ^ 32)
    × (h.cnt_changes ≡ changes events % 2 ^ 32)
register_all-init_pmon_change_history_example = register_all-init_pmon_change_history events
