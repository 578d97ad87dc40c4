-- ===== src/ChangeHistory.antt =====
-- The history of the last changes of a metric, of src/modules/pmcs/include/pmc/hl_events.h: ten bits
-- of a word, the oldest lowest, and the counts of each kind among them.
pub mod Vector
pub mod Window
use pmctrack.Prelude.{ℕ, ◌+◌, ◌/◌, Bool, true, false, List, [], ◌∷◌, add32, sub32}
use Prim.Native.Nat.{bit_and, bit_or, bit_xor}

-- AMP_HISTORY_BIT_VECTOR_SIZE
abbrev pub amp_history_bit_vector_size : ℕ
amp_history_bit_vector_size = 10

-- AMP_HISTORY_BIT_VECTOR_MASK
abbrev pub amp_history_bit_vector_mask : ℕ
amp_history_bit_vector_mask = 0x3ff

-- AMP_HISTORY_LAST_BIT
abbrev pub amp_history_last_bit : ℕ
amp_history_last_bit = 0x200

-- `pmon_change_history_t`
pub record ChangeHistory : Type 0 where
  pub change_vector : ℕ
  pub local_changes : ℕ
  pub local_stable_values : ℕ
  pub cnt_changes : ℕ
  pub cnt_stable_values : ℕ
  pub running_average : ℕ

unfoldable pub init_pmon_change_history : ChangeHistory
init_pmon_change_history = record {
  change_vector = amp_history_bit_vector_mask;
  local_changes = 0;
  local_stable_values = amp_history_bit_vector_size;
  cnt_changes = 0;
  cnt_stable_values = 0;
  running_average = 0;
}

unfoldable pub pmon_register_metric_change : ChangeHistory → ChangeHistory
pmon_register_metric_change h =
    let false_increment = bit_and h.change_vector 0x1 in
    record h {
      cnt_changes = add32 h.cnt_changes 1;
      local_stable_values = sub32 h.local_stable_values false_increment;
      local_changes = add32 h.local_changes false_increment;
      change_vector = h.change_vector / 2;
    }

unfoldable pub pmon_register_metric_stable_value : ChangeHistory → ChangeHistory
pmon_register_metric_stable_value h =
    let true_increment = bit_xor (bit_and h.change_vector 0x1) 0x1 in
    record h {
      cnt_stable_values = add32 h.cnt_stable_values 1;
      local_stable_values = add32 h.local_stable_values true_increment;
      local_changes = sub32 h.local_changes true_increment;
      change_vector = bit_or (h.change_vector / 2) amp_history_last_bit;
    }

-- A value that is stable, or not
abbrev pub register : ChangeHistory → Bool → ChangeHistory
register h true = pmon_register_metric_stable_value h
register h false = pmon_register_metric_change h

abbrev pub register_all : ChangeHistory → List Bool → ChangeHistory
register_all h [] = h
register_all h (stable ∷ rest) = register_all (register h stable) rest
