-- ===== src/Tests/Rmids.antt =====
-- A pool of three RMIDs.
use pmctrack.Prelude.{
  ℕ, zero, suc, ◌+◌, ◌-◌, ◌<◌, ◌%◌, ◌^◌, ◌≡◌, ◌*◌, refl, List, [], ◌∷◌, none, some, true, false,
  arith, get_or, Ensures,
}
use mathlib.Core.List.{Perm, Nodup, not-mem-nil, ◌++◌, map}
use pmctrack.Prelude.Int.{enomem}
use pmctrack.Rmid.{
  RmidNode, CmtSupport, Pool, rmid_fifo, fill_rmid_pool, initialize_rmid_pool, get_rmid, put_rmid,
  use_rmid, update_local_bandwidth,
}
use pmctrack.Prelude.Runs.{run}
use pmctrack.Rmid.Sharing.{blank, Inv}
use pmctrack.Rmid.Counter.{update_local_bandwidth_lem}
use pmctrack.Rmid.Get.{Got, get_rmid_lem}
use pmctrack.Rmid.Users.{change, Held}
use pmctrack.Rmid.Users.Giving.{put_rmid-Held, use_rmid-Held}
use pmctrack.Rmid.Init.{Buffers, fill_rmid_pool-Inv, initialize_rmid_pool-overrun}
use pmctrack.Rmid.Client.{here, next, get, Step-Held, Reach-Counts}

abbrev node : ℕ → ℕ → RmidNode
node rmid raw = record {
  rmid = rmid;
  ref_counter = 0;
  free_rmid = true;
  raw_bandwidth_value = raw ∷ 0 ∷ [];
  bandwidth_value = 0 ∷ 0 ∷ [];
}

abbrev nodes : List RmidNode
nodes = node 0 0 ∷ node 0 0 ∷ node 0 0 ∷ []

nodes-Buffers : (j : ℕ) → j < 3 → Buffers (get_or nodes j blank)
nodes-Buffers zero h = record { raws = omega arith; values = omega arith }
nodes-Buffers (suc zero) h = record { raws = omega arith; values = omega arith }
nodes-Buffers (suc (suc zero)) h = record { raws = omega arith; values = omega arith }
nodes-Buffers (suc (suc (suc j))) h = absurd (omega arith)

abbrev support : CmtSupport
support = record { count_width = 24; upscaling_factor = 64 }

-- Set up from the second RMID on
abbrev fresh : Pool
fresh = record {
  node_pool = node 1 0 ∷ node 2 0 ∷ node 3 0 ∷ [];
  available_rmids = 1 ∷ 2 ∷ 0 ∷ [];
  nr_available_rmids = 3;
  rmid_allocation_policy = rmid_fifo;
  assigned_rmids = [];
  assigned_room = 3;
}

set_up : fill_rmid_pool nodes 3 3 rmid_fifo 4 ≡ some fresh
unfolding fill_rmid_pool
set_up = refl

no_memory :
    initialize_rmid_pool (λ m. none) (λ m. true) (λ m. true) 3 rmid_fifo 4 fresh
    ≡ some (enomem, fresh)
unfolding initialize_rmid_pool
no_memory = refl

abbrev taken : Pool
taken = record {
  node_pool =
      node 1 0
      ∷ (record (node 2 100) {
        ref_counter = 1;
        free_rmid = false;
        bandwidth_value = 6400 ∷ 0 ∷ [];
      })
      ∷ node 3 0
      ∷ [];
  available_rmids = 2 ∷ 0 ∷ [];
  nr_available_rmids = 2;
  rmid_allocation_policy = rmid_fifo;
  assigned_rmids = 2 ∷ [];
  assigned_room = 3;
}

get_result : get_rmid support fresh 0 100 ≡ some (2, taken)
unfolding get_rmid
get_result = refl

fresh-Inv : Inv 3 fresh
unfolding fill_rmid_pool
fresh-Inv =
    (fill_rmid_pool-Inv nodes 3 3 rmid_fifo 4 (omega arith) (omega arith) (omega arith)
      nodes-Buffers).0

abbrev no_users : ℕ → ℕ
no_users r = 0

unused : (i : ℕ) → i < 3 → (get_or fresh.node_pool i blank).ref_counter ≡ 0
unused zero h = refl
unused (suc zero) h = refl
unused (suc (suc zero)) h = refl
unused (suc (suc (suc i))) h = absurd (omega arith)

all_free : (i : ℕ) → i < 3 → (get_or fresh.node_pool i blank).free_rmid ≡ true
all_free zero h = refl
all_free (suc zero) h = refl
all_free (suc (suc zero)) h = refl
all_free (suc (suc (suc i))) h = absurd (omega arith)

fresh-Held : Held 3 fresh no_users
fresh-Held = (
  fresh-Inv,
  record {
    counted = unused;
    idle = all_free;
    busy = λ i m. absurd (not-mem-nil m);
    small = λ r. omega arith;
  },
)

taken-Held : Held 3 taken (change no_users 2 1)
taken-Held = Step-Held 3 fresh-Held (get support 0 100 2 taken get_result)

get_rmid_lem_example : Ensures (get_rmid support fresh 0 100) (Got 3 fresh)
get_rmid_lem_example = get_rmid_lem 3 support fresh 0 100 fresh-Inv

put_rmid-Held_example :
    Ensures (put_rmid taken 2) (λ p'. Held 3 p' (change (change no_users 2 1) 2 (1 - 1)))
put_rmid-Held_example = put_rmid-Held 3 taken 2 (change no_users 2 1) taken-Held (omega arith)

use_rmid-Held_example :
    Ensures (use_rmid taken 2) (λ p'. Held 3 p' (change (change no_users 2 1) 2 2))
use_rmid-Held_example =
    use_rmid-Held 3 taken 2 (change no_users 2 1) taken-Held (omega arith) (omega arith)

update_local_bandwidth_lem_example :
    Ensures (update_local_bandwidth support (node 1 (2 ^ 24 - 10)) 0 5) (λ node'.
      (get_or node'.raw_bandwidth_value 0 0 ≡ 5 % 2 ^ 24)
      × ((d : ℕ) × (d < 2 ^ 24)
          × ((2 ^ 24 - 10 + d) % 2 ^ 24 ≡ 5 % 2 ^ 24)
          × (get_or node'.bandwidth_value 0 0 ≡ d * 64 % 2 ^ 64)))
update_local_bandwidth_lem_example =
    update_local_bandwidth_lem support (node 1 (2 ^ 24 - 10)) 0 5 (omega arith) (omega arith)
      (omega arith) (omega arith)

initialize_rmid_pool-overrun_example :
    initialize_rmid_pool
      (λ m. some (node 0 0 ∷ node 0 0 ∷ []))
      (λ m. true)
      (λ m. true)
      3
      rmid_fifo
      4
      fresh
    ≡ none
initialize_rmid_pool-overrun_example =
    initialize_rmid_pool-overrun (λ m. some (node 0 0 ∷ node 0 0 ∷ [])) (λ m. true) (λ m. true) 3
      rmid_fifo 4 fresh (node 0 0 ∷ node 0 0 ∷ []) (omega arith) refl refl refl refl

Reach-Counts_example :
    Held 3 taken (change no_users 2 1)
    × Perm (map suc taken.available_rmids ++ taken.assigned_rmids) (run 1 3)
    × Nodup (map suc taken.available_rmids ++ taken.assigned_rmids)
Reach-Counts_example = Reach-Counts 3 fresh-Held (next here (get support 0 100 2 taken get_result))
