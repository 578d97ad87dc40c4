-- ===== src/Rmid/Sharing.antt =====
-- Every RMID is free or assigned, and only once.
use mathlib.Core.List.{Perm, Mem}
use pmctrack.Prelude.{
  ℕ, suc, ◌+◌, ◌≤◌, ◌<◌, ◌≡◌, ◌≢◌, sym, List, [], ◌++◌, true, false, length, get_or, set, map,
  get_or-set_self, get_or-set_ne, ℕ_discrete,
}
use pmctrack.Prelude.Runs.{run}
use pmctrack.Rmid.{RmidNode, Pool}

abbrev pub blank : RmidNode
blank = record {
  rmid = 0;
  ref_counter = 0;
  free_rmid = true;
  raw_bandwidth_value = [];
  bandwidth_value = [];
}

-- The node of RMID `i` + 1, with the RMIDs that are assigned.
pub record IsNode (i : ℕ) (assigned : List ℕ) (node : RmidNode) : Type 0 where
  pub numbered : node.rmid ≡ i + 1
  pub used : node.free_rmid ≡ false → Mem (i + 1) assigned
  pub raws : 0 < length node.raw_bandwidth_value
  pub values : 0 < length node.bandwidth_value

-- The RMIDs from 1 to `n` are each free or assigned, and only once, and there is room for all.
pub record Inv (n : ℕ) (p : Pool) : Type 0 where
  pub allocated : n ≤ length p.node_pool
  pub nodes : (i : ℕ) → i < n → IsNode i p.assigned_rmids (get_or p.node_pool i blank)
  pub counted : p.nr_available_rmids ≡ length p.available_rmids
  pub parts : Perm (map suc p.available_rmids ++ p.assigned_rmids) (run 1 n)
  pub roomy : n ≤ p.assigned_room

-- One node changes, and the RMIDs that are assigned do.
pub set-nodes :
    (n i : ℕ) (nodes : List RmidNode) (node : RmidNode) (asg asg' : List ℕ)
    → i < length nodes
    → IsNode i asg' node
    → ((j : ℕ) → j ≢ i → Mem (j + 1) asg → Mem (j + 1) asg')
    → ((j : ℕ) → j < n → IsNode j asg (get_or nodes j blank))
    → (j : ℕ) → j < n
    → IsNode j asg' (get_or (set nodes i node) j blank)
set-nodes n i nodes node asg asg' l v keep all j h = elim (ℕ_discrete j i) [
  | yes e ↦ rw (e, get_or-set_self nodes i node blank l) v
  | no ne ↦
      let old = all j h in
      rw (get_or-set_ne nodes i j node blank (λ q. ne (sym q))) (record {
        numbered = old.numbered;
        used = λ f. keep j ne (old.used f);
        raws = old.raws;
        values = old.values;
      })
]
