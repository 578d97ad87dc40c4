-- ===== src/Rmid/Nodes.antt =====
-- Lists of ids and their nodes, for the search of get_rmid in src/modules/pmcs/intel_rdt_core.c.
use mathlib.Core.List.{Perm, perm_middle}
use mathlib.Core.List.Perm
use pmctrack.Prelude.{
  ℕ, zero, suc, ◌*◌, ◌%◌, ◌^◌, ◌<◌, ◌≡◌, refl, ap, sym, subst, inl, inr, List, [], ◌∷◌, ◌++◌, leb,
  length, get_or, take, drop, append-nil, append_assoc, arith, Ensures, Bool-cases,
  take-append-drop, length-set,
}
use pmctrack.Memory.{load_in, store_in}
use pmctrack.Rmid.{RmidNode, CmtSupport, advance, update_local_bandwidth}

pub split_at :
    (k : ℕ) (xs : List ℕ) → k < length xs → xs ≡ take k xs ++ get_or xs k 0 ∷ drop (suc k) xs
split_at k [] h = absurd (omega arith)
split_at zero (x ∷ xs) h = ap (λ l. x ∷ l) (sym (take-append-drop 0 xs))
split_at (suc k) (x ∷ xs) h = ap (λ l. x ∷ l) (split_at k xs (omega arith))

-- An item moves from the first list to the end of the second.
pub move_perm : (A C D : List ℕ) (b : ℕ) → Perm ((A ++ C) ++ (D ++ b ∷ [])) ((A ++ b ∷ C) ++ D)
move_perm A C D b =
    Perm.trans
      (subst (λ l. Perm l (b ∷ ((A ++ C) ++ D))) (append_assoc (A ++ C) D (b ∷ []))
        (subst (λ l. Perm (((A ++ C) ++ D) ++ b ∷ []) (b ∷ l)) (append-nil ((A ++ C) ++ D))
          (perm_middle ((A ++ C) ++ D) [])))
      (Perm.symm (Perm.append_right D (perm_middle A C)))

-- Reading the counter leaves all else of a node as it is.
pub record SameNode (node node' : RmidNode) : Type 0 where
  pub rmid : node'.rmid ≡ node.rmid
  pub free : node'.free_rmid ≡ node.free_rmid
  pub counter : node'.ref_counter ≡ node.ref_counter
  pub raws : length node'.raw_bandwidth_value ≡ length node.raw_bandwidth_value
  pub values : length node'.bandwidth_value ≡ length node.bandwidth_value

pub update_local_bandwidth-SameNode :
    (support : CmtSupport) (node : RmidNode) (llc_id val : ℕ)
    → llc_id < length node.raw_bandwidth_value
    → llc_id < length node.bandwidth_value
    → Ensures (update_local_bandwidth support node llc_id val) (SameNode node)
unfolding update_local_bandwidth
update_local_bandwidth-SameNode support node llc_id val r b = elim (Bool-cases (leb (2 ^ 62) val)) [
  | inl e ↦ rw e (record { rmid = refl; free = refl; counter = refl; raws = refl; values = refl })
  | inr e ↦
      let m = val % 2 ^ support.count_width in
      let bandwidth =
        advance support.count_width (get_or node.raw_bandwidth_value llc_id 0) m
        * support.upscaling_factor
        % 2 ^ 64 in
      rw e (
        rw (load_in node.raw_bandwidth_value llc_id 0 r) (
          rw (store_in node.bandwidth_value llc_id bandwidth b) (
            rw (store_in node.raw_bandwidth_value llc_id m r) (record {
              rmid = refl;
              free = refl;
              counter = refl;
              raws = length-set node.raw_bandwidth_value llc_id m;
              values = length-set node.bandwidth_value llc_id bandwidth;
            }))))
]
