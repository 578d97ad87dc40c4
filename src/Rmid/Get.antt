-- ===== src/Rmid/Get.antt =====
-- Taking an RMID from the pool.
use mathlib.Core.List.{Perm, Mem, map-append, mem-append_right, mem-append_left, mem-cons_self}
use mathlib.Core.List.Perm
use pmctrack.Prelude.{
  ℕ, suc, ◌+◌, ◌-◌, ◌<◌, ◌≡◌, refl, ap, sym, subst, ◌∙◌, ◌⊎◌, inl, inr, List, [], ◌∷◌, ◌++◌, false,
  ◌==◌, length, get_or, take, drop, map, arith, Ensures, Ensures-bind, Bool-cases, lt→ltb, add32,
  length-set, length-append, length-take, length-drop, length-map,
}
use native.Mathlib.Nat.{mod-lt}
use pmctrack.Memory.{rem_pos, load_in, store_in}
use pmctrack.Rmid.{
  RmidNode, Policy, CmtSupport, rmid_fifo, rmid_lifo, rmid_random, Pool, update_local_bandwidth,
  get_rmid, take_node, position,
}
use pmctrack.Prelude.Runs.{run, length-run, length-perm, mem-run}
use pmctrack.Rmid.Sharing.{blank, IsNode, Inv, set-nodes}
use pmctrack.Rmid.Nodes.{split_at, move_perm, SameNode, update_local_bandwidth-SameNode}

module _ (n : ℕ) (p : Pool) (inv : Inv n p) where
  pub free-Mem :
      (k : ℕ)
      → k < length p.available_rmids
      → Mem (suc (get_or p.available_rmids k 0)) (map suc p.available_rmids)
  free-Mem k h =
      let xs = p.available_rmids in
      subst (λ l. Mem (suc (get_or xs k 0)) (map suc l)) (sym (split_at k xs h))
        (subst (Mem (suc (get_or xs k 0)))
          (sym (map-append suc (take k xs) (get_or xs k 0 ∷ drop (suc k) xs)))
          (mem-append_right _ mem-cons_self))

  -- A position of the list holds the number of a node.
  pub free-lt : (k : ℕ) → k < length p.available_rmids → get_or p.available_rmids k 0 < n
  free-lt k h = omega (
    arith,
    mem-run (suc (get_or p.available_rmids k 0)) 1 n
        (Perm.subset inv.parts _ (mem-append_left _ (free-Mem k h))),
  )

  taken-parts :
      (k : ℕ)
      → k < length p.available_rmids
      → Perm
          (map suc (take k p.available_rmids ++ drop (suc k) p.available_rmids)
            ++ (p.assigned_rmids ++ suc (get_or p.available_rmids k 0) ∷ []))
          (run 1 n)
  taken-parts k h =
      let x = get_or p.available_rmids k 0 in
      let t = take k p.available_rmids in
      let d = drop (suc k) p.available_rmids in
      let old : map suc p.available_rmids ≡ map suc t ++ suc x ∷ map suc d =
        ap (map suc) (split_at k p.available_rmids h) ∙ map-append suc t (x ∷ d) in
      Perm.trans
        (subst
          (λ l.
            Perm (l ++ (p.assigned_rmids ++ suc x ∷ []))
              ((map suc t ++ suc x ∷ map suc d) ++ p.assigned_rmids))
          (sym (map-append suc t d)) (move_perm (map suc t) (map suc d) p.assigned_rmids (suc x)))
        (subst (λ l. Perm (l ++ p.assigned_rmids) (run 1 n)) old inv.parts)

  taken-counted :
      (k : ℕ)
      → k < length p.available_rmids
      → p.nr_available_rmids - 1
        ≡ length (take k p.available_rmids ++ drop (suc k) p.available_rmids)
  taken-counted k h = omega (
    arith,
    inv.counted,
    length-append (take k p.available_rmids) (drop (suc k) p.available_rmids),
    length-take k p.available_rmids,
    length-drop (suc k) p.available_rmids,
  )

  -- There is room for one more assigned RMID while one is free.
  pub taken-room : 0 < length p.available_rmids → length p.assigned_rmids < p.assigned_room
  taken-room h = omega (
    arith,
    inv.roomy,
    length-append (map suc p.available_rmids) p.assigned_rmids,
    length-map suc p.available_rmids,
    length-perm inv.parts,
    length-run 1 n,
  )

  pub position-lt :
      (q : Policy) (random : ℕ)
      → 0 < length p.available_rmids
      → Ensures
          (position q (length p.available_rmids) p.nr_available_rmids random)
          (λ k. k < length p.available_rmids)
  unfolding position
  position-lt rmid_fifo random h = h
  position-lt rmid_lifo random h = omega arith
  position-lt rmid_random random h =
      rw (rem_pos random p.nr_available_rmids (omega (arith, inv.counted))) (
        let l = mod-lt random {m = p.nr_available_rmids} (omega (arith, inv.counted)) in
        omega (arith, inv.counted, l))

-- The result of `get_rmid`: none is free, or one that was free is now assigned.
unfoldable pub Got : ℕ → Pool → ℕ × Pool → Type 0
Got n p (r, p') =
    Inv n p'
    × (((r ≡ 0) × (p.available_rmids ≡ []) × (p' ≡ p))
        ⊎ (Mem r (map suc p.available_rmids) × (p'.assigned_rmids ≡ p.assigned_rmids ++ r ∷ [])))

nothing : (xs : List ℕ) → length xs ≡ 0 → xs ≡ []
nothing [] e = refl
nothing (x ∷ xs) e = absurd (omega arith)

take_node-Got :
    (n : ℕ) (support : CmtSupport) (p : Pool) (val k : ℕ)
    → Inv n p
    → k < length p.available_rmids
    → Ensures (take_node support p val k) (Got n p)
unfolding take_node Got
take_node-Got n support p val k inv h = rw (load_in p.available_rmids k 0 h) (
    rw (load_in p.node_pool i blank inside) (
      rw (lt→ltb _ _ (taken-room n p inv (omega arith))) (
        Ensures-bind (update_local_bandwidth support held 0 val) (SameNode held) _ _
          (update_local_bandwidth-SameNode support held 0 val is.raws is.values)
          (λ node' same. rw (store_in p.node_pool i node' inside) (
            record {
              allocated = omega (arith, length-set p.node_pool i node', inv.allocated);
              nodes =
                  set-nodes n i p.node_pool node' p.assigned_rmids
                    (p.assigned_rmids ++ node.rmid ∷ []) inside
                    (record {
                      numbered = same.rmid ∙ is.numbered;
                      used = λ _.
                          mem-append_right p.assigned_rmids
                            (subst (λ r. Mem (i + 1) (r ∷ [])) (sym is.numbered) mem-cons_self);
                      raws = omega (arith, same.raws, is.raws);
                      values = omega (arith, same.values, is.values);
                    })
                    (λ j _ m. mem-append_left _ m) inv.nodes;
              counted = taken-counted n p inv k h;
              parts =
                  subst
                    (λ r.
                      Perm
                        (map suc (take k p.available_rmids ++ drop (suc k) p.available_rmids)
                          ++ (p.assigned_rmids ++ r ∷ []))
                        (run 1 n))
                    (sym number) (taken-parts n p inv k h);
              roomy = inv.roomy;
            },
            inr (
              subst (λ r. Mem r (map suc p.available_rmids)) (sym number) (free-Mem n p inv k h),
              refl,
            ),
          )))))
  where
    i : ℕ
    i = get_or p.available_rmids k 0

    node : RmidNode
    node = get_or p.node_pool i blank

    below : i < n
    below = free-lt n p inv k h

    inside : i < length p.node_pool
    inside = omega (arith, below, inv.allocated)

    is : IsNode i p.assigned_rmids node
    is = inv.nodes i below

    number : node.rmid ≡ suc i
    number = is.numbered ∙ omega arith

    held : RmidNode
    held = record node { free_rmid = false; ref_counter = add32 node.ref_counter 1 }

-- While every RMID is free or assigned once, `get_rmid` never faults, whatever the policy, the
-- random number and the reading: it returns 0 exactly when none is free and changes nothing then,
-- and otherwise an RMID that was free, which it appends to the assigned ones; every RMID is again
-- free or assigned once.
pub get_rmid_lem :
    (n : ℕ) (support : CmtSupport) (p : Pool) (random val : ℕ)
    → Inv n p
    → Ensures (get_rmid support p random val) (Got n p)
unfolding get_rmid Got
get_rmid_lem n support p random val inv = elim (Bool-cases (length p.available_rmids == 0)) [
  | inl e ↦ rw e (inv, inl (refl, nothing p.available_rmids (ground (arith, e)), refl))
  | inr e ↦ rw e (
      Ensures-bind
        (position p.rmid_allocation_policy (length p.available_rmids) p.nr_available_rmids random)
        (λ k. k < length p.available_rmids) _ _
        (position-lt n p inv p.rmid_allocation_policy random (ground (arith, e)))
        (λ k h. take_node-Got n support p val k inv h))
]
