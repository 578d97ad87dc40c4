-- ===== src/Rmid/Put.antt =====
-- Using an RMID once more, and giving it back.
use mathlib.Core.List.{Perm, Mem, map-append, Mem-prop, Perm-prop, mem-cons, not-mem-nil}
use mathlib.Core.Logic.Or
use mathlib.Core.List.Perm
use pmctrack.Prelude.{
  ℕ, suc, ◌+◌, ◌-◌, ◌≤◌, ◌<◌, ◌≡◌, ◌≢◌, refl, ap, sym, subst, ◌∙◌, inl, inr, List, [], ◌∷◌, ◌++◌,
  Option, some, Bool, true, false, ◌==◌, if◌then◌else◌, ◌>>=◌, length, get_or, set, map,
  append_assoc, arith, Ensures, Bool-cases, length-set, ℕ_discrete, length-append, add32, sub32,
}
use pmctrack.Memory.{store, load_in, store_in}
use pmctrack.Rmid.{RmidNode, Pool, put_rmid, release, use_rmid, compact}
use pmctrack.Prelude.Runs.{run}
use pmctrack.Rmid.Sharing.{blank, IsNode, Inv, set-nodes}

pub compact-Perm : (r : ℕ) (xs : List ℕ) → Mem r xs → Perm (r ∷ compact r xs) xs
unfolding compact
compact-Perm r [] m = absurd (not-mem-nil m)
compact-Perm r (x ∷ []) m =
    Or.elim Perm-prop (mem-cons.0 m)
      (λ e. subst (λ z. Perm (r ∷ []) (z ∷ [])) e (Perm.refl (r ∷ [])))
      (λ q. absurd (not-mem-nil q))
compact-Perm r (x ∷ y ∷ ys) m = elim (ℕ_discrete x r) [
  | yes e ↦
      let b : (x == r) ≡ true = ground arith in
      rw b (subst (λ z. Perm (r ∷ y ∷ ys) (z ∷ y ∷ ys)) (sym e) (Perm.refl (r ∷ y ∷ ys)))
  | no ne ↦
      let b : (x == r) ≡ false = ground arith in
      rw b (
        Or.elim Perm-prop (mem-cons.0 m) (λ q. absurd (ne (sym q)))
          (λ q.
            Perm.trans (Perm.swap x r (compact r (y ∷ ys)))
              (Perm.cons x (compact-Perm r (y ∷ ys) q))))
]

module _ (n : ℕ) (p : Pool) (inv : Inv n p) (i : ℕ) (below : i < n) where
  abbrev node : RmidNode
  node = get_or p.node_pool i blank

  inside : i < length p.node_pool
  inside = omega (arith, below, inv.allocated)

  is : IsNode i p.assigned_rmids node
  is = inv.nodes i below

  free-parts :
      Mem (suc i) p.assigned_rmids
      → Perm (map suc (p.available_rmids ++ i ∷ []) ++ compact (suc i) p.assigned_rmids) (run 1 n)
  free-parts m =
      Perm.trans
        (subst (λ l. Perm l (map suc p.available_rmids ++ p.assigned_rmids))
          (sym (
            ap (λ l. l ++ compact (suc i) p.assigned_rmids)
              (map-append suc p.available_rmids (i ∷ []))
            ∙ append_assoc (map suc p.available_rmids) (suc i ∷ [])
                (compact (suc i) p.assigned_rmids)))
          (Perm.append_left (map suc p.available_rmids) (compact-Perm (suc i) p.assigned_rmids m)))
        inv.parts

  kept :
      Mem (suc i) p.assigned_rmids
      → (j : ℕ) → j ≢ i
      → Mem (j + 1) p.assigned_rmids
      → Mem (j + 1) (compact (suc i) p.assigned_rmids)
  kept m j ne q =
      Or.elim Mem-prop
        (mem-cons.0 (Perm.subset (Perm.symm (compact-Perm (suc i) p.assigned_rmids m)) _ q))
        (λ e. absurd (ne (omega (arith, e)))) (λ r. r)

  -- A node that changes in nothing but its counter
  same-nodes :
      (c : ℕ)
      → (j : ℕ) → j < n
      → IsNode j p.assigned_rmids
          (get_or (set p.node_pool i (record node { ref_counter = c })) j blank)
  same-nodes c =
      set-nodes n i p.node_pool (record node { ref_counter = c }) p.assigned_rmids p.assigned_rmids
        inside
        (record { numbered = is.numbered; used = is.used; raws = is.raws; values = is.values })
        (λ j _ m. m) inv.nodes

  counter-Inv :
      (c : ℕ) → Inv n (record p { node_pool = set p.node_pool i (record node { ref_counter = c }) })
  counter-Inv c = record {
    allocated =
        omega (arith, length-set p.node_pool i (record node { ref_counter = c }), inv.allocated);
    nodes = same-nodes c;
    counted = inv.counted;
    parts = inv.parts;
    roomy = inv.roomy;
  }

  counted-Inv :
      (c : ℕ)
      → Ensures
          (store p.node_pool i (record node { ref_counter = c }) >>= λ nodes.
            some (record p { node_pool = nodes }))
          (λ p'.
            Inv n p'
            × (p'.available_rmids ≡ p.available_rmids)
            × (p'.assigned_rmids ≡ p.assigned_rmids))
  counted-Inv c =
      rw (store_in p.node_pool i (record node { ref_counter = c }) inside)
        (counter-Inv c, refl, refl)

  pub freed-Inv :
      Mem (suc i) p.assigned_rmids
      → Inv n (record p {
        node_pool = set p.node_pool i (record node { ref_counter = 0; free_rmid = true });
        available_rmids = p.available_rmids ++ i ∷ [];
        nr_available_rmids = p.nr_available_rmids + 1;
        assigned_rmids = compact node.rmid p.assigned_rmids;
      })
  freed-Inv m = record {
    allocated = omega (arith, length-set p.node_pool i freed, inv.allocated);
    nodes =
        set-nodes n i p.node_pool freed p.assigned_rmids (compact node.rmid p.assigned_rmids) inside
          (record {
            numbered = is.numbered;
            used = λ q. absurd (cc q);
            raws = is.raws;
            values = is.values;
          })
          (λ j ne q.
            subst (λ r. Mem (j + 1) (compact r p.assigned_rmids)) (sym number) (kept m j ne q))
          inv.nodes;
    counted = omega (arith, inv.counted, length-append p.available_rmids (i ∷ []));
    parts =
        subst
          (λ r.
            Perm (map suc (p.available_rmids ++ i ∷ []) ++ compact r p.assigned_rmids) (run 1 n))
          (sym number) (free-parts m);
    roomy = inv.roomy;
  }
    where
      number : node.rmid ≡ suc i
      number = is.numbered ∙ omega arith

      freed : RmidNode
      freed = record node { ref_counter = 0; free_rmid = true }

  release-Inv : node.free_rmid ≡ false → Ensures (release p i node) (Inv n)
  unfolding release
  release-Inv f = elim (Bool-cases (sub32 node.ref_counter 1 == 0)) [
    | inl e ↦ rw e (
        rw (store_in p.node_pool i (record node { ref_counter = 0; free_rmid = true }) inside)
          (freed-Inv (subst (λ x. Mem x p.assigned_rmids) (omega arith) (is.used f))))
    | inr e ↦ rw e (
        rw (store_in p.node_pool i (record node { ref_counter = sub32 node.ref_counter 1 }) inside)
          (counter-Inv (sub32 node.ref_counter 1)))
  ]

pub if_or :
    (b : Bool) (m : Option Pool) (p : Pool) (Q : Pool → Type 0)
    → Q p
    → (b ≡ false → Ensures m Q)
    → Ensures (if b then some p else m) Q
if_or true m p Q h k = h
if_or false m p Q h k = k refl

-- While every RMID is free or assigned once, giving back any RMID up to `n` never faults, and leaves
-- every RMID free or assigned once.
pub put_rmid-Inv :
    (n : ℕ) (p : Pool) (rmid : ℕ) → Inv n p → rmid ≤ n → Ensures (put_rmid p rmid) (Inv n)
unfolding put_rmid
put_rmid-Inv n p rmid inv h = elim (Bool-cases (rmid == 0)) [
  | inl e ↦ rw e inv
  | inr e ↦
      let below : rmid - 1 < n = ground (arith, e) in
      rw e (
        rw (load_in p.node_pool (rmid - 1) blank (omega (arith, below, inv.allocated)))
          (if_or _ _ p (Inv n) inv (λ f. release-Inv n p inv (rmid - 1) below f)))
]

-- While every RMID is free or assigned once, using one up to `n` again never faults, keeps that, and
-- changes neither list.
pub use_rmid-Inv :
    (n : ℕ) (p : Pool) (rmid : ℕ)
    → Inv n p
    → rmid ≤ n
    → Ensures (use_rmid p rmid) (λ p'.
      Inv n p' × (p'.available_rmids ≡ p.available_rmids) × (p'.assigned_rmids ≡ p.assigned_rmids))
unfolding use_rmid
use_rmid-Inv n p rmid inv h = elim (Bool-cases (rmid == 0)) [
  | inl e ↦ rw e (inv, refl, refl)
  | inr e ↦
      let below : rmid - 1 < n = ground (arith, e) in
      let inside : rmid - 1 < length p.node_pool = omega (arith, below, inv.allocated) in
      let node = get_or p.node_pool (rmid - 1) blank in
      rw e (
        rw (load_in p.node_pool (rmid - 1) blank inside) (
          if_or _ _ p
            (λ p'.
              Inv n p'
              × (p'.available_rmids ≡ p.available_rmids)
              × (p'.assigned_rmids ≡ p.assigned_rmids))
            (inv, refl, refl)
            (λ f. counted-Inv n p inv (rmid - 1) below (add32 node.ref_counter 1))))
]
