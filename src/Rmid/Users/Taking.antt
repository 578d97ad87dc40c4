-- ===== src/Rmid/Users/Taking.antt =====
-- Taking an RMID, get_rmid of src/modules/pmcs/intel_rdt_core.c, and its users.
use mathlib.Core.List.{Mem-prop, mem-append, mem-cons, not-mem-nil}
use mathlib.Core.Logic.Or
use pmctrack.Prelude.{
  ℕ, ◌+◌, ◌<◌, ◌≡◌, ap, sym, subst, ◌∙◌, inl, inr, [], ◌∷◌, ◌++◌, false, ◌==◌, length, get_or, set,
  arith, Ensures, Ensures-bind, Ensures-mono, Bool-cases, lt→ltb, add32,
}
use pmctrack.Memory.{load_in, store_in}
use pmctrack.Rmid.{
  RmidNode, CmtSupport, Pool, update_local_bandwidth, get_rmid, take_node, position,
}
use pmctrack.Rmid.Sharing.{blank, IsNode, Inv}
use pmctrack.Rmid.Nodes.{SameNode, update_local_bandwidth-SameNode}
use pmctrack.Rmid.Get.{free-Mem, free-lt, taken-room, position-lt}
use pmctrack.Rmid.Users.{change, Counts, Uses, Held, set-Counts, available-idle, change-zero}

take_node-Uses :
    (n : ℕ) (support : CmtSupport) (p : Pool) (val k : ℕ) (users : ℕ → ℕ)
    → Inv n p
    → Uses n p users
    → k < length p.available_rmids
    → Ensures (take_node support p val k) (λ r. (users r.0 ≡ 0) × Uses n r.1 (change users r.0 1))
unfolding take_node
take_node-Uses n support p val k users inv c h = rw (load_in p.available_rmids k 0 h) (
    rw (load_in p.node_pool i blank inside) (
      rw (lt→ltb _ _ (taken-room n p inv (omega arith))) (
        Ensures-bind (update_local_bandwidth support held 0 val) (SameNode held) _ _
          (update_local_bandwidth-SameNode support held 0 val is.raws is.values)
          (λ node' same. rw (store_in p.node_pool i node' inside) (
            ap users is.numbered ∙ none,
            subst
                (λ r.
                  Counts n (set p.node_pool i node') (p.assigned_rmids ++ node.rmid ∷ [])
                    (change users r 1))
                (sym is.numbered)
                (set-Counts n i 1 p.node_pool node' p.assigned_rmids
                  (p.assigned_rmids ++ node.rmid ∷ []) users c inside (omega arith)
                  (same.counter ∙ omega (arith, c.counted i below, none)) same.free
                  (λ _. omega arith)
                  (λ j ne m.
                    Or.elim Mem-prop (mem-append.0 m) (λ q. q)
                      (λ q.
                        Or.elim Mem-prop (mem-cons.0 q)
                          (λ e. absurd (ne (omega (arith, e, is.numbered))))
                          (λ z. absurd (not-mem-nil z))))),
          )))))
  where
    i : ℕ
    i = get_or p.available_rmids k 0

    node : RmidNode
    node = get_or p.node_pool i blank

    below : i < n
    below = free-lt n p inv k h

    inside : i < length p.node_pool
    inside = omega (arith, below, inv.allocated)

    is : IsNode i p.assigned_rmids node
    is = inv.nodes i below

    held : RmidNode
    held = record node { free_rmid = false; ref_counter = add32 node.ref_counter 1 }

    none : users (i + 1) ≡ 0
    none = available-idle n i p users inv c below (free-Mem n p inv k h)

pub get_rmid-Uses :
    (n : ℕ) (support : CmtSupport) (p : Pool) (random val : ℕ) (users : ℕ → ℕ)
    → Held n p users
    → Ensures (get_rmid support p random val) (λ r. Uses n r.1 (change users r.0 1))
unfolding get_rmid
get_rmid-Uses n support p random val users (inv, c) =
    elim (Bool-cases (length p.available_rmids == 0)) [
      | inl e ↦ rw e (change-zero n p users 1 (omega arith) c)
      | inr e ↦ rw e (
          Ensures-bind
            (position p.rmid_allocation_policy (length p.available_rmids) p.nr_available_rmids
              random)
            (λ k. k < length p.available_rmids) _ _
            (position-lt n p inv p.rmid_allocation_policy random (ground (arith, e)))
            (λ k h.
              Ensures-mono (take_node support p val k) _ _
                (take_node-Uses n support p val k users inv c h) (λ r u. u.1)))
    ]
