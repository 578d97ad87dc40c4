-- ===== src/Rmid/Users.antt =====
-- Who uses each RMID: taking, using and giving back an RMID of src/modules/pmcs/intel_rdt_core.c counts
-- its users.
pub mod Taking
pub mod Giving
use mathlib.Core.List.{
  Perm, Mem, Mem-prop, Nodup, Nodup-append, mem-map_of_mem, mem-append, mem-append_left,
  mem-append_right, mem-cons, mem-cons_self, mem-cons_of_mem, not-mem-nil,
}
use mathlib.Core.Logic.Or
use mathlib.Core.List.Perm
use pmctrack.Prelude.{
  ℕ, zero, suc, ◌+◌, ◌-◌, ◌^◌, ◌≤◌, ◌<◌, ◌≡◌, ◌≢◌, refl, ap, sym, subst, ◌∙◌, ◌⊎◌, inl, inr, List,
  [], ◌∷◌, ◌++◌, Option, none, some, Bool, true, false, ◌==◌, if◌then◌else◌, ◌>>=◌, length, get_or,
  set, take, drop, map, arith, Ensures, Ensures-bind, Ensures-mono, Bool-cases, lt→ltb, add32,
  sub32, get_or-set_self, get_or-set_ne, ℕ_discrete, fun_ext,
}
use pmctrack.Memory.{store, load_in, store_in}
use pmctrack.Rmid.{
  RmidNode, Policy, CmtSupport, Pool, update_local_bandwidth, get_rmid, take_node, position,
  put_rmid, release, use_rmid, compact,
}
use pmctrack.Prelude.Runs.{run, run-Nodup}
use pmctrack.Rmid.Sharing.{blank, IsNode, Inv}
use pmctrack.Rmid.Nodes.{SameNode, update_local_bandwidth-SameNode}
use pmctrack.Rmid.Get.{free-Mem, free-lt, taken-room, position-lt}
use pmctrack.Rmid.Put.{compact-Perm, freed-Inv, put_rmid-Inv, use_rmid-Inv, if_or}

-- The number of users of each RMID after that of `rmid` has become `v`
abbrev pub change : (ℕ → ℕ) → ℕ → ℕ → ℕ → ℕ
change users rmid v r = if r == rmid then v else users r

change_self : (users : ℕ → ℕ) (rmid v r : ℕ) → r ≡ rmid → change users rmid v r ≡ v
change_self users rmid v r e = ground (arith, e)

change_other : (users : ℕ → ℕ) (rmid v r : ℕ) → r ≢ rmid → change users rmid v r ≡ users r
change_other users rmid v r n = ground (arith, n)

-- The RMIDs up to `n`, of the nodes `nodes`: each counts its users, and is free just when it has none;
-- those that are assigned have one.
pub record Counts (n : ℕ) (nodes : List RmidNode) (assigned : List ℕ) (users : ℕ → ℕ) : Type 0 where
  pub counted : (i : ℕ) → i < n → (get_or nodes i blank).ref_counter ≡ users (i + 1)
  pub idle : (i : ℕ) → i < n → (get_or nodes i blank).free_rmid ≡ (users (i + 1) == 0)
  pub busy : (i : ℕ) → Mem (i + 1) assigned → 0 < users (i + 1)
  pub small : (r : ℕ) → users r < 2 ^ 32

abbrev pub Uses : ℕ → Pool → (ℕ → ℕ) → Type 0
Uses n p users = Counts n p.node_pool p.assigned_rmids users

-- One node changes.
pub set-Counts :
    (n i v : ℕ) (nodes : List RmidNode) (node : RmidNode) (asg asg' : List ℕ) (users : ℕ → ℕ)
    → Counts n nodes asg users
    → i < length nodes
    → v < 2 ^ 32
    → node.ref_counter ≡ v
    → node.free_rmid ≡ (v == 0)
    → (Mem (i + 1) asg' → 0 < v)
    → ((j : ℕ) → j ≢ i → Mem (j + 1) asg' → Mem (j + 1) asg)
    → Counts n (set nodes i node) asg' (change users (i + 1) v)
set-Counts n i v nodes node asg asg' users c l small counter free self others = record {
  counted = λ j h. elim (ℕ_discrete j i) [
    | yes e ↦
        ap (λ k. (get_or (set nodes i node) k blank).ref_counter) e
        ∙ ap RmidNode.ref_counter (get_or-set_self nodes i node blank l)
        ∙ counter
        ∙ sym (change_self users (i + 1) v (j + 1) (omega arith))
    | no ne ↦
        ap RmidNode.ref_counter (get_or-set_ne nodes i j node blank (λ q. ne (sym q)))
        ∙ c.counted j h
        ∙ sym (change_other users (i + 1) v (j + 1) (λ q. ne (omega arith)))
  ];
  idle = λ j h. elim (ℕ_discrete j i) [
    | yes e ↦
        ap (λ k. (get_or (set nodes i node) k blank).free_rmid) e
        ∙ ap RmidNode.free_rmid (get_or-set_self nodes i node blank l)
        ∙ free
        ∙ ap (λ u. u == 0) (sym (change_self users (i + 1) v (j + 1) (omega arith)))
    | no ne ↦
        ap RmidNode.free_rmid (get_or-set_ne nodes i j node blank (λ q. ne (sym q)))
        ∙ c.idle j h
        ∙ ap (λ u. u == 0) (sym (change_other users (i + 1) v (j + 1) (λ q. ne (omega arith))))
  ];
  busy = λ j m. elim (ℕ_discrete j i) [
    | yes e ↦ omega (
      arith,
      change_self users (i + 1) v (j + 1) (omega arith),
      self (subst (λ k. Mem (k + 1) asg') e m),
    )
    | no ne ↦ omega (
      arith,
      change_other users (i + 1) v (j + 1) (λ q. ne (omega arith)),
      c.busy j (others j ne m),
    )
  ];
  small = λ r. ground (arith, c.small r);
}

-- No RMID is free and assigned.
pub apart :
    (n i : ℕ) (p : Pool)
    → Inv n p
    → Mem (suc i) (map suc p.available_rmids)
    → ¬ Mem (suc i) p.assigned_rmids
apart n i p inv m q =
    let d = Nodup-append.0 (Perm.nodup (Perm.symm inv.parts) (run-Nodup 1 n)) in d.2 (suc i) m q

pub available-idle :
    (n i : ℕ) (p : Pool) (users : ℕ → ℕ)
    → Inv n p
    → Uses n p users
    → i < n
    → Mem (suc i) (map suc p.available_rmids)
    → users (i + 1) ≡ 0
available-idle n i p users inv c h m = elim (Bool-cases (users (i + 1) == 0)) [
  | inl e ↦ ground arith
  | inr e ↦ absurd (
      apart n i p inv m
        (subst (λ r. Mem r p.assigned_rmids) (omega arith) ((inv.nodes i h).used (c.idle i h ∙ e))))
]

-- Of an RMID that no one uses, nothing changes when it is given back.
pub change-same :
    (n : ℕ) (p : Pool) (users : ℕ → ℕ) (rmid : ℕ)
    → Uses n p users
    → (v : ℕ) → users rmid ≡ v
    → Uses n p (change users rmid v)
change-same n p users rmid c v e = subst (λ u. Uses n p u) (fun_ext (λ r. same r)) c
  where
    same : (r : ℕ) → users r ≡ change users rmid v r
    same r = elim (ℕ_discrete r rmid) [
      | yes k ↦ ap users k ∙ e ∙ sym (change_self users rmid v r k)
      | no ne ↦ sym (change_other users rmid v r ne)
    ]

-- 0 is no RMID.
pub change-zero :
    (n : ℕ) (p : Pool) (users : ℕ → ℕ) (v : ℕ)
    → v < 2 ^ 32
    → Uses n p users
    → Uses n p (change users 0 v)
change-zero n p users v h c = record {
  counted = λ i l. c.counted i l ∙ sym (change_other users 0 v (i + 1) (λ q. omega arith));
  idle = λ i l.
      c.idle i l ∙ ap (λ u. u == 0) (sym (change_other users 0 v (i + 1) (λ q. omega arith)));
  busy = λ i m. omega (arith, c.busy i m, change_other users 0 v (i + 1) (λ q. omega arith));
  small = λ r. ground (arith, c.small r);
}

-- What a call leaves of a pool and its users
abbrev pub Held : ℕ → Pool → (ℕ → ℕ) → Type 0
Held n p users = Inv n p × Uses n p users

pub Ensures-both {ℓ} :
    {A : Type ℓ} (m : Option A) (P Q : A → Type 0)
    → Ensures m P
    → Ensures m Q
    → Ensures m (λ a. P a × Q a)
Ensures-both none P Q h k = h
Ensures-both (some a) P Q h k = (h, k)
