-- ===== src/Rmid/Users/Giving.antt =====
-- Giving back and using again an RMID, put_rmid and use_rmid of src/modules/pmcs/intel_rdt_core.c, and
-- its users.
use mathlib.Core.List.{Mem, mem-map_of_mem, mem-append_right, mem-cons_self, mem-cons_of_mem}
use mathlib.Core.List.Perm
use pmctrack.Prelude.{
  ℕ, suc, ◌+◌, ◌-◌, ◌^◌, ◌≤◌, ◌<◌, ◌≡◌, refl, ap, sym, subst, ◌∙◌, inl, inr, Option, some, Bool,
  true, false, ◌==◌, if◌then◌else◌, ◌>>=◌, length, get_or, set, arith, Ensures, Ensures-mono,
  Bool-cases, add32, sub32,
}
use pmctrack.Memory.{store, load_in, store_in}
use pmctrack.Rmid.{RmidNode, Pool, put_rmid, release, use_rmid, compact}
use pmctrack.Rmid.Sharing.{blank, Inv}
use pmctrack.Rmid.Put.{compact-Perm, freed-Inv, put_rmid-Inv, use_rmid-Inv}
use pmctrack.Rmid.Users.{
  change, Counts, Uses, Held, set-Counts, apart, change-same, change-zero, Ensures-both,
}

module _ (n : ℕ) (p : Pool) (users : ℕ → ℕ) (inv : Inv n p) (c : Uses n p users) (i : ℕ)
    (below : i < n) where
  abbrev node : RmidNode
  node = get_or p.node_pool i blank

  inside : i < length p.node_pool
  inside = omega (arith, below, inv.allocated)

  listed : node.free_rmid ≡ false → Mem (suc i) p.assigned_rmids
  listed f = subst (λ r. Mem r p.assigned_rmids) (omega arith) ((inv.nodes i below).used f)

  used : node.free_rmid ≡ false → 0 < users (i + 1)
  used f = c.busy i ((inv.nodes i below).used f)

  counter-Uses :
      (v : ℕ)
      → v < 2 ^ 32
      → 0 < v
      → node.free_rmid ≡ false
      → Ensures
          (store p.node_pool i (record node { ref_counter = v }) >>= λ nodes.
            some (record p { node_pool = nodes }))
          (λ p'. Uses n p' (change users (i + 1) v))
  counter-Uses v l pos f = rw (store_in p.node_pool i (record node { ref_counter = v }) inside) (
      set-Counts n i v p.node_pool (record node { ref_counter = v }) p.assigned_rmids
        p.assigned_rmids users c inside l refl (f ∙ ground (arith, pos)) (λ _. pos) (λ j ne m. m))

  release-Uses :
      node.free_rmid ≡ false
      → Ensures (release p i node) (λ p'. Uses n p' (change users (i + 1) (users (i + 1) - 1)))
  unfolding release
  release-Uses f =
      let less : sub32 node.ref_counter 1 ≡ users (i + 1) - 1 =
        omega (arith, c.counted i below, used f, c.small (i + 1)) in
      elim (Bool-cases (sub32 node.ref_counter 1 == 0)) [
        | inl e ↦
            let free = record node { ref_counter = 0; free_rmid = true } in
            let inv' = freed-Inv n p inv i below (listed f) in
            let last : users (i + 1) - 1 ≡ 0 = ground (arith, e, less) in
            rw e (
              rw (store_in p.node_pool i free inside) (
                subst
                  (λ v.
                    Counts n (set p.node_pool i free) (compact node.rmid p.assigned_rmids)
                      (change users (i + 1) v))
                  (sym last)
                  (set-Counts n i 0 p.node_pool free p.assigned_rmids
                    (compact node.rmid p.assigned_rmids) users c inside (omega arith) refl refl
                    (λ m. absurd (
                      apart n i _ inv'
                        (mem-map_of_mem suc (mem-append_right p.available_rmids mem-cons_self))
                        (subst (λ r. Mem r (compact node.rmid p.assigned_rmids)) (omega arith) m)))
                    (λ j ne m.
                      Perm.subset
                        (compact-Perm node.rmid p.assigned_rmids (
                          subst (λ r. Mem r p.assigned_rmids) (sym (inv.nodes i below).numbered)
                            ((inv.nodes i below).used f)))
                        _ (mem-cons_of_mem node.rmid m)))))
        | inr e ↦ rw e (
            subst
              (λ v.
                Ensures
                  (store p.node_pool i (record node { ref_counter = sub32 node.ref_counter 1 })
                    >>= λ nodes. some (record p { node_pool = nodes }))
                  (λ p'. Uses n p' (change users (i + 1) v)))
              less (counter-Uses (sub32 node.ref_counter 1) (omega arith) (ground (arith, e)) f))
      ]

  none-using : node.free_rmid ≡ true → users (i + 1) ≡ 0
  none-using f = let e : (users (i + 1) == 0) ≡ true = sym (c.idle i below) ∙ f in ground arith

put_rmid-Uses :
    (n : ℕ) (p : Pool) (rmid : ℕ) (users : ℕ → ℕ)
    → Inv n p
    → Uses n p users
    → rmid ≤ n
    → Ensures (put_rmid p rmid) (λ p'. Uses n p' (change users rmid (users rmid - 1)))
unfolding put_rmid
put_rmid-Uses n p rmid users inv c h = elim (Bool-cases (rmid == 0)) [
  | inl e ↦
      let z : rmid ≡ 0 = ground arith in
      rw (z) (change-zero n p users (users 0 - 1) (omega (arith, c.small 0)) c)
  | inr e ↦
      let i = rmid - 1 in
      let below : i < n = ground (arith, e) in
      let k : i + 1 ≡ rmid = ground (arith, e) in
      rw e (
        rw (load_in p.node_pool i blank (omega (arith, below, inv.allocated))) (
          subst
            (λ r.
              Ensures
                (if (get_or p.node_pool i blank).free_rmid
                  then some p
                  else release p i (get_or p.node_pool i blank))
                (λ p'. Uses n p' (change users r (users r - 1))))
            k (free_or (get_or p.node_pool i blank).free_rmid i below refl)))
]
  where
    free_or :
        (b : Bool)
        → (i : ℕ) → (below : i < n) → (get_or p.node_pool i blank).free_rmid ≡ b
        → Ensures
            (if b then some p else release p i (get_or p.node_pool i blank))
            (λ p'. Uses n p' (change users (i + 1) (users (i + 1) - 1)))
    free_or true i below f =
        let z = none-using n p users inv c i below f in
        change-same n p users (i + 1) c (users (i + 1) - 1) (omega arith)
    free_or false i below f = release-Uses n p users inv c i below f

use_rmid-Uses :
    (n : ℕ) (p : Pool) (rmid : ℕ) (users : ℕ → ℕ)
    → Inv n p
    → Uses n p users
    → rmid ≤ n
    → users rmid + 1 < 2 ^ 32
    → Ensures
        (use_rmid p rmid)
        (λ p'. Uses n p' (change users rmid (if users rmid == 0 then 0 else users rmid + 1)))
unfolding use_rmid
use_rmid-Uses n p rmid users inv c h l = elim (Bool-cases (rmid == 0)) [
  | inl e ↦
      let z : rmid ≡ 0 = ground arith in
      rw (z) (
        change-zero n p users (if users 0 == 0 then 0 else users 0 + 1)
          (ground (arith, ap users z, c.small 0)) c)
  | inr e ↦
      let i = rmid - 1 in
      let below : i < n = ground (arith, e) in
      let k : i + 1 ≡ rmid = ground (arith, e) in
      rw e (
        rw (load_in p.node_pool i blank (omega (arith, below, inv.allocated))) (
          subst
            (λ r.
              Ensures (if (get_or p.node_pool i blank).free_rmid then some p else (again i))
                (λ p'. Uses n p' (change users r (if users r == 0 then 0 else users r + 1))))
            k
            (free_or (get_or p.node_pool i blank).free_rmid i below
              (subst (λ r. users r + 1 < 2 ^ 32) (sym k) l) refl)))
]
  where
    again : ℕ → Option Pool
    again i = do
      nodes ← store p.node_pool i (record (get_or p.node_pool i blank) {
        ref_counter = add32 (get_or p.node_pool i blank).ref_counter 1;
      })
      some (record p { node_pool = nodes })

    free_or :
        (b : Bool)
        → (i : ℕ) → (below : i < n) → users (i + 1) + 1 < 2 ^ 32
        → (get_or p.node_pool i blank).free_rmid ≡ b
        → Ensures (if b then some p else again i) (λ p'.
          Uses n p' (change users (i + 1) (if users (i + 1) == 0 then 0 else users (i + 1) + 1)))
    free_or true i below small f =
        let z = none-using n p users inv c i below f in
        change-same n p users (i + 1) c (if users (i + 1) == 0 then 0 else users (i + 1) + 1)
          (ground (arith, z))
    free_or false i below small f =
        let some_user = used n p users inv c i below f in
        let e : add32 (get_or p.node_pool i blank).ref_counter 1 ≡ users (i + 1) + 1 =
          omega (arith, c.counted i below) in
        let v : users (i + 1) + 1 ≡ (if users (i + 1) == 0 then 0 else users (i + 1) + 1) =
          ground (arith, some_user) in
        subst (λ w. Ensures (again i) (λ p'. Uses n p' (change users (i + 1) w))) (e ∙ v)
          (counter-Uses n p users inv c i below (add32 (get_or p.node_pool i blank).ref_counter 1)
            (omega (arith, e, small)) (omega (arith, e)) f)

-- With every RMID up to `n` free or assigned once, and counting its users, of which it has some just
-- when it is not free: giving back any RMID up to `n` never faults and keeps this, with one user less
-- of that RMID if it has any.
pub put_rmid-Held :
    (n : ℕ) (p : Pool) (rmid : ℕ) (users : ℕ → ℕ)
    → Held n p users
    → rmid ≤ n
    → Ensures (put_rmid p rmid) (λ p'. Held n p' (change users rmid (users rmid - 1)))
put_rmid-Held n p rmid users (inv, c) h =
    Ensures-both (put_rmid p rmid) (Inv n) _ (put_rmid-Inv n p rmid inv h)
      (put_rmid-Uses n p rmid users inv c h)

-- With every RMID up to `n` free or assigned once, and counting its users, of which it has some just
-- when it is not free: using any RMID up to `n` again, of fewer than `2 ^ 32` - 1 users, never faults
-- and keeps this, with one user more of that RMID if it has any.
pub use_rmid-Held :
    (n : ℕ) (p : Pool) (rmid : ℕ) (users : ℕ → ℕ)
    → Held n p users
    → rmid ≤ n
    → users rmid + 1 < 2 ^ 32
    → Ensures
        (use_rmid p rmid)
        (λ p'. Held n p' (change users rmid (if users rmid == 0 then 0 else users rmid + 1)))
use_rmid-Held n p rmid users (inv, c) h l =
    Ensures-mono (use_rmid p rmid) _ _
      (Ensures-both (use_rmid p rmid) _ _ (use_rmid-Inv n p rmid inv h)
        (use_rmid-Uses n p rmid users inv c h l))
      (λ p' r. (r.0.0, r.1))
