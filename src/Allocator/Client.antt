-- ===== src/Allocator/Client.antt =====
-- A client that gives back only what it holds, over any history of allocations and releases.
use mathlib.Core.List.{Perm, Mem, Nodup, perm_middle, mem-append_right, mem-cons_self}
use mathlib.Core.List.Perm
use pmctrack.Prelude.{
  ℕ, ◌^◌, ◌≤◌, ◌<◌, ◌≡◌, ap, sym, subst, ◌∙◌, List, [], ◌∷◌, ◌++◌, arith, length, length-append,
  some, none, Ensures-at, append-nil, inl, inr,
}
use pmctrack.Allocator.{Allocator, FreeBlock, mc_malloc, mc_free, init_mc_allocator}
use pmctrack.Prelude.Runs.{run, length-run, length-perm, mem-run, run-Nodup}
use pmctrack.Allocator.Laws.{Inv, frees, Allocated, mc_malloc_lem, mc_free_lem}
use pmctrack.Allocator.Init.{init_mc_allocator_lem}

-- The allocator, and the indices that the client holds.
pub record System : Type 0 where
  pub allocator : Allocator
  pub held : List ℕ

pub data Step (s : System) : System → Type 0 where
  take :
      (i : ℕ) (a : Allocator)
      → mc_malloc s.allocator ≡ some (some i, a)
      → Step s (record { allocator = a; held = i ∷ s.held })
  refused :
      (a : Allocator)
      → mc_malloc s.allocator ≡ some (none, a)
      → Step s (record { allocator = a; held = s.held })
  give :
      (i : ℕ) (xs ys : List ℕ) (a : Allocator)
      → s.held ≡ xs ++ i ∷ ys
      → mc_free s.allocator i ≡ some a
      → Step s (record { allocator = a; held = xs ++ ys })

pub data Reach (s : System) : System → Type 0 where
  here : Reach s s
  next : {t u : System} → Reach s t → Step t u → Reach s u

-- Each of the `n` indices is free or held, and only once.
pub record Shared (n : ℕ) (s : System) : Type 0 where
  pub inv : Inv s.allocator
  pub cap : s.allocator.stack.max_stack_size ≡ n
  pub parts : Perm (frees s.allocator ++ s.held) (run 0 n)

take-Shared :
    (n : ℕ) (s : System) (i : ℕ) (a : Allocator)
    → Shared n s
    → Allocated s.allocator (some i, a)
    → Shared n (record { allocator = a; held = i ∷ s.held })
take-Shared n s i a v (w, c, inl (e, f, g)) = cc
take-Shared n s i a v (w, c, inr (j, e, f)) = record {
  inv = w;
  cap = c ∙ v.cap;
  parts = Perm.trans (perm_middle (frees a) s.held) (subst (λ l. Perm l (run 0 n)) moved v.parts);
}
  where
    moved : frees s.allocator ++ s.held ≡ i ∷ (frees a ++ s.held)
    moved = ap (λ l. l ++ s.held) (e ∙ ap (λ k. k ∷ frees a) {x = j} {y = i} (cc))

refused-Shared :
    (n : ℕ) (s : System) (a : Allocator)
    → Shared n s
    → Allocated s.allocator (none, a)
    → Shared n (record { allocator = a; held = s.held })
refused-Shared n s a v (w, c, inr (j, e, f)) = cc
refused-Shared n s a v (w, c, inl (e, f, g)) = record {
  inv = w;
  cap = c ∙ v.cap;
  parts = subst (λ l. Perm (l ++ s.held) (run 0 n)) (e ∙ sym g) v.parts;
}

-- Of an index that the client holds there is one less free than the capacity, and it is in range.
held-bound :
    (n : ℕ) (s : System) (i : ℕ) (xs ys : List ℕ)
    → Shared n s
    → s.held ≡ xs ++ i ∷ ys
    → (s.allocator.free_count < n) × (i < n)
held-bound n s i xs ys v e = (
  omega (
    arith,
    v.inv.counted,
    ap length e,
    length-append xs (i ∷ ys),
    length-append (frees s.allocator) s.held,
    length-perm v.parts,
    length-run 0 n,
  ),
  omega (
    arith,
    mem-run i 0 n (
        Perm.subset v.parts i
          (mem-append_right _ (subst (Mem i) (sym e) (mem-append_right xs mem-cons_self)))),
  ),
)

give-Shared :
    (n : ℕ) (s : System) (i : ℕ) (xs ys : List ℕ) (a : Allocator)
    → n < 2 ^ 32
    → Shared n s
    → s.held ≡ xs ++ i ∷ ys
    → mc_free s.allocator i ≡ some a
    → Shared n (record { allocator = a; held = xs ++ ys })
give-Shared n s i xs ys a small v e r = record {
  inv = given.0;
  cap = given.1 ∙ v.cap;
  parts =
      subst (λ l. Perm (l ++ (xs ++ ys)) (run 0 n)) (sym given.2)
        (Perm.trans (Perm.symm (perm_middle free (xs ++ ys))) (
          Perm.trans (Perm.append_left free (Perm.symm (perm_middle xs ys)))
            (subst (λ l. Perm (free ++ l) (run 0 n)) e v.parts)));
}
  where
    free : List ℕ
    free = frees s.allocator

    given :
        Inv a × (a.stack.max_stack_size ≡ s.allocator.stack.max_stack_size) × (frees a ≡ i ∷ free)
    given =
        Ensures-at (mc_free s.allocator i) _
          (mc_free_lem s.allocator i v.inv (omega (arith, v.cap, held-bound n s i xs ys v e))
            (omega (arith, held-bound n s i xs ys v e)))
          r

Step-Shared : (n : ℕ) {s t : System} → n < 2 ^ 32 → Step s t → Shared n s → Shared n t
Step-Shared n {s} small (take i a e) v =
    take-Shared n s i a v (Ensures-at (mc_malloc s.allocator) _ (mc_malloc_lem s.allocator v.inv) e)
Step-Shared n {s} small (refused a e) v =
    refused-Shared n s a v
      (Ensures-at (mc_malloc s.allocator) _ (mc_malloc_lem s.allocator v.inv) e)
Step-Shared n {s} small (give i xs ys a h e) v = give-Shared n s i xs ys a small v h e

Reach-Shared : (n : ℕ) {s t : System} → n < 2 ^ 32 → Shared n s → Reach s t → Shared n t
Reach-Shared n small v here = v
Reach-Shared n small v (next r st) = Step-Shared n small st (Reach-Shared n small v r)

-- From a fresh allocator of `n` indices on, whatever a client does that gives back only what it
-- holds, every index below `n` is at any time either free or held, and only once: no index is given
-- out twice, and none is lost.
pub Reach-fresh :
    (n : ℕ) (blocks : List FreeBlock) {a : Allocator} {s : System}
    → n ≤ length blocks
    → n < 2 ^ 32
    → init_mc_allocator blocks n ≡ some a
    → Reach (record { allocator = a; held = [] }) s
    → Inv s.allocator
      × Perm (frees s.allocator ++ s.held) (run 0 n)
      × Nodup (frees s.allocator ++ s.held)
Reach-fresh n blocks {a} {s} h small e r =
    let v = Reach-Shared n small fresh r in
    (v.inv, v.parts, Perm.nodup (Perm.symm v.parts) (run-Nodup 0 n))
  where
    made : Inv a × (a.stack.max_stack_size ≡ n) × (frees a ≡ run 0 n)
    made = Ensures-at (init_mc_allocator blocks n) _ (init_mc_allocator_lem blocks n h small) e

    fresh : Shared n (record { allocator = a; held = [] })
    fresh = record {
      inv = made.0;
      cap = made.1;
      parts =
          subst (λ l. Perm l (run 0 n)) (sym (append-nil (frees a) ∙ made.2)) (Perm.refl (run 0 n));
    }
