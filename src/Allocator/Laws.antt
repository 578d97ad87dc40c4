-- ===== src/Allocator/Laws.antt =====
-- The allocator is a stack of free indices.
use pmctrack.Prelude.{
  ℕ, zero, suc, ◌+◌, ◌-◌, ◌≤◌, ◌<◌, ◌^◌, ◌≡◌, refl, ap, ap₂, List, [], ◌∷◌, ◌++◌, arith, length,
  get_or, set, subst, Option, some, none, Ensures, ◌⊎◌, inl, inr, ℕ_discrete, length-append,
  length-set, get_or-set_self, get_elem?-eq-get_or, sym, ◌∙◌,
}
use pmctrack.Allocator.{Allocator, FreeBlock, mc_malloc, mc_free}
use pmctrack.Prelude.Runs.{run, length-run}
use pmctrack.Allocator.Stack.{
  no_block, free_ids, AllGood, Good, free_ids-set, AllGood-set, AllGood-length,
}

abbrev pub frees : Allocator → List ℕ
frees a = free_ids a.stack.freeblocks a.stack.stack_size

pub record Inv (a : Allocator) : Type 0 where
  pub storage : a.stack.max_stack_size ≤ length a.stack.freeblocks
  pub small : a.stack.max_stack_size < 2 ^ 32
  pub room : a.free_count ≤ a.stack.max_stack_size
  pub counted : a.free_count ≡ length (frees a)
  pub good : AllGood a.stack.freeblocks a.stack.stack_size

run-step : (i n : ℕ) → 0 < n → run i n ≡ i ∷ run (i + 1) (n - 1)
run-step i zero h = absurd (omega arith)
run-step i (suc n) h = ap₂ (λ j k. i ∷ run j k) (omega arith) (omega arith)

-- Memory over which `mc_malloc` and `mc_free` run, by its parts
abbrev pub of_parts : List FreeBlock → ℕ → ℕ → ℕ → Allocator
of_parts b s m f = record {
  stack = record { freeblocks = b; stack_size = s; max_stack_size = m };
  free_count = f;
}

-- `r` is what the list of free indices `xs` gives out, and `ys` what it leaves.
abbrev pub Gives : List ℕ → Option ℕ → List ℕ → Type 0
Gives xs r ys = ((xs ≡ []) × (r ≡ none) × (ys ≡ [])) ⊎ ((i : ℕ) × (xs ≡ i ∷ ys) × (r ≡ some i))

module _ (b : List FreeBlock) (k m f : ℕ) (v : Inv (of_parts b (suc k) m f)) where
  abbrev top : FreeBlock
  top = get_or b k no_block

  abbrev shrunk : FreeBlock
  shrunk = record { start_idx = top.start_idx + 1; size = top.size - 1 }

  abbrev rest : List FreeBlock
  rest = set b k shrunk

  count_lem : f ≡ top.size + length (free_ids b k)
  count_lem = omega (
    arith,
    v.counted,
    length-append (run top.start_idx top.size) (free_ids b k),
    length-run top.start_idx top.size,
  )

  stack_lem : (k < length b) × (suc k ≤ f)
  stack_lem = omega (arith, v.counted, v.storage, v.room, AllGood-length b (suc k) v.good)

  run-top : run top.start_idx top.size ≡ top.start_idx ∷ run (top.start_idx + 1) (top.size - 1)
  run-top = run-step top.start_idx top.size v.good.0.0

  malloc-more :
      1 < top.size
      → mc_malloc (of_parts b (suc k) m f)
        ≡ some (some top.start_idx, of_parts rest (suc k) m (f - 1))
  unfolding mc_malloc
  malloc-more h =
      ground (arith, v.good.0, v.room, v.small, stack_lem, get_elem?-eq-get_or b k no_block)

  malloc-last :
      top.size ≡ 1
      → mc_malloc (of_parts b (suc k) m f) ≡ some (some top.start_idx, of_parts rest k m (f - 1))
  unfolding mc_malloc
  malloc-last h =
      ground (arith, v.good.0, v.room, v.small, stack_lem, get_elem?-eq-get_or b k no_block)

  -- the top block in the array after it was shrunk
  get_or-rest : get_or rest k no_block ≡ shrunk
  get_or-rest = get_or-set_self b k shrunk no_block stack_lem.0

  frees-more : 1 < top.size → free_ids b (suc k) ≡ top.start_idx ∷ free_ids rest (suc k)
  frees-more h =
      ap (λ r. r ++ free_ids b k) run-top
      ∙ ap (◌∷◌ top.start_idx) (
          ap₂ ◌++◌ (ap (λ (c : FreeBlock). run c.start_idx c.size) (sym get_or-rest))
            (sym (free_ids-set b k k shrunk (omega arith))))

  frees-last : top.size ≡ 1 → free_ids b (suc k) ≡ top.start_idx ∷ free_ids rest k
  frees-last h =
      ap (λ r. r ++ free_ids b k)
        (run-top ∙ ap (λ n. top.start_idx ∷ run (top.start_idx + 1) n) {y = 0} (omega arith))
      ∙ ap (◌∷◌ top.start_idx) (sym (free_ids-set b k k shrunk (omega arith)))

  more-Inv : 1 < top.size → Inv (of_parts rest (suc k) m (f - 1))
  more-Inv h = record {
    storage = omega (arith, v.storage, length-set b k shrunk);
    small = v.small;
    room = omega (arith, v.room);
    counted = omega (arith, v.counted, ap length (frees-more h));
    good = (
      subst Good (sym get_or-rest) (omega (arith, v.good.0)),
      AllGood-set b k k shrunk (omega arith) v.good.1,
    );
  }

  last-Inv : top.size ≡ 1 → Inv (of_parts rest k m (f - 1))
  last-Inv h = record {
    storage = omega (arith, v.storage, length-set b k shrunk);
    small = v.small;
    room = omega (arith, v.room);
    counted = omega (arith, v.counted, ap length (frees-last h));
    good = AllGood-set b k k shrunk (omega arith) v.good.1;
  }

-- What one allocation promises.
abbrev pub Allocated : Allocator → Option ℕ × Allocator → Type 0
Allocated a r =
    Inv r.1 × (r.1.stack.max_stack_size ≡ a.stack.max_stack_size) × Gives (frees a) r.0 (frees r.1)

malloc-none :
    (b : List FreeBlock) (s m f : ℕ)
    → f ≡ 0
    → mc_malloc (of_parts b s m f) ≡ some (none, of_parts b s m f)
unfolding mc_malloc
malloc-none b s m f e = ground arith

malloc-parts :
    (b : List FreeBlock) (s m f : ℕ)
    → Inv (of_parts b s m f)
    → Ensures (mc_malloc (of_parts b s m f)) (Allocated (of_parts b s m f))
malloc-parts b zero m f v = rw (malloc-none b zero m f v.counted) (v, refl, inl (refl, refl, refl))
malloc-parts b (suc k) m f v = elim (ℕ_discrete (get_or b k no_block).size 1) [
  | yes e ↦
      rw (malloc-last b k m f v e)
        (last-Inv b k m f v e, refl, inr (_, frees-last b k m f v e, refl))
  | no e ↦
      let h : 1 < (get_or b k no_block).size = omega (arith, v.good.0) in
      rw (malloc-more b k m f v h)
        (more-Inv b k m f v h, refl, inr (_, frees-more b k m f v h, refl))
]

-- On a well-formed allocator an allocation never faults: it gives out the free index at the head
-- of the list and leaves the others in order, or, exactly when none is free, returns -1 and changes
-- nothing of the list. The allocator stays well formed with its capacity.
pub mc_malloc_lem : (a : Allocator) → Inv a → Ensures (mc_malloc a) (Allocated a)
mc_malloc_lem a v =
    malloc-parts a.stack.freeblocks a.stack.stack_size a.stack.max_stack_size a.free_count v

abbrev freed : ℕ → FreeBlock
freed i = record { start_idx = i; size = 1 }

abbrev pushed : Allocator → ℕ → Allocator
pushed a i =
    of_parts (set a.stack.freeblocks a.stack.stack_size (freed i)) (suc a.stack.stack_size)
      a.stack.max_stack_size (a.free_count + 1)

free-pushes :
    (a : Allocator) (i : ℕ)
    → Inv a
    → a.free_count < a.stack.max_stack_size
    → mc_free a i ≡ some (pushed a i)
unfolding mc_free
free-pushes a i v h = ground (
  arith,
  v.storage,
  v.small,
  v.counted,
  AllGood-length a.stack.freeblocks a.stack.stack_size v.good,
)

-- Giving back an index while one is taken never faults and never loses it: it becomes the first to
-- be given out again, and the allocator stays well formed with its capacity.
pub mc_free_lem :
    (a : Allocator) (i : ℕ)
    → Inv a
    → a.free_count < a.stack.max_stack_size
    → i + 1 < 2 ^ 32
    → Ensures (mc_free a i) (λ a'.
      Inv a' × (a'.stack.max_stack_size ≡ a.stack.max_stack_size) × (frees a' ≡ i ∷ frees a))
mc_free_lem a i v h k = rw (free-pushes a i v h) (
  record {
    storage = omega (arith, v.storage, length-set blocks size (freed i));
    small = v.small;
    room = omega arith;
    counted = omega (arith, v.counted, ap length frees-pushed);
    good = (
      subst Good (sym top-freed) (omega arith),
      AllGood-set blocks size size (freed i) (omega arith) v.good,
    );
  },
  refl,
  frees-pushed,
)
  where
    open a use {stack.{freeblocks as blocks, stack_size as size}}

    top-freed : get_or (set blocks size (freed i)) size no_block ≡ freed i
    top-freed =
        get_or-set_self blocks size (freed i) no_block
          (omega (arith, v.counted, v.storage, AllGood-length blocks size v.good))

    frees-pushed : frees (pushed a i) ≡ i ∷ frees a
    frees-pushed =
        ap₂ ◌++◌ (ap (λ (c : FreeBlock). run c.start_idx c.size) top-freed)
          (free_ids-set blocks size size (freed i) (omega arith))
