-- ===== src/Allocator/Init.antt =====
-- A fresh index allocator, of src/modules/pmcs/include/pmc/data_str/mc_allocator.h.
use pmctrack.Prelude.{
  ℕ, zero, suc, ◌≤◌, ◌<◌, ◌^◌, ◌≡◌, refl, ap, List, [], ◌∷◌, arith, length, append-nil, some,
  Ensures,
}
use pmctrack.Allocator.{FreeBlock, init_mc_allocator}
use pmctrack.Prelude.Runs.{run, length-run}
use pmctrack.Allocator.Laws.{Inv, frees, of_parts}

init-zero : (blocks : List FreeBlock) → init_mc_allocator blocks 0 ≡ some (of_parts blocks 0 0 0)
unfolding init_mc_allocator
init-zero blocks = refl

init-suc :
    (b : FreeBlock) (bs : List FreeBlock) (n : ℕ)
    → init_mc_allocator (b ∷ bs) (suc n)
      ≡ some (of_parts (record { start_idx = 0; size = suc n } ∷ bs) 1 (suc n) (suc n))
unfolding init_mc_allocator
init-suc b bs n = ground arith

-- A fresh allocator over an array of at least `n` blocks is well formed, and gives out 0, 1, …, n-1.
pub init_mc_allocator_lem :
    (blocks : List FreeBlock) (n : ℕ)
    → n ≤ length blocks
    → n < 2 ^ 32
    → Ensures
        (init_mc_allocator blocks n)
        (λ a. Inv a × (a.stack.max_stack_size ≡ n) × (frees a ≡ run 0 n))
init_mc_allocator_lem [] zero h k = rw (init-zero []) (
  record {
    storage = omega arith;
    small = omega arith;
    room = omega arith;
    counted = refl;
    good = tt;
  },
  refl,
  refl,
)
init_mc_allocator_lem [] (suc n) h k = absurd (omega arith)
init_mc_allocator_lem (b ∷ bs) zero h k = rw (init-zero (b ∷ bs)) (
  record {
    storage = omega arith;
    small = omega arith;
    room = omega arith;
    counted = refl;
    good = tt;
  },
  refl,
  refl,
)
init_mc_allocator_lem (b ∷ bs) (suc n) h k = rw (init-suc b bs n) (
  record {
    storage = h;
    small = k;
    room = omega arith;
    counted = omega (arith, length-run 0 (suc n), ap length (append-nil (run 0 (suc n))));
    good = (omega arith, tt);
  },
  refl,
  append-nil (run 0 (suc n)),
)
