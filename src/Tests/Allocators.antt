-- ===== src/Tests/Allocators.antt =====
-- An allocator of three indices, of which a client holds one.
use mathlib.Core.List.{Perm, Nodup}
use pmctrack.Prelude.{ℕ, ◌≡◌, refl, List, [], ◌∷◌, some, arith, Ensures}
use pmctrack.Allocator.{Allocator, FreeBlock, init_mc_allocator, mc_malloc, mc_free}
use pmctrack.Allocator.Stack.{no_block}
use pmctrack.Allocator.Laws.{Inv, frees, Allocated, mc_malloc_lem, mc_free_lem}
use pmctrack.Allocator.Client.{here, next, take, Reach-fresh}

abbrev blocks : List FreeBlock
blocks = no_block ∷ no_block ∷ no_block ∷ []

abbrev fresh : Allocator
fresh = record {
  stack = record {
    freeblocks = record { start_idx = 0; size = 3 } ∷ no_block ∷ no_block ∷ [];
    stack_size = 1;
    max_stack_size = 3;
  };
  free_count = 3;
}

abbrev one_taken : Allocator
one_taken = record {
  stack = record {
    freeblocks = record { start_idx = 1; size = 2 } ∷ no_block ∷ no_block ∷ [];
    stack_size = 1;
    max_stack_size = 3;
  };
  free_count = 2;
}

malloc_run : mc_malloc fresh ≡ some (some 0, one_taken)
unfolding mc_malloc
malloc_run = refl

one_taken-Inv : Inv one_taken
one_taken-Inv = record {
  storage = omega arith;
  small = omega arith;
  room = omega arith;
  counted = refl;
  good = omega arith;
}

mc_malloc_lem_example : Ensures (mc_malloc one_taken) (Allocated one_taken)
mc_malloc_lem_example = mc_malloc_lem one_taken one_taken-Inv

mc_free_lem_example :
    Ensures
      (mc_free one_taken 0)
      (λ a. Inv a × (a.stack.max_stack_size ≡ 3) × (frees a ≡ 0 ∷ 1 ∷ 2 ∷ []))
mc_free_lem_example = mc_free_lem one_taken 0 one_taken-Inv (omega arith) (omega arith)

Reach-fresh_example :
    Inv one_taken × Perm {A = ℕ} (1 ∷ 2 ∷ 0 ∷ []) (0 ∷ 1 ∷ 2 ∷ []) × Nodup {A = ℕ} (1 ∷ 2 ∷ 0 ∷ [])
unfolding init_mc_allocator mc_malloc
Reach-fresh_example =
    Reach-fresh 3 blocks {a = fresh} {s = record { allocator = one_taken; held = 0 ∷ [] }}
      (omega arith) (omega arith) refl (next here (take 0 one_taken refl))
