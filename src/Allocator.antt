-- ===== src/Allocator.antt =====
-- The index allocator of src/modules/pmcs/include/pmc/data_str/mc_allocator.h: a stack of blocks of
-- free indices. `none` is an access outside the block array or through the null pointer.
pub mod Stack
pub mod Laws
pub mod Client
pub mod Init
use pmctrack.Prelude.{
  ℕ, ◌-◌, ◌<◌, ◌^◌, Bool, true, false, List, Option, none, some, ltb, ◌==◌, if◌then◌else◌, ◌>>=◌,
  add32, sub32,
}
use pmctrack.Memory.{load, store}

-- `mc_freeblock`: the indices from `start_idx` on, `size` of them
pub record FreeBlock : Type 0 where
  pub start_idx : ℕ
  pub size : ℕ

-- `mc_freeblock_stack`
pub record BlockStack : Type 0 where
  pub freeblocks : List FreeBlock
  pub stack_size : ℕ
  pub max_stack_size : ℕ

unfoldable pub init_mc_freeblock_stack : List FreeBlock → ℕ → BlockStack
init_mc_freeblock_stack blocks max = record {
  freeblocks = blocks;
  stack_size = 0;
  max_stack_size = max;
}

pub empty_mc_freeblock_stack : BlockStack → Bool
empty_mc_freeblock_stack st = st.stack_size == 0

pub full_mc_freeblock_stack : BlockStack → Bool
full_mc_freeblock_stack st = st.stack_size == st.max_stack_size

-- With the checks of MC_STACKS_SAFE_OPERATIONS, which the header always defines.
unfoldable pub pop_mc_freeblock_stack : BlockStack → Bool × BlockStack
pop_mc_freeblock_stack st =
    if st.stack_size == 0 then (false, st) else (true, record st { stack_size = st.stack_size - 1 })

unfoldable pub push_mc_freeblock_stack : BlockStack → FreeBlock → Option (Bool × BlockStack)
push_mc_freeblock_stack st item =
    if ltb st.stack_size st.max_stack_size
    then (do
      blocks ← store st.freeblocks st.stack_size item
      some (true, record st { freeblocks = blocks; stack_size = add32 st.stack_size 1 }))
    else some (false, st)

-- The place of the top block in the array, `none` for NULL.
unfoldable pub top_mc_freeblock_stack : BlockStack → Option ℕ
top_mc_freeblock_stack st = if st.stack_size == 0 then none else some (st.stack_size - 1)

-- `mc_allocator`
pub record Allocator : Type 0 where
  pub stack : BlockStack
  pub free_count : ℕ

unfoldable pub init_mc_allocator : List FreeBlock → ℕ → Option Allocator
unfolding push_mc_freeblock_stack init_mc_freeblock_stack
init_mc_allocator blocks available = do
  (_, st) ←
      push_mc_freeblock_stack (init_mc_freeblock_stack blocks available)
        (record { start_idx = 0; size = available })
  some (record { stack = st; free_count = available })

-- The block taken from, with its first index gone, on the stack.
unfoldable pub take_from : BlockStack → ℕ → FreeBlock → Option BlockStack
unfolding pop_mc_freeblock_stack
take_from st top fb = do
  blocks ←
      store st.freeblocks top (record { start_idx = add32 fb.start_idx 1; size = sub32 fb.size 1 })
  let st' = record st { freeblocks = blocks }
  some (if sub32 fb.size 1 == 0 then (pop_mc_freeblock_stack st').1 else st')

-- The index given out, `none` for -1.
unfoldable pub mc_malloc : Allocator → Option (Option ℕ × Allocator)
unfolding take_from top_mc_freeblock_stack
mc_malloc a =
    if ltb 0 a.free_count
    then (do
      top ← top_mc_freeblock_stack a.stack
      fb ← load a.stack.freeblocks top
      st ← take_from a.stack top fb
      some (some fb.start_idx, record { stack = st; free_count = sub32 a.free_count 1 }))
    else some (none, a)

-- The result of the push is not looked at; the function always returns 0.
unfoldable pub mc_free : Allocator → ℕ → Option Allocator
unfolding push_mc_freeblock_stack
mc_free a blockidx = do
  (_, st) ← push_mc_freeblock_stack a.stack (record { start_idx = blockidx; size = 1 })
  some (record { stack = st; free_count = add32 a.free_count 1 })
