-- ===== src/Allocator/Stack.antt =====
-- The free indices of a stack of blocks, in the order in which they are given out.
use pmctrack.Prelude.{
  ℕ, zero, suc, ◌+◌, ◌^◌, ◌≤◌, ◌<◌, ◌≡◌, refl, ap, ap₂, sym, subst, List, [], ◌++◌, arith, length,
  get_or, set, length-append, get_or-set_ne,
}
use pmctrack.Prelude.Runs.{run, length-run}
use pmctrack.Allocator.{FreeBlock}

abbrev pub no_block : FreeBlock
no_block = record { start_idx = 0; size = 0 }

-- The indices of the first `k` blocks of the array, the last block first.
abbrev pub free_ids : List FreeBlock → ℕ → List ℕ
free_ids blocks zero = []
free_ids blocks (suc k) =
    run (get_or blocks k no_block).start_idx (get_or blocks k no_block).size ++ free_ids blocks k

-- An index is left, and all are `unsigned int`s.
abbrev pub Good : FreeBlock → Type 0
Good b = (0 < b.size) × (b.start_idx + b.size < 2 ^ 32)

-- So it is with every block on the stack.
abbrev pub AllGood : List FreeBlock → ℕ → Type 0
AllGood blocks zero = Unit
AllGood blocks (suc k) = Good (get_or blocks k no_block) × AllGood blocks k

-- A write above the stack changes nothing.
pub free_ids-set :
    (blocks : List FreeBlock) (k i : ℕ) (b : FreeBlock)
    → k ≤ i
    → free_ids (set blocks i b) k ≡ free_ids blocks k
free_ids-set blocks zero i b h = refl
free_ids-set blocks (suc k) i b h =
    ap₂ ◌++◌ (ap (λ c. run c.start_idx c.size) (get_or-set_ne blocks i k b no_block (omega arith)))
      (free_ids-set blocks k i b (omega arith))

pub AllGood-set :
    (blocks : List FreeBlock) (k i : ℕ) (b : FreeBlock)
    → k ≤ i
    → AllGood blocks k
    → AllGood (set blocks i b) k
AllGood-set blocks zero i b h v = tt
AllGood-set blocks (suc k) i b h v = (
  subst Good (sym (get_or-set_ne blocks i k b no_block (omega arith))) v.0,
  AllGood-set blocks k i b (omega arith) v.1,
)

-- There are at least as many free indices as blocks.
pub AllGood-length :
    (blocks : List FreeBlock) (k : ℕ) → AllGood blocks k → k ≤ length (free_ids blocks k)
AllGood-length blocks zero v = omega arith
AllGood-length blocks (suc k) v = omega (
  arith,
  AllGood-length blocks k v.1,
  length-append (run (get_or blocks k no_block).start_idx (get_or blocks k no_block).size)
      (free_ids blocks k),
  length-run (get_or blocks k no_block).start_idx (get_or blocks k no_block).size,
)
