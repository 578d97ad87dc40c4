-- ===== src/PhaseTable.antt =====
-- The phase table of src/modules/pmcs/mc_experiments.c: at most 64 phases in a pool of entries, a
-- list of the entries in use with the newest in front, and a bitmap of the free ones. A node of
-- the list is its index. `none` is an access outside the pool or through a node that is not in
-- the list, or a shift of the `int` 1 by 31 bits or more, which C leaves undefined.
pub mod Bitmap
pub mod Inv
pub mod Create
pub mod Insert
pub mod Lookup
pub mod Promote
use pmctrack.Prelude.{
  ℕ, zero, suc, ◌+◌, ◌-◌, ◌*◌, ◌/◌, ◌%◌, ◌^◌, Bool, true, false, ◌&&◌, List, [], ◌∷◌, Option, none,
  some, ltb, leb, ◌==◌, if◌then◌else◌, ◌>>=◌,
}
use pmctrack.Prelude.Int.{ℤ, pos, negsuc, ltb_ℤ}
use pmctrack.Memory.{load, store}

-- A bit of a word, and `b & ~(1 << i)`.
unfoldable pub bit : ℕ → ℕ → Bool
bit b zero = b % 2 == 1
bit b (suc i) = bit (b / 2) i

unfoldable pub clear_bit : ℕ → ℕ → ℕ
clear_bit b zero = b - b % 2
clear_bit b (suc i) = 2 * clear_bit (b / 2) i + b % 2

-- `(1<<i) & b`, with the 1 an `int`
unfoldable pub test_bit : ℕ → ℕ → Option Bool
test_bit b i = if ltb i 31 then some (bit b i) else none

unfoldable pub reset_bit : ℕ → ℕ → Option ℕ
reset_bit b i = if ltb i 31 then some (clear_bit b i) else none

-- `phase_table`; `pool` has what the nodes of the pool point to.
pub record PhaseTable (A : Type 0) : Type 0 where
  pub phases : List ℕ
  pub nr_phases : ℕ
  pub max_phases : ℕ
  pub pool : List A
  pub bitmap : ℕ

unfoldable pub initial_bitmap : ℕ → Option ℕ
initial_bitmap max_phases =
    if max_phases == 64
    then some (2 ^ 64 - 1)
    else if ltb max_phases 31
    then some (2 ^ max_phases - 1)
    else none

-- `list_del` and the last node of a list
unfoldable pub list_del : ℕ → List ℕ → Option (List ℕ)
list_del i [] = none
list_del i (x ∷ xs) =
    let rest = list_del i xs in if x == i then some xs else (do xs' ← rest; some (x ∷ xs'))

unfoldable pub last? : List ℕ → Option ℕ
last? [] = none
last? (x ∷ []) = some x
last? (x ∷ y ∷ ys) = last? (y ∷ ys)

-- From entry `i` on, of which `n` are left.
unfoldable pub free_from : ℕ → ℕ → ℕ → Option (Option ℕ)
free_from b zero i = some none
free_from b (suc n) i =
    let rest = free_from b n (suc i) in
    (do free ← test_bit b i; if free then some (some i) else rest)

-- `head is the first node`
unfoldable pub is_first : ℕ → List ℕ → Bool
is_first i [] = false
is_first i (x ∷ xs) = x == i

-- `ENOENT` is 2.
abbrev pub enoent : ℤ
enoent = negsuc 1

abbrev pub is_zero : ℤ → Bool
is_zero (pos n) = n == 0
is_zero (negsuc n) = false

-- What the loop keeps: the least distance so far and the node that has it.
abbrev pub nearer : ℤ → ℕ → ℤ × Option ℕ → ℤ × Option ℕ
nearer sim i (sim_min, selected) = if ltb_ℤ sim sim_min then (sim, some i) else (sim_min, selected)

abbrev pub found : ℤ × Option ℕ → Option (ℤ × ℕ)
found (sim, none) = none
found (sim, some i) = some (sim, i)

module _ {A : Type 0} where
  -- The three allocations are arguments: the pool of phases, of nodes, and the table.
  unfoldable pub allocate : Option (List A) → Bool → Bool → ℕ → Option (Option (PhaseTable A))
  allocate none node_pool table max_phases = some none
  allocate (some pool) false table max_phases = some none
  allocate (some pool) true false max_phases = some none
  allocate (some pool) true true max_phases = do
    bitmap ← initial_bitmap max_phases
    some (
        some (record {
          phases = [];
          nr_phases = 0;
          max_phases = max_phases;
          pool = pool;
          bitmap = bitmap;
        }))

  unfoldable pub create_phase_table :
      Option (List A) → Bool → Bool → ℕ → Option (Option (PhaseTable A))
  unfolding allocate
  create_phase_table phase_pool node_pool table max_phases =
      if ltb 64 max_phases then some none else allocate phase_pool node_pool table max_phases

  unfoldable pub nearest : (A → ℤ) → List A → List ℕ → ℤ × Option ℕ → Option (ℤ × Option ℕ)
  nearest compare pool [] best = some best
  nearest compare pool (i ∷ is) best = do
    phase ← load pool i
    let sim = compare phase
    let rest = nearest compare pool is (nearer sim i best)
    if ltb_ℤ sim best.0 && is_zero sim then some (nearer sim i best) else rest

  -- The similarity and the index, `none` inside for NULL. `compare` has `priv_data` in it.
  unfoldable pub get_phase_from_table : (A → A → ℤ) → PhaseTable A → A → Option (Option (ℤ × ℕ))
  get_phase_from_table compare t key = do
    best ← nearest (λ phase. compare phase key) t.pool t.phases (pos (2 ^ 31 - 1), none)
    some (found best)

  unfoldable pub to_front : PhaseTable A → ℕ → Option (ℤ × PhaseTable A)
  to_front t i =
      if is_first i t.phases
      then some (pos 0, t)
      else (do rest ← list_del i t.phases; some (pos 0, record t { phases = i ∷ rest }))

  unfoldable pub promote_table_entry : PhaseTable A → ℤ → Option (ℤ × PhaseTable A)
  promote_table_entry t (negsuc n) = some (enoent, t)
  promote_table_entry t (pos i) =
      if leb t.max_phases i
      then some (enoent, t)
      else (do free ← test_bit t.bitmap i; if free then some (enoent, t) else to_front t i)

  unfoldable pub get_free_phase_loc : PhaseTable A → Option (Option ℕ)
  get_free_phase_loc t = if t.bitmap == 0 then some none else free_from t.bitmap t.max_phases 0

  -- The entry of the new phase, from the free one if there is any.
  unfoldable pub put_phase : PhaseTable A → A → Option ℕ → Option (ℕ × PhaseTable A)
  put_phase t phase none = do
    i ← last? t.phases
    pool ← store t.pool i phase
    some (i, record t { pool = pool })
  put_phase t phase (some i) = do
    bitmap ← reset_bit t.bitmap i
    pool ← store t.pool i phase
    some (
      i,
      record t { bitmap = bitmap; nr_phases = t.nr_phases + 1; phases = i ∷ t.phases; pool = pool },
    )

  unfoldable pub insert_phase_in_table : PhaseTable A → A → Option (ℕ × PhaseTable A)
  unfolding get_free_phase_loc put_phase
  insert_phase_in_table t phase = do
    free_phase_loc ← get_free_phase_loc t
    put_phase t phase free_phase_loc
