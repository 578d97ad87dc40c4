-- ===== src/CBuffer.antt =====
-- The byte ring of src/modules/pmcs/cbuffer.c, with its iterator. Every function that touches the
-- buffer returns an option: `none` is an access outside the allocation or a division by zero.
-- An `int` is its 32-bit pattern.
pub mod Inv
pub mod Single
pub mod Bulk
pub mod Drain
pub mod Overrun
pub mod Iterate
pub mod Spread
use pmctrack.Prelude.{
  ℕ, ◌+◌, ◌-◌, ◌%◌, ◌^◌, List, [], ◌∷◌, ◌++◌, Option, none, some, Bool, true, false, ◌≡◌, ltb, leb,
  ◌==◌, if◌then◌else◌, ◌>>=◌, length, take, drop, add32, sub32,
}
use pmctrack.Memory.{load, store, copy_in, copy_out, rem}

-- `cbuffer_t`
pub record CBuffer : Type 0 where
  pub bytes : List ℕ
  pub head : ℕ
  pub size : ℕ
  pub max_size : ℕ

-- The two allocations are arguments: whether the structure was allocated, and the storage.
unfoldable pub create_cbuffer_t : Bool → Option (List ℕ) → ℕ → Option CBuffer
create_cbuffer_t false storage max_size = none
create_cbuffer_t true none max_size = none
create_cbuffer_t true (some storage) max_size =
    some (record { bytes = storage; head = 0; size = 0; max_size = max_size })

pub size_cbuffer_t : CBuffer → ℕ
size_cbuffer_t c = c.size

pub nr_gaps_cbuffer_t : CBuffer → ℕ
nr_gaps_cbuffer_t c = sub32 c.max_size c.size

pub is_full_cbuffer_t : CBuffer → Bool
is_full_cbuffer_t c = c.size == c.max_size

pub is_empty_cbuffer_t : CBuffer → Bool
is_empty_cbuffer_t c = c.size == 0

unfoldable pub insert_cbuffer_t : CBuffer → ℕ → Option CBuffer
insert_cbuffer_t c new_item =
    if size == max_size
    then (do
      bytes' ← store bytes head new_item
      head' ← if size == 0 then some head else rem (add32 head 1) max_size
      some (record c { bytes = bytes'; head = head' }))
    else (do
      pos ← if max_size == 0 then some 0 else rem (add32 head size) max_size
      bytes' ← store bytes pos new_item
      some (record c { bytes = bytes'; size = add32 size 1 }))
  where
    open c use {bytes, head, size, max_size}

-- `a >= b` on `int`
abbrev pub geb_int : ℕ → ℕ → Bool
geb_int a b = leb ((b + 2 ^ 31) % 2 ^ 32) ((a + 2 ^ 31) % 2 ^ 32)

-- The items that do not fit behind `whead` go to the start: the storage, what is left, where to.
unfoldable pub insert_tail : List ℕ → ℕ → ℕ → List ℕ → Option (List ℕ × List ℕ × ℕ)
insert_tail bytes max_size whead items =
    if ltb max_size (add32 whead (length items))
    then (do
      bytes' ← copy_in bytes whead (take (sub32 max_size whead) items)
      some (bytes', drop (sub32 max_size whead) items, 0))
    else some (bytes, items, whead)

-- `nr_items` is the length of `items`.
unfoldable pub insert_items_cbuffer_t : CBuffer → List ℕ → Option CBuffer
insert_items_cbuffer_t c items = do
  whead ← rem (add32 head size) max_size
  if ltb max_size n then some c else (do
    (bytes', left, whead') ← insert_tail bytes max_size whead items
    bytes'' ← if length left == 0 then some bytes' else copy_in bytes' whead' left
    if geb_int nr_gaps n then some (record c { bytes = bytes''; size = add32 size n }) else (do
      head' ← rem (add32 head (sub32 n nr_gaps)) max_size
      some (record c { bytes = bytes''; size = max_size; head = head' })))
  where
    open c use {bytes, head, size, max_size}

    n : ℕ
    n = length items

    nr_gaps : ℕ
    nr_gaps = sub32 max_size size

-- What is copied up to the end of the storage, how much is left, and where it starts.
unfoldable pub remove_tail : CBuffer → ℕ → Option (List ℕ × ℕ × ℕ)
remove_tail c n =
    if ltb c.max_size (add32 c.head n)
    then (do
      out ← copy_out c.bytes c.head (sub32 c.max_size c.head)
      some (out, sub32 n (sub32 c.max_size c.head), 0))
    else some ([], n, c.head)

-- The list is what goes through `vitems`.
unfoldable pub remove_items_cbuffer_t : CBuffer → ℕ → Option (List ℕ × CBuffer)
remove_items_cbuffer_t c n = if ltb c.size n then some ([], c) else (do
  (out, left, head) ← remove_tail c n
  if left == 0 then some (out, record c { head = head; size = sub32 c.size n }) else (do
    rest ← copy_out c.bytes head left
    some (out ++ rest, record c { head = add32 head left; size = sub32 c.size n })))

unfoldable pub remove_cbuffer_t_batch : CBuffer → ℕ → Option (ℕ × List ℕ × CBuffer)
remove_cbuffer_t_batch c max_nr_items =
    let n = if ltb c.size max_nr_items then c.size else max_nr_items in
    if n == 0
    then some (0, [], c)
    else (do (out, c') ← remove_items_cbuffer_t c n; some (n, out, c'))

unfoldable pub remove_cbuffer_t : CBuffer → Option (ℕ × CBuffer)
remove_cbuffer_t c = if c.size == 0 then some (0, c) else (do
  ret ← load c.bytes c.head
  head' ← rem (add32 c.head 1) c.max_size
  some (ret, record c { head = head'; size = sub32 c.size 1 }))

pub clear_cbuffer_t : CBuffer → CBuffer
clear_cbuffer_t c = record c { size = 0; head = 0 }

-- The position that the pointer returned has in the storage, `none` for NULL.
pub head_cbuffer_t : CBuffer → Option ℕ
head_cbuffer_t c = if c.size == 0 then none else some c.head

-- `iterator_cbuffer_t`, less the pointer to the buffer
pub record Iterator : Type 0 where
  pub chunk_size : ℕ
  pub cur_item : ℕ
  pub cur_pos : ℕ

pub get_iterator_cbuffer_t : CBuffer → ℕ → Iterator
get_iterator_cbuffer_t c chunk_size = record {
  chunk_size = chunk_size;
  cur_item = 0;
  cur_pos = c.head;
}

-- The position of the item, `none` for NULL, and the iterator moved on.
pub iterator_next_cbuffer_t : CBuffer → Iterator → Option ℕ × Iterator
iterator_next_cbuffer_t c it =
    if leb c.size it.cur_item
    then (none, it)
    else (some it.cur_pos, record it { cur_item = add32 it.cur_item it.chunk_size; cur_pos = pos })
  where
    next : ℕ
    next = add32 it.cur_pos it.chunk_size

    pos : ℕ
    pos = if leb c.max_size next then sub32 next c.max_size else next
