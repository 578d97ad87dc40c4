-- ===== src/CBuffer/Bulk.antt =====
-- Inserting and removing a block of bytes.
use pmctrack.Prelude.{
  ℕ, ◌+◌, ◌-◌, ◌%◌, ◌<◌, ◌≤◌, ◌≡◌, refl, min, List, some, arith, dec_lt, dec_le, length, get_or,
  drop, take, length-take, length-drop, Ensures, ◌⊎◌, inl, inr, leb, ◌∙◌, sym, ap, if◌then◌else◌,
}
use native.Mathlib.Nat.{mod-lt, mod-add-mod, add-mod_right}
use pmctrack.Memory.{paste, paste-nil, length-paste}
use pmctrack.CBuffer.{CBuffer, insert_items_cbuffer_t, insert_tail}
use pmctrack.CBuffer.Inv.{
  Inv, contents, contents-eq, enqueue, length-enqueue, length-contents, get_or-enqueue_old,
  get_or-enqueue_new,
}
use pmctrack.CBuffer.Single.{Inserted}
use pmctrack.CBuffer.Spread.{
  length_zero, spread, length-spread, get_or-spread_in, get_or-spread_out, spread-fits,
}

module _ (c : CBuffer) (items : List ℕ) (v : Inv c) (fits : length items ≤ c.max_size) where
  abbrev whead : ℕ
  whead = (c.head + c.size) % c.max_size

  whead_lt : whead < c.max_size
  whead_lt = mod-lt (c.head + c.size) v.some_room

  -- the buffer that `insert_items_cbuffer_t` leaves
  abbrev after : CBuffer
  after = record c {
    bytes = spread c.bytes c.max_size whead items;
    size = min c.max_size (c.size + length items);
    head =
        if leb (length items) (c.max_size - c.size)
        then c.head
        else (c.head + (length items - (c.max_size - c.size))) % c.max_size;
  }

  insert_tail-room :
      whead + length items ≤ c.max_size
      → insert_tail c.bytes c.max_size whead items ≡ some (c.bytes, items, whead)
  unfolding insert_tail
  insert_tail-room h = ground (arith, v.small, whead_lt)

  insert_tail-wrap :
      c.max_size < whead + length items
      → insert_tail c.bytes c.max_size whead items
        ≡ some (
          paste c.bytes whead (take (c.max_size - whead) items),
          drop (c.max_size - whead) items,
          0,
        )
  unfolding insert_tail
  insert_tail-wrap h =
      ground (arith, v.small, v.storage, whead_lt, length-take (c.max_size - whead) items)

  insert_items-after : insert_items_cbuffer_t c items ≡ some after
  unfolding insert_items_cbuffer_t
  insert_items-after = elim (dec_le (whead + length items) c.max_size) [
    | yes p ↦ ground (
      arith,
      insert_tail-room p,
      whead_lt,
      spread-fits c.bytes c.max_size whead items p,
      paste-nil c.bytes whead,
      length_zero items,
    )
    | no p ↦ ground (
      arith,
      insert_tail-wrap (omega arith),
      whead_lt,
      length-drop (c.max_size - whead) items,
      length-paste c.bytes whead (take (c.max_size - whead) items),
      length-take (c.max_size - whead) items,
    )
  ]

  -- how many old bytes the block pushes out
  abbrev lost : ℕ
  lost = c.size + length items - c.max_size

  -- where the head goes
  abbrev Moved : ℕ → Type 0
  Moved h =
      ((h ≡ c.head) × (length items ≤ c.max_size - c.size))
      ⊎ ((h ≡ (c.head + lost) % c.max_size) × (lost ≡ length items - (c.max_size - c.size)))

  after-Moved : Moved after.head
  after-Moved = elim (dec_le (length items) (c.max_size - c.size)) [
    | yes p ↦ inl (ground arith, p)
    | no p ↦ inr (ground (arith, v.size_le), omega (arith, v.size_le))
  ]

  at_mod : (a b : ℕ) → a ≡ b → a % c.max_size ≡ b % c.max_size
  at_mod a b = ap (λ k. k % c.max_size)

  Moved-index : (h i : ℕ) → Moved h → (h + i) % c.max_size ≡ (c.head + (lost + i)) % c.max_size
  Moved-index h i (inl (e, p)) = at_mod (h + i) (c.head + (lost + i)) (omega (arith, v.size_le))
  Moved-index h i (inr (e, p)) = rw e (
      mod-add-mod (c.head + lost) c.max_size i
      ∙ at_mod (c.head + lost + i) (c.head + (lost + i)) (omega arith))

  -- Places relative to the head and to the end of the old bytes.
  old_place :
      (j : ℕ)
      → j < c.size
      → (c.head + j) % c.max_size ≡ (whead + (c.max_size - c.size + j)) % c.max_size
  old_place j p =
      sym (add-mod_right (c.head + j) c.max_size)
      ∙ at_mod (c.head + j + c.max_size) (c.head + c.size + (c.max_size - c.size + j))
          (omega (arith, v.size_le))
      ∙ sym (mod-add-mod (c.head + c.size) c.max_size (c.max_size - c.size + j))

  new_place : (j : ℕ) → c.size ≤ j → (c.head + j) % c.max_size ≡ (whead + (j - c.size)) % c.max_size
  new_place j p =
      at_mod (c.head + j) (c.head + c.size + (j - c.size)) (omega arith)
      ∙ sym (mod-add-mod (c.head + c.size) c.max_size (j - c.size))

  after_at :
      (i : ℕ)
      → i < after.size
      → get_or after.bytes ((c.head + (lost + i)) % c.max_size) 0
        ≡ get_or (enqueue c.max_size (contents c) items) i 0
  after_at i h = elim (dec_lt (lost + i) c.size) [
    | yes p ↦
        get_or-spread_out c.bytes c.max_size whead items (c.max_size - c.size + (lost + i)) _
          v.storage whead_lt (omega arith) (omega arith) (old_place (lost + i) p)
        ∙ sym (get_or-enqueue_old c items i lost refl p)
    | no p ↦
        get_or-spread_in c.bytes c.max_size whead items (lost + i - c.size) _ v.storage whead_lt
          fits (omega arith) (new_place (lost + i) (omega arith))
        ∙ sym (get_or-enqueue_new c items i lost refl (omega arith))
  ]

  contents-after : contents after ≡ enqueue c.max_size (contents c) items
  contents-after =
      contents-eq after (enqueue c.max_size (contents c) items)
        (omega (arith, length-enqueue c.max_size (contents c) items, length-contents c))
        (λ i h.
          ap (λ p. get_or after.bytes p 0) (Moved-index after.head i after-Moved) ∙ after_at i h)

  after-Inv : Inv after
  after-Inv = record {
    storage = length-spread c.bytes c.max_size whead items v.storage whead_lt fits;
    some_room = v.some_room;
    small = v.small;
    head_le = le_of_moved after.head after-Moved;
    size_le = omega arith;
  }
    where
      le_of_moved : (h : ℕ) → Moved h → h ≤ c.max_size
      le_of_moved h (inl (e, p)) = omega (arith, v.head_le)
      le_of_moved h (inr (e, p)) = omega (arith, mod-lt (c.head + lost) v.some_room)

-- Inserting a block no longer than the buffer's capacity into a well-formed buffer never faults.
-- The buffer stays well formed, keeps its capacity, and holds its old bytes with the block at the
-- end, less as many of the oldest bytes as do not fit.
pub insert_items_cbuffer_t_lem :
    (c : CBuffer) (items : List ℕ)
    → Inv c
    → length items ≤ c.max_size
    → Ensures (insert_items_cbuffer_t c items) (Inserted c items)
insert_items_cbuffer_t_lem c items v fits =
    rw (insert_items-after c items v fits)
      (after-Inv c items v fits, refl, contents-after c items v fits)

-- A longer block is refused, and the buffer stays as it was.
insert_items-refused :
    (c : CBuffer) (items : List ℕ)
    → Inv c
    → c.max_size < length items
    → insert_items_cbuffer_t c items ≡ some c
unfolding insert_items_cbuffer_t
insert_items-refused c items v h = ground (arith, v.some_room)
