-- ===== src/CBuffer/Overrun.antt =====
-- The head of the buffer after a removal that ends at the end of the storage.
use pmctrack.Prelude.{ℕ, ◌+◌, ◌<◌, ◌≡◌, none, arith, Ensures, get_elem?_beyond}
use pmctrack.CBuffer.{CBuffer, insert_cbuffer_t, remove_cbuffer_t, remove_items_cbuffer_t}
use pmctrack.CBuffer.Inv.{Inv}
use pmctrack.CBuffer.Drain.{remove-within}

remove-outside :
    (c : CBuffer) → Inv c → c.head ≡ c.max_size → 0 < c.size → remove_cbuffer_t c ≡ none
unfolding remove_cbuffer_t
remove-outside c v h p = ground (arith, v.storage, get_elem?_beyond c.bytes c.head)

insert-outside :
    (c : CBuffer) (x : ℕ)
    → Inv c
    → c.head ≡ c.max_size
    → c.size ≡ c.max_size
    → insert_cbuffer_t c x ≡ none
unfolding insert_cbuffer_t
insert-outside c x v h e = ground (arith, v.storage)

-- When a block removed from a well-formed buffer ends exactly at the end of the storage and bytes are
-- left behind it, the head is left past the end: removing one more byte reads outside the storage.
pub remove_cbuffer_t-outside :
    (c : CBuffer) (n : ℕ)
    → Inv c
    → n < c.size
    → c.head + n ≡ c.max_size
    → Ensures (remove_items_cbuffer_t c n) (λ r. remove_cbuffer_t r.1 ≡ none)
remove_cbuffer_t-outside c n v p e = rw (remove-within c n v (omega arith) (omega arith)) (
    remove-outside _
      (record {
        storage = v.storage;
        some_room = v.some_room;
        small = v.small;
        head_le = omega arith;
        size_le = omega (arith, v.size_le);
      })
      e (omega arith))
