-- ===== src/CBuffer/Iterate.antt =====
-- Walking the buffer with its iterator.
use native.Mathlib.Nat.{mod-lt, mod-add-mod, add_assoc}
use pmctrack.Prelude.{
  ℕ, zero, suc, ◌+◌, ◌*◌, ◌%◌, ◌<◌, ◌≤◌, ◌≡◌, List, [], ◌∷◌, Option, none, some, arith, ap, ap₂,
  ◌∙◌, tabulate, fun_ext, mod_below,
}
use pmctrack.CBuffer.{CBuffer, Iterator, get_iterator_cbuffer_t, iterator_next_cbuffer_t}
use pmctrack.CBuffer.Inv.{Inv, wrap_closed}

-- The positions that a client's loop sees, which calls `next` until it returns NULL, `fuel` times
-- at most.

pub walk : ℕ → CBuffer → Iterator → List ℕ
walk zero c it = []
walk (suc fuel) c it =
    let (p, it') = iterator_next_cbuffer_t c it in
    elim p [ none ↦ [] | some pos ↦ pos ∷ walk fuel c it' ]

-- the iterator in front of byte `a`
abbrev at : CBuffer → ℕ → ℕ → Iterator
at c chunk a = record { chunk_size = chunk; cur_item = a; cur_pos = (c.head + a) % c.max_size }

next-end :
    (c : CBuffer) (chunk a : ℕ)
    → c.size ≤ a
    → iterator_next_cbuffer_t c (at c chunk a) ≡ (none, at c chunk a)
unfolding iterator_next_cbuffer_t
next-end c chunk a h = ground arith

next-some :
    (c : CBuffer) (chunk a : ℕ)
    → Inv c
    → c.head < c.max_size
    → chunk ≤ c.max_size
    → a < c.size
    → iterator_next_cbuffer_t c (at c chunk a)
      ≡ (some ((c.head + a) % c.max_size), at c chunk (a + chunk))
unfolding iterator_next_cbuffer_t
next-some c chunk a v h k p = ground (
  arith,
  v.small,
  v.size_le,
  mod-lt (c.head + a) v.some_room,
  wrap_closed c.max_size ((c.head + a) % c.max_size) chunk,
  mod-add-mod (c.head + a) c.max_size chunk,
  ap (λ k. k % c.max_size) (add_assoc c.head a chunk),
)

walk-end :
    (fuel : ℕ) (c : CBuffer) (it it' : Iterator)
    → iterator_next_cbuffer_t c it ≡ (none, it')
    → walk (suc fuel) c it ≡ []
unfolding walk
walk-end fuel c it it' e = rw (e, walk)

walk-next :
    (fuel : ℕ) (c : CBuffer) (it it' : Iterator) (pos : ℕ)
    → iterator_next_cbuffer_t c it ≡ (some pos, it')
    → walk (suc fuel) c it ≡ pos ∷ walk fuel c it'
unfolding walk
walk-next fuel c it it' pos e =
    rw (e, walk) (ap (λ (r : Option ℕ × Iterator). pos ∷ walk fuel c r.1) e)

walk-at :
    (c : CBuffer) (chunk r a : ℕ)
    → Inv c
    → c.head < c.max_size
    → chunk ≤ c.max_size
    → 0 < chunk
    → a + r * chunk ≡ c.size
    → walk (suc r) c (at c chunk a) ≡ tabulate r (λ i. (c.head + (a + i * chunk)) % c.max_size)
walk-at c chunk zero a v h k p e = walk-end 0 c _ _ (next-end c chunk a (omega arith))
walk-at c chunk (suc r) a v h k p e =
    walk-next (suc r) c _ _ _ (next-some c chunk a v h k (omega arith))
    ∙ ap₂ ◌∷◌ (position a (a + 0 * chunk) (omega arith)) (
        walk-at c chunk r (a + chunk) v h k p (omega arith)
        ∙ ap (tabulate r)
            (fun_ext (λ i. position (a + chunk + i * chunk) (a + suc i * chunk) (omega arith))))
  where
    position : (x y : ℕ) → x ≡ y → (c.head + x) % c.max_size ≡ (c.head + y) % c.max_size
    position x y = ap (λ z. (c.head + z) % c.max_size)

-- Over a well-formed buffer whose head lies inside the storage and that holds `count` chunks of
-- `chunk` bytes, the iterator yields exactly `count` positions and then NULL: those at which the
-- chunks start, oldest first, going round at the end of the storage.
pub iterator_next_cbuffer_t_lem :
    (c : CBuffer) (chunk count : ℕ)
    → Inv c
    → c.head < c.max_size
    → 0 < chunk
    → chunk ≤ c.max_size
    → count * chunk ≡ c.size
    → walk (suc count) c (get_iterator_cbuffer_t c chunk)
      ≡ tabulate count (λ i. (c.head + i * chunk) % c.max_size)
unfolding get_iterator_cbuffer_t
iterator_next_cbuffer_t_lem c chunk count v h p k e =
    ap (walk (suc count) c) first
    ∙ walk-at c chunk count 0 v h k p (omega arith)
    ∙ ap (tabulate count)
        (fun_ext (λ i. ap (λ z. (c.head + z) % c.max_size) {x = 0 + i * chunk} (omega arith)))
  where
    first : get_iterator_cbuffer_t c chunk ≡ at c chunk 0
    first = ground (arith, mod_below c.head c.max_size h, wrap_closed c.max_size c.head 0)
