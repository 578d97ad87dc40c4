-- ===== src/CBuffer/Drain.antt =====
-- Removing a block of bytes.
use native.Mathlib.Nat.{mod-add-mod, add-mod_right}
use pmctrack.Prelude.{
  ℕ, [], ◌+◌, ◌-◌, ◌%◌, ◌<◌, ◌≤◌, ◌≡◌, refl, min, List, ◌++◌, some, arith, dec_lt, dec_le, length,
  get_or, drop, take, length-take, length-drop, get_or-drop, get_or-take, get_or-append_left,
  get_or-append_right, length-append, Ensures, ◌∙◌, sym, ap, eq_of_get_or, ℕ_discrete, Ensures-some,
}
use pmctrack.CBuffer.{CBuffer, remove_tail, remove_items_cbuffer_t, remove_cbuffer_t_batch}
use pmctrack.CBuffer.Inv.{Inv, contents, contents-eq, length-contents, get_or-contents, wrap}

module _ (c : CBuffer) (n : ℕ) (v : Inv c) (fits : n ≤ c.size) where
  abbrev pub within : CBuffer
  within = record c { head = c.head + n; size = c.size - n }

  abbrev beyond : CBuffer
  beyond = record c { head = c.head + n - c.max_size; size = c.size - n }

  abbrev wrapped : List ℕ
  wrapped =
      take (c.max_size - c.head) (drop c.head c.bytes) ++ take (n - (c.max_size - c.head)) c.bytes

  pub remove-within :
      c.head + n ≤ c.max_size
      → remove_items_cbuffer_t c n ≡ some (take n (drop c.head c.bytes), within)
  unfolding remove_items_cbuffer_t remove_tail
  remove-within h = ground (arith, v.small, v.storage, v.size_le)

  remove-beyond : c.max_size < c.head + n → remove_items_cbuffer_t c n ≡ some (wrapped, beyond)
  unfolding remove_items_cbuffer_t remove_tail
  remove-beyond h = ground (arith, v.small, v.storage, v.size_le, v.head_le)

  length-taken : length (take n (contents c)) ≡ n
  length-taken = omega (arith, length-take n (contents c), length-contents c)

  length-within : c.head + n ≤ c.max_size → length (take n (drop c.head c.bytes)) ≡ n
  length-within h =
      omega (arith, v.storage, length-take n (drop c.head c.bytes), length-drop c.head c.bytes)

  length-wrapped : c.max_size < c.head + n → length wrapped ≡ n
  length-wrapped h = omega (
    arith,
    v.storage,
    v.size_le,
    v.head_le,
    length-append (take (c.max_size - c.head) (drop c.head c.bytes))
        (take (n - (c.max_size - c.head)) c.bytes),
    length-take (c.max_size - c.head) (drop c.head c.bytes),
    length-take (n - (c.max_size - c.head)) c.bytes,
    length-drop c.head c.bytes,
  )

  within_at :
      (i : ℕ)
      → i < n
      → c.head + n ≤ c.max_size
      → get_or (take n (drop c.head c.bytes)) i 0 ≡ get_or (contents c) i 0
  within_at i p h = ground (
    arith,
    get_or-take n (drop c.head c.bytes) i 0,
    get_or-drop c.head c.bytes i 0,
    get_or-contents c i,
    wrap c.max_size c.head i,
    v.size_le,
  )

  beyond_at :
      (i : ℕ) → i < n → c.max_size < c.head + n → get_or wrapped i 0 ≡ get_or (contents c) i 0
  beyond_at i p h = elim (dec_lt i (c.max_size - c.head)) [
    | yes q ↦ ground (
      arith,
      v.storage,
      v.size_le,
      length-take (c.max_size - c.head) (drop c.head c.bytes),
      length-drop c.head c.bytes,
      get_or-append_left (take (c.max_size - c.head) (drop c.head c.bytes))
          (take (n - (c.max_size - c.head)) c.bytes) i 0,
      get_or-take (c.max_size - c.head) (drop c.head c.bytes) i 0,
      get_or-drop c.head c.bytes i 0,
      get_or-contents c i,
      wrap c.max_size c.head i,
    )
    | no q ↦ ground (
      arith,
      v.storage,
      v.size_le,
      v.head_le,
      length-take (c.max_size - c.head) (drop c.head c.bytes),
      length-drop c.head c.bytes,
      get_or-append_right (take (c.max_size - c.head) (drop c.head c.bytes))
          (take (n - (c.max_size - c.head)) c.bytes) i 0,
      get_or-take (n - (c.max_size - c.head)) c.bytes (i - (c.max_size - c.head)) 0,
      get_or-contents c i,
      wrap c.max_size c.head i,
    )
  ]

  -- the bytes behind the removed ones, from whichever of the two heads
  rest_at :
      (h i : ℕ)
      → h % c.max_size ≡ (c.head + n) % c.max_size
      → i < c.size - n
      → get_or c.bytes ((h + i) % c.max_size) 0 ≡ get_or (drop n (contents c)) i 0
  rest_at h i e p =
      ap (λ k. get_or c.bytes k 0)
        (sym (mod-add-mod h c.max_size i)
          ∙ ap (λ k. (k + i) % c.max_size) e
          ∙ mod-add-mod (c.head + n) c.max_size i
          ∙ ap (λ k. k % c.max_size) {x = c.head + n + i} {y = c.head + (n + i)} (omega arith))
      ∙ sym (get_or-drop n (contents c) i 0 ∙ get_or-contents c (n + i) (omega arith))

  contents-rest :
      (h : ℕ)
      → h % c.max_size ≡ (c.head + n) % c.max_size
      → contents (record c { head = h; size = c.size - n }) ≡ drop n (contents c)
  contents-rest h e =
      contents-eq (record c { head = h; size = c.size - n }) (drop n (contents c))
        (omega (arith, length-drop n (contents c), length-contents c)) (λ i p. rest_at h i e p)

  beyond_head :
      c.max_size < c.head + n → (c.head + n - c.max_size) % c.max_size ≡ (c.head + n) % c.max_size
  beyond_head h =
      sym (add-mod_right (c.head + n - c.max_size) c.max_size)
      ∙ ap (λ k. k % c.max_size) {y = c.head + n} (omega arith)

-- Removing a block no longer than what a well-formed buffer holds never faults. It copies out the
-- oldest bytes in order, leaves the others in order, and the buffer stays well formed with its
-- capacity.
pub remove_items_cbuffer_t_lem :
    (c : CBuffer) (n : ℕ)
    → Inv c
    → n ≤ c.size
    → Ensures (remove_items_cbuffer_t c n) (λ r.
      (r.0 ≡ take n (contents c))
      × (contents r.1 ≡ drop n (contents c))
      × Inv r.1
      × (r.1.max_size ≡ c.max_size))
remove_items_cbuffer_t_lem c n v fits = elim (dec_le (c.head + n) c.max_size) [
  | yes h ↦ rw (remove-within c n v fits h) (
    eq_of_get_or (take n (drop c.head c.bytes)) (take n (contents c)) 0
        (length-within c n v fits h ∙ sym (length-taken c n v fits))
        (λ i p.
          let q : i < n = omega (arith, length-within c n v fits h) in
          within_at c n v fits i q h ∙ sym (get_or-take n (contents c) i 0 q)),
    contents-rest c n v fits (c.head + n) refl,
    ground (arith, v.size_le),
    refl,
  )
  | no h ↦
      let g : c.max_size < c.head + n = omega arith in
      rw (remove-beyond c n v fits g) (
        eq_of_get_or (wrapped c n v fits) (take n (contents c)) 0
            (length-wrapped c n v fits g ∙ sym (length-taken c n v fits))
            (λ i p.
              let q : i < n = omega (arith, length-wrapped c n v fits g) in
              beyond_at c n v fits i q g ∙ sym (get_or-take n (contents c) i 0 q)),
        contents-rest c n v fits (c.head + n - c.max_size) (beyond_head c n v fits g),
        ground (arith, v.size_le),
        refl,
      )
]

-- A longer block is refused: nothing is copied, and the buffer stays as it was.
remove_items-refused :
    (c : CBuffer) (n : ℕ) → c.size < n → remove_items_cbuffer_t c n ≡ some ([], c)
unfolding remove_items_cbuffer_t
remove_items-refused c n h = ground arith

batch-zero : (c : CBuffer) (k : ℕ) → min k c.size ≡ 0 → remove_cbuffer_t_batch c k ≡ some (0, [], c)
unfolding remove_cbuffer_t_batch
batch-zero c k e = ground arith

batch-pos :
    (c c' : CBuffer) (k n : ℕ) (out : List ℕ)
    → n ≡ min k c.size
    → 0 < n
    → remove_items_cbuffer_t c n ≡ some (out, c')
    → remove_cbuffer_t_batch c k ≡ some (n, out, c')
unfolding remove_cbuffer_t_batch
batch-pos c c' k n out e p h = ground arith

-- Removing a batch from a well-formed buffer never faults. It takes as many bytes as asked for or
-- held, whichever is less, and says how many; it copies them out in order, and leaves the others.
pub remove_cbuffer_t_batch_lem :
    (c : CBuffer) (max_nr_items : ℕ)
    → Inv c
    → Ensures (remove_cbuffer_t_batch c max_nr_items) (λ r.
      (r.0 ≡ min max_nr_items c.size)
      × (r.1 ≡ take r.0 (contents c))
      × (contents r.2 ≡ drop r.0 (contents c))
      × Inv r.2)
remove_cbuffer_t_batch_lem c k v = elim (ℕ_discrete (min k c.size) 0) [
  | yes z ↦ rw (batch-zero c k z) (sym z, refl, refl, v)
  | no nz ↦
      let n : ℕ = min k c.size in
      let (r, e, p) =
        Ensures-some (remove_items_cbuffer_t c n) _
          (remove_items_cbuffer_t_lem c n v (omega arith)) in
      rw (batch-pos c r.1 k n r.0 refl (omega arith) e) (refl, p.0, p.1, p.2)
]
