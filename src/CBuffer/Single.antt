-- ===== src/CBuffer/Single.antt =====
-- Inserting and removing one byte, and emptying the buffer.
use pmctrack.Prelude.{
  ℕ, zero, suc, ◌+◌, ◌-◌, ◌%◌, ◌<◌, ◌≡◌, refl, min, get_elem?-eq-get_or, List, [], ◌∷◌, some, arith,
  dec_lt, ℕ_discrete, length, get_or, set, length-set, get_or-set_self, get_or-set_ne, Ensures,
}
use pmctrack.CBuffer.{CBuffer, insert_cbuffer_t, remove_cbuffer_t, clear_cbuffer_t}
use pmctrack.CBuffer.Inv.{
  Inv, contents, contents-eq, enqueue, length-enqueue, length-contents, get_or-contents,
  get_or-enqueue_old, get_or-enqueue_new, wrap,
}

pub insert-full :
    (c : CBuffer) (x : ℕ)
    → Inv c
    → c.head < c.max_size
    → c.size ≡ c.max_size
    → insert_cbuffer_t c x
      ≡ some (record c { bytes = set c.bytes c.head x; head = (c.head + 1) % c.max_size })
unfolding insert_cbuffer_t
insert-full c x v h e = ground arith

pub insert-room :
    (c : CBuffer) (x : ℕ)
    → Inv c
    → c.size < c.max_size
    → insert_cbuffer_t c x
      ≡ some
          (record c { bytes = set c.bytes ((c.head + c.size) % c.max_size) x; size = c.size + 1 })
unfolding insert_cbuffer_t
insert-room c x v e = ground arith

-- What inserting `xs` promises of the buffer after it.
abbrev pub Inserted : CBuffer → List ℕ → CBuffer → Type 0
Inserted c xs c' =
    Inv c' × (c'.max_size ≡ c.max_size) × (contents c' ≡ enqueue c.max_size (contents c) xs)

module _ (c : CBuffer) (x : ℕ) (v : Inv c) where
  overwrite_at :
      (h : c.head < c.max_size) (e : c.size ≡ c.max_size) (i : ℕ)
      → i < c.size
      → get_or (set c.bytes c.head x) (((c.head + 1) % c.max_size + i) % c.max_size) 0
        ≡ get_or (enqueue c.max_size (contents c) (x ∷ [])) i 0
  overwrite_at h e i hi = elim (dec_lt (i + 1) c.max_size) [
    | yes p ↦ ground (
      arith,
      v.storage,
      wrap c.max_size c.head 1,
      wrap c.max_size ((c.head + 1) % c.max_size) i,
      wrap c.max_size c.head (1 + i),
      get_or-enqueue_old c (x ∷ []) i 1,
      get_or-set_ne c.bytes c.head ((c.head + (1 + i)) % c.max_size) x 0,
    )
    | no p ↦ ground (
      arith,
      v.storage,
      wrap c.max_size c.head 1,
      wrap c.max_size ((c.head + 1) % c.max_size) i,
      get_or-enqueue_new c (x ∷ []) i 1,
      get_or-set_self c.bytes c.head x 0,
    )
  ]

  append_at :
      (e : c.size < c.max_size) (i : ℕ)
      → i < c.size + 1
      → get_or (set c.bytes ((c.head + c.size) % c.max_size) x) ((c.head + i) % c.max_size) 0
        ≡ get_or (enqueue c.max_size (contents c) (x ∷ [])) i 0
  append_at e i hi = elim (ℕ_discrete i c.size) [
    | yes p ↦ ground (
      arith,
      v.storage,
      wrap c.max_size c.head c.size,
      get_or-enqueue_new c (x ∷ []) i 0,
      get_or-set_self c.bytes ((c.head + c.size) % c.max_size) x 0,
    )
    | no p ↦ ground (
      arith,
      wrap c.max_size c.head c.size,
      wrap c.max_size c.head i,
      get_or-enqueue_old c (x ∷ []) i 0,
      get_or-set_ne c.bytes ((c.head + c.size) % c.max_size) ((c.head + i) % c.max_size) x 0,
    )
  ]

  length-inserted :
      (s : ℕ)
      → s ≡ min c.max_size (c.size + 1)
      → length (enqueue c.max_size (contents c) (x ∷ [])) ≡ s
  length-inserted s e =
      omega (arith, length-enqueue c.max_size (contents c) (x ∷ []), length-contents c)

-- Inserting a byte into a well-formed buffer whose head lies inside the storage never faults. The
-- buffer stays well formed with its head inside, keeps its capacity, and holds its old bytes with
-- the new one at the end, less the oldest one if it was full.
pub insert_cbuffer_t_lem :
    (c : CBuffer) (x : ℕ)
    → Inv c
    → c.head < c.max_size
    → Ensures (insert_cbuffer_t c x) (λ c'. Inserted c (x ∷ []) c' × (c'.head < c'.max_size))
insert_cbuffer_t_lem c x v h = elim (ℕ_discrete c.size c.max_size) [
  | yes e ↦
      let c' : CBuffer = record c {
        bytes = set c.bytes c.head x;
        head = (c.head + 1) % c.max_size;
      } in
      rw (insert-full c x v h e) (
        (
          ground (arith, length-set c.bytes c.head x, wrap c.max_size c.head 1),
          refl,
          contents-eq c' (enqueue c.max_size (contents c) (x ∷ []))
              (length-inserted c x v c.size (omega arith)) (overwrite_at c x v h e),
        ),
        ground (arith, wrap c.max_size c.head 1),
      )
  | no n ↦
      let p : c.size < c.max_size = omega (arith, v.size_le) in
      let pos : ℕ = (c.head + c.size) % c.max_size in
      let c' : CBuffer = record c { bytes = set c.bytes pos x; size = c.size + 1 } in
      rw (insert-room c x v p) (
        (
          ground (arith, length-set c.bytes pos x),
          refl,
          contents-eq c' (enqueue c.max_size (contents c) (x ∷ []))
              (length-inserted c x v (c.size + 1) (omega arith)) (append_at c x v p),
        ),
        h,
      )
]

remove-some :
    (c : CBuffer)
    → Inv c
    → c.head < c.max_size
    → 0 < c.size
    → remove_cbuffer_t c
      ≡ some (
        get_or c.bytes c.head 0,
        record c { head = (c.head + 1) % c.max_size; size = c.size - 1 },
      )
unfolding remove_cbuffer_t
remove-some c v h e = ground (arith, get_elem?-eq-get_or c.bytes c.head 0)

-- the buffer less its first byte
abbrev rest : CBuffer → CBuffer
rest c = record c { head = (c.head + 1) % c.max_size; size = c.size - 1 }

remove_at :
    (c : CBuffer)
    → Inv c
    → c.head < c.max_size
    → (i : ℕ) → i < c.size
    → get_or c.bytes ((c.head + i) % c.max_size) 0
      ≡ get_or (get_or c.bytes c.head 0 ∷ contents (rest c)) i 0
remove_at c v h zero p = ground (arith, wrap c.max_size c.head 0)
remove_at c v h (suc i) p = ground (
  arith,
  get_or-contents (rest c) i,
  wrap c.max_size c.head 1,
  wrap c.max_size c.head (suc i),
  wrap c.max_size ((c.head + 1) % c.max_size) i,
)

-- Removing a byte from a well-formed, non-empty buffer whose head lies inside the storage never
-- faults. It returns the oldest byte, leaves the others in order, and the buffer stays well formed
-- with its head inside.
pub remove_cbuffer_t_lem :
    (c : CBuffer)
    → Inv c
    → c.head < c.max_size
    → 0 < c.size
    → Ensures
        (remove_cbuffer_t c)
        (λ r. (contents c ≡ r.0 ∷ contents r.1) × Inv r.1 × (r.1.head < r.1.max_size))
remove_cbuffer_t_lem c v h e = rw (remove-some c v h e) (
  contents-eq c (get_or c.bytes c.head 0 ∷ contents (rest c))
      (omega (arith, length-contents (rest c))) (remove_at c v h),
  ground (arith, wrap c.max_size c.head 1),
  ground (arith, wrap c.max_size c.head 1),
)

-- An empty buffer yields the NUL byte and stays as it is.
pub remove-empty : (c : CBuffer) → c.size ≡ 0 → remove_cbuffer_t c ≡ some (0, c)
unfolding remove_cbuffer_t
remove-empty c e = ground arith

clear-Inv : (c : CBuffer) → Inv c → Inv (clear_cbuffer_t c) × (contents (clear_cbuffer_t c) ≡ [])
unfolding clear_cbuffer_t
clear-Inv c v = (omega arith, refl)
