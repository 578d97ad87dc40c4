-- ===== src/Smoother/Ring.antt =====
-- The ring of numbers is a byte ring over the part of its array that is in use.
use pmctrack.Prelude.{
  ℕ, zero, suc, ◌+◌, ◌%◌, ◌^◌, ◌≤◌, ◌<◌, ◌≡◌, refl, ap, sym, ◌∙◌, List, [], ◌∷◌, some, arith,
  length, set, take, length-take, length-set, Ensures, Ensures-at, ℕ_discrete,
}
use pmctrack.CBuffer.{CBuffer, insert_cbuffer_t}
use pmctrack.CBuffer.Inv.{Inv, contents, enqueue}
use pmctrack.CBuffer.Single.{insert-full, insert-room, insert_cbuffer_t_lem}
use native.Mathlib.Nat.{mod-lt}
use pmctrack.Smoother.{McCbuffer, push_mc_cbuffer}

abbrev pub view : McCbuffer → CBuffer
view c = record {
  bytes = take c.max_size c.items;
  head = c.head;
  size = c.size;
  max_size = c.max_size;
}

-- A well-formed ring: its array is large enough, and the head is inside.
pub record IsRing (c : McCbuffer) : Type 0 where
  pub stored : c.max_size ≤ length c.items
  pub some_room : 0 < c.max_size
  pub small : c.max_size < 2 ^ 31
  pub head_in : c.head < c.max_size
  pub size_le : c.size ≤ c.max_size

view-Inv : (c : McCbuffer) → IsRing c → Inv (view c)
view-Inv c v = record {
  storage = omega (arith, length-take c.max_size c.items, v.stored);
  some_room = v.some_room;
  small = v.small;
  head_le = omega (arith, v.head_in);
  size_le = v.size_le;
}

take-set : (n : ℕ) (xs : List ℕ) (i x : ℕ) → set (take n xs) i x ≡ take n (set xs i x)
take-set zero xs i x = refl
take-set (suc n) [] i x = refl
take-set (suc n) (y ∷ ys) zero x = refl
take-set (suc n) (y ∷ ys) (suc i) x = ap (◌∷◌ y) (take-set n ys i x)

-- What pushing `x` leaves.
abbrev pub Pushed : McCbuffer → ℕ → McCbuffer → Type 0
Pushed c x c' =
    IsRing c'
    × (c'.max_size ≡ c.max_size)
    × (contents (view c') ≡ enqueue c.max_size (contents (view c)) (x ∷ []))

push-full :
    (c : McCbuffer) (x : ℕ)
    → IsRing c
    → c.size ≡ c.max_size
    → push_mc_cbuffer c x
      ≡ some (record c { items = set c.items c.head x; head = (c.head + 1) % c.max_size })
unfolding push_mc_cbuffer
push-full c x v e = ground (arith, v.stored, v.some_room, v.small, v.head_in)

push-room :
    (c : McCbuffer) (x : ℕ)
    → IsRing c
    → c.size < c.max_size
    → push_mc_cbuffer c x
      ≡ some
          (record c { items = set c.items ((c.head + c.size) % c.max_size) x; size = c.size + 1 })
unfolding push_mc_cbuffer
push-room c x v e = ground (
  arith,
  v.stored,
  v.some_room,
  v.small,
  v.head_in,
  v.size_le,
  mod-lt (c.head + c.size) v.some_room,
)

full-Pushed :
    (c : McCbuffer) (x : ℕ)
    → IsRing c
    → c.size ≡ c.max_size
    → Pushed c x (record c { items = set c.items c.head x; head = (c.head + 1) % c.max_size })
full-Pushed c x v e =
    let r =
      Ensures-at (insert_cbuffer_t (view c) x) _
        (insert_cbuffer_t_lem (view c) x (view-Inv c v) v.head_in)
        (insert-full (view c) x (view-Inv c v) v.head_in e) in
    (
      record {
        stored = omega (arith, length-set c.items c.head x, v.stored);
        some_room = v.some_room;
        small = v.small;
        head_in = mod-lt (c.head + 1) v.some_room;
        size_le = v.size_le;
      },
      refl,
      ap (λ bytes. contents (record (view c) { bytes = bytes; head = (c.head + 1) % c.max_size }))
            (sym (take-set c.max_size c.items c.head x))
          ∙ r.0.2,
    )

room-Pushed :
    (c : McCbuffer) (x : ℕ)
    → IsRing c
    → c.size < c.max_size
    → Pushed c x
        (record c { items = set c.items ((c.head + c.size) % c.max_size) x; size = c.size + 1 })
room-Pushed c x v l =
    let i = (c.head + c.size) % c.max_size in
    let r =
      Ensures-at (insert_cbuffer_t (view c) x) _
        (insert_cbuffer_t_lem (view c) x (view-Inv c v) v.head_in)
        (insert-room (view c) x (view-Inv c v) l) in
    (
      record {
        stored = omega (arith, length-set c.items i x, v.stored);
        some_room = v.some_room;
        small = v.small;
        head_in = v.head_in;
        size_le = omega arith;
      },
      refl,
      ap (λ bytes. contents (record (view c) { bytes = bytes; size = c.size + 1 }))
            (sym (take-set c.max_size c.items i x))
          ∙ r.0.2,
    )

-- Pushing onto a well-formed ring never faults, and puts the number behind the others, of which the
-- first goes if the ring is full.
pub push_mc_cbuffer_lem :
    (c : McCbuffer) (x : ℕ) → IsRing c → Ensures (push_mc_cbuffer c x) (Pushed c x)
push_mc_cbuffer_lem c x v = elim (ℕ_discrete c.size c.max_size) [
  | yes e ↦ rw (push-full c x v e) (full-Pushed c x v e)
  | no n ↦
      let l : c.size < c.max_size = omega (arith, v.size_le) in
      rw (push-room c x v l) (room-Pushed c x v l)
]
