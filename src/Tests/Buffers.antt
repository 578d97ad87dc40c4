-- ===== src/Tests/Buffers.antt =====
-- A byte ring of four places whose contents go round its end.
use pmctrack.Prelude.{◌<◌, ◌≡◌, refl, [], ◌∷◌, none, some, arith, Ensures, take, drop}
use pmctrack.CBuffer.{
  CBuffer, insert_cbuffer_t, insert_items_cbuffer_t, insert_tail, remove_cbuffer_t,
  remove_items_cbuffer_t, remove_cbuffer_t_batch, get_iterator_cbuffer_t,
}
use pmctrack.CBuffer.Inv.{Inv, contents}
use pmctrack.CBuffer.Single.{Inserted, insert_cbuffer_t_lem, remove_cbuffer_t_lem}
use pmctrack.CBuffer.Bulk.{insert_items_cbuffer_t_lem}
use pmctrack.CBuffer.Drain.{remove_items_cbuffer_t_lem, remove_cbuffer_t_batch_lem}
use pmctrack.CBuffer.Iterate.{walk, iterator_next_cbuffer_t_lem}
use pmctrack.CBuffer.Overrun.{remove_cbuffer_t-outside}

abbrev ring : CBuffer
ring = record { bytes = 12 ∷ 13 ∷ 10 ∷ 11 ∷ []; head = 2; size = 4; max_size = 4 }

abbrev half_ring : CBuffer
half_ring = record { bytes = 12 ∷ 0 ∷ 10 ∷ 11 ∷ []; head = 2; size = 3; max_size = 4 }

contents-ring : contents ring ≡ 10 ∷ 11 ∷ 12 ∷ 13 ∷ []
contents-ring = refl

insert_overwrites :
    insert_cbuffer_t ring 14 ≡ some (record ring { bytes = 12 ∷ 13 ∷ 14 ∷ 11 ∷ []; head = 3 })
unfolding insert_cbuffer_t
insert_overwrites = refl

insert_items_wraps :
    insert_items_cbuffer_t half_ring (14 ∷ 15 ∷ [])
    ≡ some (record half_ring { bytes = 12 ∷ 14 ∷ 15 ∷ 11 ∷ []; head = 3; size = 4 })
unfolding insert_items_cbuffer_t insert_tail
insert_items_wraps = refl

insert_cbuffer_t_lem_example :
    Ensures (insert_cbuffer_t ring 14) (λ c'. Inserted ring (14 ∷ []) c' × (c'.head < c'.max_size))
insert_cbuffer_t_lem_example = insert_cbuffer_t_lem ring 14 (omega arith) (omega arith)

remove_cbuffer_t_lem_example :
    Ensures
      (remove_cbuffer_t ring)
      (λ r. (contents ring ≡ r.0 ∷ contents r.1) × Inv r.1 × (r.1.head < r.1.max_size))
remove_cbuffer_t_lem_example = remove_cbuffer_t_lem ring (omega arith) (omega arith) (omega arith)

insert_items_cbuffer_t_lem_example :
    Ensures (insert_items_cbuffer_t half_ring (14 ∷ 15 ∷ [])) (Inserted half_ring (14 ∷ 15 ∷ []))
insert_items_cbuffer_t_lem_example =
    insert_items_cbuffer_t_lem half_ring (14 ∷ 15 ∷ []) (omega arith) (omega arith)

remove_items_cbuffer_t_lem_example : Ensures (remove_items_cbuffer_t ring 3) (λ r.
    (r.0 ≡ take 3 (contents ring))
    × (contents r.1 ≡ drop 3 (contents ring))
    × Inv r.1
    × (r.1.max_size ≡ 4))
remove_items_cbuffer_t_lem_example = remove_items_cbuffer_t_lem ring 3 (omega arith) (omega arith)

remove_cbuffer_t_batch_lem_example : Ensures (remove_cbuffer_t_batch half_ring 9) (λ r.
    (r.0 ≡ 3)
    × (r.1 ≡ take r.0 (contents half_ring))
    × (contents r.2 ≡ drop r.0 (contents half_ring))
    × Inv r.2)
remove_cbuffer_t_batch_lem_example = remove_cbuffer_t_batch_lem half_ring 9 (omega arith)

iterator_next_cbuffer_t_lem_example : walk 3 ring (get_iterator_cbuffer_t ring 2) ≡ 2 ∷ 0 ∷ []
iterator_next_cbuffer_t_lem_example =
    iterator_next_cbuffer_t_lem ring 2 2 (omega arith) (omega arith) (omega arith) (omega arith)
      refl

remove_cbuffer_t-outside_example :
    Ensures (remove_items_cbuffer_t ring 2) (λ r. remove_cbuffer_t r.1 ≡ none)
remove_cbuffer_t-outside_example = remove_cbuffer_t-outside ring 2 (omega arith) (omega arith) refl
