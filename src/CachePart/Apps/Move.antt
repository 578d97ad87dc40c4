-- ===== src/CachePart/Apps/Move.antt =====
-- Moving an application to another partition, and removing it.
use pmctrack.Prelude.{
  ℕ, ◌+◌, ◌-◌, ◌^◌, ◌<◌, ◌≡◌, ◌≢◌, refl, ap, sym, ◌∙◌, inl, inr, List, Option, none, some, Bool,
  true, false, ◌==◌, if◌then◌else◌, arith, length, Bool-cases, ℕ_discrete, Ensures, Ensures-bind,
}
use pmctrack.CachePart.Apps.{
  App, Store, put_at, refresh_hw_partition_app, enter_partition, add_app_to_partition,
  leave_partition, remove_application_from_partition, move_app_to_partition, move_within, move_from,
  remove_from, refresh_to,
}
use pmctrack.CachePart.Apps.Members.{
  Inv, enter-Inv, leave-Inv, put_at_same, put_at_other, length-unlink,
}
use pmctrack.SizedList.{unlink}

-- The application `app` is at `place`, and every other one where it was.
abbrev pub Located : Store → ℕ → Option ℕ → Store → Type 0
Located s app place s' =
    ((s'.apps app).cat_partition ≡ place)
    × ((b : ℕ) → b ≢ app → (s'.apps b).cat_partition ≡ (s.apps b).cat_partition)

-- The partitions count their applications, of which `app` is at `place` and every other one where it
-- was.
abbrev pub Placed : Store → ℕ → Option ℕ → Store → Type 0
Placed s app place s' = Inv s' × Located s app place s'

enter-Located : (s : Store) (app i : ℕ) → Located s app (some i) (enter_partition s app i)
unfolding enter_partition
enter-Located s app i = (
  ap App.cat_partition (put_at_same s.apps app _ app refl),
  λ b ne. ap App.cat_partition (put_at_other s.apps app _ b ne),
)

leave-Located : (s : Store) (app i : ℕ) → Located s app none (leave_partition s app i)
unfolding leave_partition
leave-Located s app i = (
  ap App.cat_partition (put_at_same s.apps app _ app refl),
  λ b ne. ap App.cat_partition (put_at_other s.apps app _ b ne),
)

-- The invariant reads of an application only its partition.
module _ (s : Store) (app cbm : ℕ) (writes : List (ℕ × ℕ)) where
  marked : App
  marked = record (s.apps app) { last_llc_cbm = cbm }

  abbrev marked_store : Store
  marked_store = record s { apps = put_at s.apps app marked; writes = writes }

  marked-same : (b : ℕ) → (marked_store.apps b).cat_partition ≡ (s.apps b).cat_partition
  unfolding marked
  marked-same b = elim (ℕ_discrete b app) [
    | yes e ↦ rw (put_at_same s.apps app marked b e, e) refl
    | no ne ↦ rw (put_at_other s.apps app marked b ne) refl
  ]

  marked-Placed :
      (start : Store) (place : Option ℕ)
      → Placed start app place s
      → Placed start app place marked_store
  marked-Placed start place (inv, (here, others)) = (
    record {
      counted = inv.counted;
      listed = λ b j q. inv.listed b j (sym (marked-same b) ∙ q);
      pointing = λ b j m. marked-same b ∙ inv.pointing b j m;
      distinct = inv.distinct;
    },
    (marked-same app ∙ here, λ b ne. marked-same b ∙ others b ne),
  )

-- There is room for one more application in each count.
abbrev pub Small : Store → Type 0
Small s = (i : ℕ) → length (s.assigned_applications i) + 1 < 2 ^ 32

if-Placed :
    (start : Store) (app : ℕ) (place : Option ℕ) (b : Bool) (x y : Store)
    → Placed start app place x
    → Placed start app place y
    → Placed start app place (if b then x else y)
if-Placed start app place true x y h k = h
if-Placed start app place false x y h k = k

refresh_to-Placed :
    (start : Store) (place : Option ℕ) (s : Store) (app : ℕ) (at : Option ℕ)
    → Placed start app place s
    → Placed start app place (refresh_to s app at)
unfolding refresh_to marked
refresh_to-Placed start place s app none h = h
refresh_to-Placed start place s app (some i) h =
    if-Placed start app place ((s.partitions i).part_mask == (s.apps app).last_llc_cbm) _ _ h
      (marked-Placed s app (s.partitions i).part_mask _ start place h)

-- An application that is in no partition is added to one.
add-Placed :
    (s : Store) (app i : ℕ)
    → Small s
    → (s.apps app).cat_partition ≡ none
    → Inv s
    → Placed s app (some i) (add_app_to_partition s app i)
unfolding add_app_to_partition refresh_hw_partition_app
add-Placed s app i small free inv =
    let entered : Placed s app (some i) (enter_partition s app i) =
      (enter-Inv s app i (small i) free inv, enter-Located s app i) in
    if-Placed s app (some i) (s.apps app).externally_managed_cos_id _ _
      (refresh_to-Placed s (some i) (enter_partition s app i) app
        ((enter_partition s app i).apps app).cat_partition entered)
      entered

leave-Small :
    (s : Store) (app i : ℕ)
    → Inv s
    → (s.apps app).cat_partition ≡ some i
    → Small s
    → Small (leave_partition s app i)
unfolding leave_partition
leave-Small s app i inv e small j = elim (ℕ_discrete j i) [
  | yes k ↦
      rw (put_at_same s.assigned_applications i (unlink app (s.assigned_applications i)) j k)
        (omega (arith, length-unlink app (s.assigned_applications i) (inv.listed app i e), small i))
  | no k ↦
      rw (put_at_other s.assigned_applications i (unlink app (s.assigned_applications i)) j k)
        (small j)
]

move_from-Placed :
    (s : Store) (app new_partition : ℕ) (place : Option ℕ)
    → Inv s
    → Small s
    → (s.apps app).cat_partition ≡ place
    → place ≢ none
    → Ensures (move_from s app new_partition place) (Placed s app (some new_partition))
unfolding move_from
move_from-Placed s app new_partition none inv small e ne = absurd (ne refl)
move_from-Placed s app new_partition (some i) inv small e ne =
    elim (Bool-cases (i == new_partition)) [
      | inl b ↦ let k : i ≡ new_partition = ground arith in rw b (inv, (e ∙ ap some k, λ a q. refl))
      | inr b ↦
          let left = leave-Located s app i in
          let moved =
            add-Placed (leave_partition s app i) app new_partition (leave-Small s app i inv e small)
              left.0 (leave-Inv s app i (omega (arith, small i)) e inv) in
          rw b (moved.0, (moved.1.0, λ a q. moved.1.1 a q ∙ left.1 a q))
    ]

-- While every count of a partition has room for one more, moving an application that is in a
-- partition never faults. If each partition counts its applications right, lists each of them once,
-- and lists just those that point to it, this holds afterwards, with the application in the new
-- partition, and so in no other, and every other application where it was.
pub move_app_to_partition-Placed :
    (s : Store) (app new_partition : ℕ)
    → Inv s
    → Small s
    → (s.apps app).cat_partition ≢ none
    → Ensures (move_app_to_partition s app new_partition) (Placed s app (some new_partition))
unfolding move_app_to_partition move_within
move_app_to_partition-Placed s app new_partition inv small ne =
    Ensures-bind (move_from s app new_partition (s.apps app).cat_partition)
      (Placed s app (some new_partition)) _ (Placed s app (some new_partition))
      (move_from-Placed s app new_partition (s.apps app).cat_partition inv small refl ne)
      (λ s' v. if-Placed s app (some new_partition) (s'.apps app).externally_managed_cos_id s' _ v (
        record {
          counted = v.0.counted;
          listed = v.0.listed;
          pointing = v.0.pointing;
          distinct = v.0.distinct;
        },
        v.1,
      ))

remove_from-Placed :
    (s : Store) (app : ℕ) (place : Option ℕ)
    → Inv s
    → Small s
    → (s.apps app).cat_partition ≡ place
    → Placed s app none (remove_from s app place)
unfolding remove_from
remove_from-Placed s app (some i) inv small e =
    (leave-Inv s app i (omega (arith, small i)) e inv, leave-Located s app i)
remove_from-Placed s app none inv small e = (
  record {
    counted = inv.counted;
    listed = λ b j q. inv.listed b j (sym (same b) ∙ q);
    pointing = λ b j m. same b ∙ inv.pointing b j m;
    distinct = inv.distinct;
  },
  (same app ∙ e, λ b q. same b),
)
  where
    gone : App
    gone = record (s.apps app) { last_partition = 2 ^ 32 - 1 }

    same : (b : ℕ) → (put_at s.apps app gone b).cat_partition ≡ (s.apps b).cat_partition
    same b = elim (ℕ_discrete b app) [
      | yes k ↦ rw (put_at_same s.apps app gone b k, k) refl
      | no ne ↦ rw (put_at_other s.apps app gone b ne) refl
    ]

-- While every count of a partition has room for one more: if each partition counts its applications
-- right, lists each of them once, and lists just those that point to it, removing an application, in
-- a partition or in none, keeps this, with the application in no partition and every other one where
-- it was.
pub remove_application_from_partition-Placed :
    (s : Store) (app : ℕ)
    → Inv s
    → Small s
    → Placed s app none (remove_application_from_partition s app)
unfolding remove_application_from_partition
remove_application_from_partition-Placed s app inv small =
    remove_from-Placed s app (s.apps app).cat_partition inv small refl
