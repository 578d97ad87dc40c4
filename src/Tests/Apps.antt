-- ===== src/Tests/Apps.antt =====
-- An application that moves from the first partition to the second one.
use mathlib.Core.List.{Mem, mem-cons, mem-cons_self, not-mem-nil}
use mathlib.Core.Logic.Or
use pmctrack.Prelude.{
  ℕ, ◌+◌, ◌≡◌, refl, [], ◌∷◌, none, some, Bool, true, false, ◌==◌, if◌then◌else◌, arith, ℕ_discrete,
  Ensures,
}
use pmctrack.CachePart.{Partition}
use pmctrack.CachePart.Apps.{App, Store, move_app_to_partition, remove_application_from_partition}
use pmctrack.CachePart.Apps.Members.{Inv, Distinct}
use pmctrack.CachePart.Apps.Move.{
  Small, Placed, move_app_to_partition-Placed, remove_application_from_partition-Placed,
}

abbrev part : ℕ → Partition
part i = record {
  low_way = 0;
  high_way = 10;
  nr_ways = 11;
  clos_id = i + 1;
  part_id = i;
  part_index = i;
  part_mask = 2047;
  part_old_mask = 2047;
  nr_apps = if i == 0 then 1 else 0;
  has_extra_way = false;
  bias = 0;
}

abbrev app : ℕ → App
app a = record {
  cat_partition = if a == 7 then some 0 else none;
  last_partition = 0;
  externally_managed_cos_id = false;
  cos_id = 1;
  last_llc_cbm = 0;
}

abbrev store : Store
store = record {
  partitions = part;
  assigned_applications = λ i. if i == 0 then 7 ∷ [] else [];
  apps = app;
  defered_cos_assignment = [];
  writes = [];
}

zero_of : {i : ℕ} → some 0 ≡ some i → i ≡ 0
zero_of e = cc e

seven :
    (a i : ℕ) (b : Bool)
    → (a == 7) ≡ b
    → (if b then some 0 else none) ≡ some i
    → Mem a (if i == 0 then 7 ∷ [] else [])
seven a i true e q = let k : a ≡ 7 = ground (arith, e) in rw (zero_of q, k) mem-cons_self
seven a i false e q = cc q

only_seven :
    (a i : ℕ) (b : Bool)
    → (i == 0) ≡ b
    → Mem a (if b then 7 ∷ [] else [])
    → (if a == 7 then some 0 else none) ≡ some i
only_seven a i true e m = elim (ℕ_discrete a 7) [
  | yes k ↦ let z : i ≡ 0 = ground (arith, e) in rw (k, z) refl
  | no ne ↦
      absurd (Or.elim (λ u. absurd u) (mem-cons.0 m) (λ z. ne z) (λ n. absurd (not-mem-nil n)))
]
only_seven a i false e m = absurd (not-mem-nil m)

one_each : (i : ℕ) (b : Bool) → (i == 0) ≡ b → Distinct (if b then 7 ∷ [] else [])
one_each i true e = (not-mem-nil, tt)
one_each i false e = tt

store-Inv : Inv store
store-Inv = record {
  counted = λ i. ground arith;
  listed = λ a i q. seven a i (a == 7) refl q;
  pointing = λ a i m. only_seven a i (i == 0) refl m;
  distinct = λ i. one_each i (i == 0) refl;
}

store-Small : Small store
store-Small i = ground arith

move_app_to_partition-Placed_example :
    Ensures (move_app_to_partition store 7 1) (Placed store 7 (some 1))
move_app_to_partition-Placed_example =
    move_app_to_partition-Placed store 7 1 store-Inv store-Small (λ e. cc e)

remove_application_from_partition-Placed_example :
    Placed store 7 none (remove_application_from_partition store 7)
remove_application_from_partition-Placed_example =
    remove_application_from_partition-Placed store 7 store-Inv store-Small
