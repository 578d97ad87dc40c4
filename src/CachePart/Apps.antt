-- ===== src/CachePart/Apps.antt =====
-- The applications of the partitions (cache_part_set.c). Partitions and applications are found by
-- their index and their address; `none` is a fault, a null pointer that is followed. The sizes of the
-- lists of applications are those of the lists.
pub mod Members
pub mod Move
use pmctrack.Prelude.{
  ℕ, ◌+◌, ◌-◌, ◌^◌, List, [], ◌∷◌, ◌++◌, Option, none, some, Bool, true, ◌==◌, if◌then◌else◌, ◌>>=◌,
  sub32, add32,
}
use pmctrack.CachePart.{Partition}
use pmctrack.SizedList.{unlink}

-- Of `app_t`, what the partitions use
pub record App : Type 0 where
  pub cat_partition : Option ℕ
  pub last_partition : ℕ
  pub externally_managed_cos_id : Bool
  pub cos_id : ℕ
  pub last_llc_cbm : ℕ

-- The partitions, the lists `assigned_applications`, the applications, the list of those whose class
-- of service is to be updated later, and the bitmasks written to the hardware, latest first.
pub record Store : Type 0 where
  pub partitions : ℕ → Partition
  pub assigned_applications : ℕ → List ℕ
  pub apps : ℕ → App
  pub defered_cos_assignment : List ℕ
  pub writes : List (ℕ × ℕ)

unfoldable pub put_at {ℓ} : {A : Type ℓ} → (ℕ → A) → ℕ → A → ℕ → A
put_at f i v j = if j == i then v else f j

-- With the partition that the application is in
unfoldable pub refresh_to : Store → ℕ → Option ℕ → Store
unfolding put_at
refresh_to s app none = s
refresh_to s app (some i) =
    let mask = (s.partitions i).part_mask in
    if mask == (s.apps app).last_llc_cbm then s else record s {
      apps = put_at s.apps app (record (s.apps app) { last_llc_cbm = mask });
      writes = ((s.apps app).cos_id, mask) ∷ s.writes;
    }

unfoldable pub refresh_hw_partition_app : Store → ℕ → Store
unfolding refresh_to
refresh_hw_partition_app s app = refresh_to s app (s.apps app).cat_partition

-- What is set before the class of service
unfoldable pub enter_partition : Store → ℕ → ℕ → Store
unfolding put_at
enter_partition s app i = record s {
  partitions =
      put_at s.partitions i
        (record (s.partitions i) { nr_apps = add32 (s.partitions i).nr_apps 1 });
  assigned_applications = put_at s.assigned_applications i (s.assigned_applications i ++ app ∷ []);
  apps = put_at s.apps app (record (s.apps app) {
    cat_partition = some i;
    last_partition = (s.partitions i).part_index;
    cos_id =
        if (s.apps app).externally_managed_cos_id
        then (s.apps app).cos_id
        else (s.partitions i).clos_id;
  });
}

unfoldable pub add_app_to_partition : Store → ℕ → ℕ → Store
unfolding enter_partition refresh_hw_partition_app
add_app_to_partition s app i =
    if (s.apps app).externally_managed_cos_id
    then refresh_hw_partition_app (enter_partition s app i) app
    else enter_partition s app i

-- From the partition `i` that the application is in
unfoldable pub leave_partition : Store → ℕ → ℕ → Store
unfolding put_at
leave_partition s app i = record s {
  partitions =
      put_at s.partitions i
        (record (s.partitions i) { nr_apps = sub32 (s.partitions i).nr_apps 1 });
  assigned_applications = put_at s.assigned_applications i (unlink app (s.assigned_applications i));
  apps =
      put_at s.apps app (record (s.apps app) {
        last_partition = (s.partitions i).part_index;
        cat_partition = none;
      });
}

-- With the partition that the application is in
unfoldable pub remove_from : Store → ℕ → Option ℕ → Store
unfolding leave_partition put_at
remove_from s app none = record s {
  apps = put_at s.apps app (record (s.apps app) { last_partition = 2 ^ 32 - 1 });
}
remove_from s app (some i) = leave_partition s app i

unfoldable pub remove_application_from_partition : Store → ℕ → Store
unfolding remove_from
remove_application_from_partition s app = remove_from s app (s.apps app).cat_partition

-- From the partition that the application is in; without one, and with another one asked for, the
-- null pointer is followed.
unfoldable pub move_from : Store → ℕ → ℕ → Option ℕ → Option Store
unfolding leave_partition add_app_to_partition
move_from s app new_partition none = none
move_from s app new_partition (some i) =
    if i == new_partition
    then some s
    else some (add_app_to_partition (leave_partition s app i) app new_partition)

unfoldable pub move_within : Store → ℕ → ℕ → Option Store
unfolding move_from
move_within s app new_partition = move_from s app new_partition (s.apps app).cat_partition

unfoldable pub move_app_to_partition : Store → ℕ → ℕ → Option Store
unfolding move_within
move_app_to_partition s app new_partition = do
  s' ← move_within s app new_partition
  some (
      if (s'.apps app).externally_managed_cos_id
      then s'
      else record s' { defered_cos_assignment = s'.defered_cos_assignment ++ app ∷ [] })
