-- ===== src/Rmid.antt =====
-- The pool of resource monitoring ids (RMIDs), in src/modules/pmcs/intel_rdt_core.c. A pointer to a
-- node is its position in `node_pool`. `none` is a fault: an access outside an allocated array.
-- Random numbers and the readings of the monitoring hardware are arguments. The lock is not
-- modelled: each operation is one step.
pub mod Counter
pub mod Sharing
pub mod Get
pub mod Put
pub mod Init
pub mod Client
pub mod Nodes
pub mod Users
use pmctrack.Prelude.{
  ℕ, zero, suc, ◌+◌, ◌-◌, ◌*◌, ◌%◌, ◌^◌, List, [], ◌∷◌, ◌++◌, Option, none, some, Bool, true, false,
  not, ◌&&◌, ltb, leb, ◌==◌, if◌then◌else◌, ◌>>=◌, length, take, drop, add32, sub32,
}
use pmctrack.Prelude.Int.{ℤ, pos, enomem}
use pmctrack.Memory.{load, store, rem}

-- `rmid_node_t`, without its links
pub record RmidNode : Type 0 where
  pub rmid : ℕ
  pub ref_counter : ℕ
  pub free_rmid : Bool
  pub raw_bandwidth_value : List ℕ
  pub bandwidth_value : List ℕ

-- `rmid_allocation_policy_t`
pub data Policy : Type 0 where
  rmid_fifo : Policy
  rmid_lifo : Policy
  rmid_random : Policy

-- Of `intel_cmt_support_t`: `mbm_max_count` is 2 ^ `count_width` - 1.
pub record CmtSupport : Type 0 where
  pub count_width : ℕ
  pub upscaling_factor : ℕ

-- The static data of the file. `assigned_rmids` holds the first `nr_assigned_rmids` entries of the
-- array, of which `assigned_room` are allocated.
pub record Pool : Type 0 where
  pub node_pool : List RmidNode
  pub available_rmids : List ℕ
  pub nr_available_rmids : ℕ
  pub rmid_allocation_policy : Policy
  pub assigned_rmids : List ℕ
  pub assigned_room : ℕ

-- What the counter has advanced by since the last reading.
unfoldable pub advance : ℕ → ℕ → ℕ → ℕ
advance width raw val = if ltb val raw then (2 ^ width - 1 - raw) + val + 1 else val - raw

-- `val` is the reading, as 64 bits; the two highest ones say that it is not valid.
unfoldable pub update_local_bandwidth : CmtSupport → RmidNode → ℕ → ℕ → Option RmidNode
unfolding advance
update_local_bandwidth support node llc_id val = if leb (2 ^ 62) val then some node else (do
  raw ← load node.raw_bandwidth_value llc_id
  let val' = val % 2 ^ support.count_width
  bandwidth ←
      store node.bandwidth_value llc_id
        (advance support.count_width raw val' * support.upscaling_factor % 2 ^ 64)
  raws ← store node.raw_bandwidth_value llc_id val'
  some (record node { bandwidth_value = bandwidth; raw_bandwidth_value = raws }))

-- The nodes from `i` on, `n` of them, are made free and go to the end of the list.
unfoldable pub add_nodes : ℕ → ℕ → List RmidNode → List ℕ → Option (List RmidNode × List ℕ)
add_nodes i zero nodes available = some (nodes, available)
add_nodes i (suc n) nodes available = do
  node ← load nodes i
  nodes' ← store nodes i (record node { rmid = i + 1; free_rmid = true; ref_counter = 0 })
  add_nodes (suc i) n nodes' (available ++ i ∷ [])

-- With the arrays allocated: `allocated` are the nodes as `kmalloc` returns them, and `room` the
-- entries that it gives `assigned_rmids`.
unfoldable pub fill_rmid_pool : List RmidNode → ℕ → ℕ → Policy → ℕ → Option Pool
unfolding add_nodes
fill_rmid_pool allocated room nr_available_rmids policy random = do
  starting_item ← rem random nr_available_rmids
  (nodes, list) ← add_nodes starting_item (nr_available_rmids - starting_item) allocated []
  (nodes', list') ← add_nodes 0 starting_item nodes list
  some (record {
    node_pool = nodes';
    available_rmids = list';
    nr_available_rmids = nr_available_rmids;
    rmid_allocation_policy = policy;
    assigned_rmids = [];
    assigned_room = room;
  })

-- With the nodes, if they were allocated; the Booleans say whether the other arrays of `entries`
-- entries, `assigned_rmids` and `local_bandwidth_counts`, are.
unfoldable pub fill_allocated :
    Option (List RmidNode) → Bool → Bool → ℕ → ℕ → Policy → ℕ → Pool → Option (ℤ × Pool)
unfolding fill_rmid_pool
fill_allocated none assigned counts entries nr_available_rmids policy random p = some (enomem, p)
fill_allocated (some allocated) assigned counts entries nr_available_rmids policy random p =
    if not (assigned && counts) then some (enomem, p) else (do
      p' ← fill_rmid_pool allocated entries nr_available_rmids policy random
      some (pos 0, p'))

-- The arguments say what `kmalloc` gives for a number of nodes, of entries of `assigned_rmids` and of
-- `local_bandwidth_counts`.
unfoldable pub initialize_rmid_pool :
    (ℕ → Option (List RmidNode))
    → (ℕ → Bool)
    → (ℕ → Bool)
    → ℕ
    → Policy
    → ℕ
    → Pool
    → Option (ℤ × Pool)
unfolding fill_allocated
initialize_rmid_pool kmalloc_nodes kmalloc_rmids kmalloc_counts nr_available_rmids policy random p =
    let entries = nr_available_rmids - 1 in
    fill_allocated (kmalloc_nodes entries) (kmalloc_rmids entries) (kmalloc_counts entries) entries
      nr_available_rmids policy random p

-- The position of the node that the policy takes in the list of `listed` nodes.
unfoldable pub position : Policy → ℕ → ℕ → ℕ → Option ℕ
position rmid_fifo listed nr_available_rmids random = some 0
position rmid_lifo listed nr_available_rmids random = some (listed - 1)
position rmid_random listed nr_available_rmids random = rem random nr_available_rmids

-- The RMID of the node at position `k` of the list, and the pool after it is taken; `val` is the
-- reading for the node. Behind the end of the list there is no node.
unfoldable pub take_node : CmtSupport → Pool → ℕ → ℕ → Option (ℕ × Pool)
unfolding update_local_bandwidth
take_node support p val k = do
  i ← load p.available_rmids k
  node ← load p.node_pool i
  if ltb (length p.assigned_rmids) p.assigned_room
      then (do
        node' ←
            update_local_bandwidth support
              (record node { free_rmid = false; ref_counter = add32 node.ref_counter 1 }) 0 val
        nodes ← store p.node_pool i node'
        some (
          node.rmid,
          record p {
            node_pool = nodes;
            available_rmids = take k p.available_rmids ++ drop (suc k) p.available_rmids;
            nr_available_rmids = p.nr_available_rmids - 1;
            assigned_rmids = p.assigned_rmids ++ node.rmid ∷ [];
          },
        ))
      else none

-- 0 stands for no RMID.
unfoldable pub get_rmid : CmtSupport → Pool → ℕ → ℕ → Option (ℕ × Pool)
unfolding position take_node
get_rmid support p random val = if length p.available_rmids == 0 then some (0, p) else (do
  k ← position p.rmid_allocation_policy (length p.available_rmids) p.nr_available_rmids random
  take_node support p val k)

-- The entry leaves the array and the later ones close up; an entry that is not there takes the last
-- one along.
unfoldable pub compact : ℕ → List ℕ → List ℕ
compact rmid [] = []
compact rmid (x ∷ []) = []
compact rmid (x ∷ y ∷ ys) =
    let rest = compact rmid (y ∷ ys) in if x == rmid then y ∷ ys else x ∷ rest

-- One user less of the node at position `i`; after the last one it is free.
unfoldable pub release : Pool → ℕ → RmidNode → Option Pool
unfolding compact
release p i node =
    let left = sub32 node.ref_counter 1 in
    if left == 0
    then (do
      nodes ← store p.node_pool i (record node { ref_counter = 0; free_rmid = true })
      some (record p {
        node_pool = nodes;
        available_rmids = p.available_rmids ++ i ∷ [];
        nr_available_rmids = p.nr_available_rmids + 1;
        assigned_rmids = compact node.rmid p.assigned_rmids;
      }))
    else (do
      nodes ← store p.node_pool i (record node { ref_counter = left })
      some (record p { node_pool = nodes }))

unfoldable pub put_rmid : Pool → ℕ → Option Pool
unfolding release
put_rmid p rmid = if rmid == 0 then some p else (do
  node ← load p.node_pool (rmid - 1)
  if node.free_rmid then some p else release p (rmid - 1) node)

unfoldable pub use_rmid : Pool → ℕ → Option Pool
use_rmid p rmid = if rmid == 0 then some p else (do
  node ← load p.node_pool (rmid - 1)
  if node.free_rmid then some p else (do
    nodes ← store p.node_pool (rmid - 1) (record node { ref_counter = add32 node.ref_counter 1 })
    some (record p { node_pool = nodes })))

pub get_cmt_policy : Pool → Policy
get_cmt_policy p = p.rmid_allocation_policy

unfoldable pub set_cmt_policy : Pool → Policy → Pool
set_cmt_policy p new_policy = record p { rmid_allocation_policy = new_policy }
