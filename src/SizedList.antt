-- ===== src/SizedList.antt =====
-- Linked lists with their length, in src/modules/pmcs/include/pmc/data_str/sized_list.h. An element
-- is its address, and the list is the addresses in their order; `none` is the null pointer. An
-- element that is named as being in the list is in it, and one that is inserted is not yet: to insert
-- it again would break the links of the C list. The callback `compare` is an argument.
pub mod Sorted
pub mod Insert
use mathlib.Core.List.{reverse}
use pmctrack.Prelude.{
  ℕ, zero, suc, ◌+◌, ◌-◌, List, [], ◌∷◌, ◌++◌, Option, none, some, Bool, true, false, not, ltb, leb,
  ◌==◌, if◌then◌else◌,
}
use pmctrack.Prelude.Int.{ℤ, pos, ltb_ℤ}

-- `sized_list_t`
pub record SizedList : Type 0 where
  pub items : List ℕ
  pub size : ℕ

pub sized_list_length : SizedList → ℕ
sized_list_length slist = slist.size

abbrev pub init_sized_list : SizedList
init_sized_list = record { items = []; size = 0 }

unfoldable pub insert_sized_list_tail : SizedList → ℕ → SizedList
insert_sized_list_tail slist elem = record {
  items = slist.items ++ elem ∷ [];
  size = slist.size + 1;
}

unfoldable pub insert_sized_list_head : SizedList → ℕ → SizedList
insert_sized_list_head slist elem = record { items = elem ∷ slist.items; size = slist.size + 1 }

-- `list_del`
unfoldable pub unlink : ℕ → List ℕ → List ℕ
unlink elem [] = []
unlink elem (x ∷ xs) = if x == elem then xs else x ∷ unlink elem xs

unfoldable pub remove_sized_list : SizedList → ℕ → SizedList
unfolding unlink
remove_sized_list slist elem = record { items = unlink elem slist.items; size = slist.size - 1 }

unfoldable pub first_of : List ℕ → Option ℕ
first_of [] = none
first_of (x ∷ xs) = some x

unfoldable pub last_of : List ℕ → Option ℕ
last_of [] = none
last_of (x ∷ []) = some x
last_of (x ∷ y ∷ ys) = last_of (y ∷ ys)

unfoldable pub head_sized_list : SizedList → Option ℕ
unfolding first_of
head_sized_list slist = first_of slist.items

unfoldable pub tail_sized_list : SizedList → Option ℕ
unfolding last_of
tail_sized_list slist = last_of slist.items

-- The elements from `elem` on
unfoldable pub from_elem : ℕ → List ℕ → List ℕ
from_elem elem [] = []
from_elem elem (x ∷ xs) = if x == elem then x ∷ xs else from_elem elem xs

unfoldable pub behind : List ℕ → Option ℕ
unfolding first_of
behind [] = none
behind (x ∷ xs) = first_of xs

unfoldable pub next_sized_list : SizedList → Option ℕ → Option ℕ
unfolding from_elem behind
next_sized_list slist none = none
next_sized_list slist (some elem) = behind (from_elem elem slist.items)

unfoldable pub prev_sized_list : SizedList → Option ℕ → Option ℕ
unfolding from_elem behind
prev_sized_list slist none = none
prev_sized_list slist (some elem) = behind (from_elem elem (reverse slist.items))

-- `list_add` behind an element, and `list_add_tail` before one
unfoldable pub link_after : ℕ → ℕ → List ℕ → List ℕ
link_after object new [] = []
link_after object new (x ∷ xs) = if x == object then x ∷ new ∷ xs else x ∷ link_after object new xs

unfoldable pub link_before : ℕ → ℕ → List ℕ → List ℕ
link_before object new [] = []
link_before object new (x ∷ xs) =
    if x == object then new ∷ x ∷ xs else x ∷ link_before object new xs

unfoldable pub insert_after_sized_list : SizedList → Option ℕ → ℕ → SizedList
unfolding insert_sized_list_head link_after
insert_after_sized_list slist none nobject = insert_sized_list_head slist nobject
insert_after_sized_list slist (some object) nobject = record {
  items = link_after object nobject slist.items;
  size = slist.size + 1;
}

unfoldable pub insert_before_sized_list : SizedList → Option ℕ → ℕ → SizedList
unfolding insert_sized_list_tail link_before
insert_before_sized_list slist none nobject = insert_sized_list_tail slist nobject
insert_before_sized_list slist (some object) nobject = record {
  items = link_before object nobject slist.items;
  size = slist.size + 1;
}

pub is_empty_sized_list : SizedList → Bool
is_empty_sized_list slist = slist.size == 0

-- The loop that removes the head until the size is 0.
unfoldable pub remove_sized_list_all : ℕ → SizedList → SizedList
unfolding remove_sized_list
remove_sized_list_all zero slist = slist
remove_sized_list_all (suc size) slist = elim slist.items [
  | [] ↦ slist
  | x ∷ xs ↦ remove_sized_list_all size (remove_sized_list slist x)
]

-- The first element that the walk from the head does not pass.
unfoldable pub search : (ℕ → Bool) → List ℕ → Option ℕ
search passes [] = none
search passes (x ∷ xs) = if passes x then search passes xs else some x

abbrev pub negative : ℤ → Bool
negative c = ltb_ℤ c (pos 0)

abbrev pub positive : ℤ → Bool
positive c = ltb_ℤ (pos 0) c

-- `<= 0` or `>= 0`
abbrev pub not_behind : Bool → ℤ → Bool
not_behind ascending c = if ascending then not (positive c) else not (negative c)

-- `< 0` or `> 0`
abbrev pub in_front : Bool → ℤ → Bool
in_front ascending c = if ascending then negative c else positive c

unfoldable pub sorted_insert_sized_list : SizedList → ℕ → Bool → (ℕ → ℕ → ℤ) → SizedList
unfolding search insert_before_sized_list
sorted_insert_sized_list slist object ascending compare =
    insert_before_sized_list slist
      (search (λ cur. not_behind ascending (compare cur object)) slist.items) object

unfoldable pub sorted_insert_front_sized_list : SizedList → ℕ → Bool → (ℕ → ℕ → ℤ) → SizedList
unfolding search insert_before_sized_list
sorted_insert_front_sized_list slist object ascending compare =
    insert_before_sized_list slist
      (search (λ cur. in_front ascending (compare cur object)) slist.items) object

-- The element that is in front of all others, the first one of those, from `selected` on.
unfoldable pub select : Bool → (ℕ → ℕ → ℤ) → ℕ → List ℕ → ℕ
select ascending compare selected [] = selected
select ascending compare selected (cur ∷ rest) =
    select ascending compare (if in_front ascending (compare cur selected) then cur else selected)
      rest

-- The loop of `sort_sized_list`, `n` times: the element selected from `cur` on moves behind
-- `prev_selected`.
unfoldable pub sort_from : Bool → (ℕ → ℕ → ℤ) → ℕ → SizedList → Option ℕ → Option ℕ → SizedList
unfolding select remove_sized_list insert_after_sized_list next_sized_list
sort_from ascending compare zero slist prev_selected cur = slist
sort_from ascending compare (suc n) slist prev_selected none = slist
sort_from ascending compare (suc n) slist prev_selected (some cur) =
    sort_from ascending compare n moved (some selected) (next_sized_list moved (some selected))
  where
    selected : ℕ
    selected = select ascending compare cur (from_elem cur slist.items)

    moved : SizedList
    moved = insert_after_sized_list (remove_sized_list slist selected) prev_selected selected

unfoldable pub sort_sized_list : SizedList → Bool → (ℕ → ℕ → ℤ) → SizedList
unfolding sort_from head_sized_list
sort_sized_list slist ascending compare =
    if leb slist.size 1
    then slist
    else sort_from ascending compare (slist.size - 1) slist none (head_sized_list slist)
