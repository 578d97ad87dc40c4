-- ===== src/CBuffer/Inv.antt =====
-- The representation invariant of `cbuffer_t` and the queue of bytes that it stands for.
use pmctrack.Prelude.{
  ℕ, ◌+◌, ◌-◌, ◌%◌, ◌^◌, ◌≤◌, ◌<◌, min, ◌≡◌, ◌⊎◌, inl, inr, List, ◌++◌, arith, dec_lt, length,
  get_or, drop, length-append, length-drop, get_or-drop, get_or-append_left, get_or-append_right,
  tabulate, length-tabulate, get_or-tabulate, tabulate-eq, mod_below, mod_once,
}
use native.Mathlib.Nat.{mod-eq-sub-mod}
use pmctrack.CBuffer.{CBuffer}

pub record Inv (c : CBuffer) : Type 0 where
  pub storage : length c.bytes ≡ c.max_size
  pub some_room : 0 < c.max_size
  pub small : c.max_size < 2 ^ 31
  pub head_le : c.head ≤ c.max_size
  pub size_le : c.size ≤ c.max_size

-- The bytes in the buffer, oldest first.
abbrev pub contents : CBuffer → List ℕ
contents c = tabulate c.size (λ i. get_or c.bytes ((c.head + i) % c.max_size) 0)

-- A bounded queue takes new items at its end and drops the oldest ones that exceed its capacity.
abbrev pub enqueue : ℕ → List ℕ → List ℕ → List ℕ
enqueue cap q xs = drop (length q + length xs - cap) (q ++ xs)

pub length-contents : (c : CBuffer) → length (contents c) ≡ c.size
length-contents c = length-tabulate c.size _

pub length-enqueue :
    (cap : ℕ) (q xs : List ℕ) → length (enqueue cap q xs) ≡ min cap (length q + length xs)
length-enqueue cap q xs =
    omega (arith, length-drop (length q + length xs - cap) (q ++ xs), length-append q xs)

pub get_or-contents :
    (c : CBuffer) (i : ℕ)
    → i < c.size
    → get_or (contents c) i 0 ≡ get_or c.bytes ((c.head + i) % c.max_size) 0
get_or-contents c i h = get_or-tabulate c.size _ i 0 h

-- An item of the queue after `enqueue` is an old one,
pub get_or-enqueue_old :
    (c : CBuffer) (xs : List ℕ) (i k : ℕ)
    → k ≡ c.size + length xs - c.max_size
    → k + i < c.size
    → get_or (enqueue c.max_size (contents c) xs) i 0
      ≡ get_or c.bytes ((c.head + (k + i)) % c.max_size) 0
get_or-enqueue_old c xs i k e h = ground (
  arith,
  length-contents c,
  get_or-drop (length (contents c) + length xs - c.max_size) (contents c ++ xs) i 0,
  get_or-append_left (contents c) xs (k + i) 0,
  get_or-contents c (k + i),
)

-- or a new one.
pub get_or-enqueue_new :
    (c : CBuffer) (xs : List ℕ) (i k : ℕ)
    → k ≡ c.size + length xs - c.max_size
    → c.size ≤ k + i
    → get_or (enqueue c.max_size (contents c) xs) i 0 ≡ get_or xs (k + i - c.size) 0
get_or-enqueue_new c xs i k e h = ground (
  arith,
  length-contents c,
  get_or-drop (length (contents c) + length xs - c.max_size) (contents c ++ xs) i 0,
  get_or-append_right (contents c) xs (k + i) 0,
)

-- The buffer holds the queue `q` when it has its length and agrees with it at each index.
pub contents-eq :
    (c : CBuffer) (q : List ℕ)
    → length q ≡ c.size
    → ((i : ℕ) → i < c.size → get_or c.bytes ((c.head + i) % c.max_size) 0 ≡ get_or q i 0)
    → contents c ≡ q
contents-eq c q e h = tabulate-eq c.size _ q 0 e h

-- The two places in which an index can lie that starts inside the storage.
pub wrap :
    (m h i : ℕ)
    → h ≤ m
    → i < m
    → ((h + i < m) × ((h + i) % m ≡ h + i)) ⊎ ((m ≤ h + i) × ((h + i) % m ≡ h + i - m))
wrap m h i p q = elim (dec_lt (h + i) m) [
  | yes r ↦ inl (r, mod_below (h + i) m r)
  | no r ↦ inr (omega arith, mod_once (h + i) m (omega arith) (omega arith))
]

-- The same where the offset may be the whole storage.
pub wrap_closed :
    (m h i : ℕ)
    → 0 < m
    → h ≤ m
    → i ≤ m
    → ((h + i < m) × ((h + i) % m ≡ h + i))
      ⊎ ((m ≤ h + i) × (h + i < m + m) × ((h + i) % m ≡ h + i - m))
      ⊎ ((h + i ≡ m + m) × ((h + i) % m ≡ 0))
wrap_closed m h i r p q = elim (dec_lt (h + i) m) [
  | yes a ↦ inl (a, mod_below (h + i) m a)
  | no a ↦ elim (dec_lt (h + i) (m + m)) [
    | yes b ↦ inr (inl (omega arith, b, mod_once (h + i) m (omega arith) b))
    | no b ↦ inr (
        inr (
          omega arith,
          omega (
            arith,
            mod-eq-sub-mod {n = h + i} {m = m} (omega arith),
            mod_once (h + i - m) m (omega arith) (omega arith),
          ),
        ))
  ]
]
