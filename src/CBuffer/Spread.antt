-- ===== src/CBuffer/Spread.antt =====
-- Pasting a block at a position of a ring, in two parts when it reaches the end.
use pmctrack.Prelude.{
  ℕ, ◌+◌, ◌-◌, ◌%◌, ◌<◌, ◌≤◌, ◌≡◌, refl, List, [], ◌∷◌, arith, dec_lt, length, get_or, drop, take,
  length-take, length-drop, get_or-drop, get_or-take, mod_below, mod_once, take_all, drop_all,
}
use pmctrack.Memory.{
  paste, paste-nil, length-paste, get_or-paste_before, get_or-paste_in, get_or-paste_after,
}

pub length_zero : (xs : List ℕ) → length xs ≡ 0 → xs ≡ []
length_zero [] e = refl
length_zero (x ∷ xs) e = absurd (omega arith)

-- The storage after the block is written at `w`, going round at `m`.
abbrev pub spread : List ℕ → ℕ → ℕ → List ℕ → List ℕ
spread bytes m w items = paste (paste bytes w (take (m - w) items)) 0 (drop (m - w) items)

pub length-spread :
    (bytes : List ℕ) (m w : ℕ) (items : List ℕ)
    → length bytes ≡ m
    → w < m
    → length items ≤ m
    → length (spread bytes m w items) ≡ m
length-spread bytes m w items e h k = omega (
  arith,
  length-take (m - w) items,
  length-drop (m - w) items,
  length-paste bytes w (take (m - w) items),
  length-paste (paste bytes w (take (m - w) items)) 0 (drop (m - w) items),
)

-- The `j`-th item of the block stands `j` places behind `w`,
pub get_or-spread_in :
    (bytes : List ℕ) (m w : ℕ) (items : List ℕ) (j p : ℕ)
    → length bytes ≡ m
    → w < m
    → length items ≤ m
    → j < length items
    → p ≡ (w + j) % m
    → get_or (spread bytes m w items) p 0 ≡ get_or items j 0
get_or-spread_in bytes m w items j p e h k l q = elim (dec_lt (w + j) m) [
  | yes r ↦ ground (
    arith,
    length-take (m - w) items,
    length-drop (m - w) items,
    length-paste bytes w (take (m - w) items),
    mod_below (w + j) m,
    get_or-paste_after (paste bytes w (take (m - w) items)) 0 (drop (m - w) items) p 0,
    get_or-paste_in bytes w (take (m - w) items) j 0,
    get_or-take (m - w) items j 0,
  )
  | no r ↦ ground (
    arith,
    length-take (m - w) items,
    length-drop (m - w) items,
    length-paste bytes w (take (m - w) items),
    mod_once (w + j) m,
    get_or-paste_in (paste bytes w (take (m - w) items)) 0 (drop (m - w) items) p 0,
    get_or-drop (m - w) items p 0,
  )
]

-- and no other place changes.
pub get_or-spread_out :
    (bytes : List ℕ) (m w : ℕ) (items : List ℕ) (j p : ℕ)
    → length bytes ≡ m
    → w < m
    → length items ≤ j
    → j < m
    → p ≡ (w + j) % m
    → get_or (spread bytes m w items) p 0 ≡ get_or bytes p 0
get_or-spread_out bytes m w items j p e h k l q = elim (dec_lt (w + j) m) [
  | yes r ↦ ground (
    arith,
    length-take (m - w) items,
    length-drop (m - w) items,
    length-paste bytes w (take (m - w) items),
    mod_below (w + j) m,
    get_or-paste_after (paste bytes w (take (m - w) items)) 0 (drop (m - w) items) p 0,
    get_or-paste_after bytes w (take (m - w) items) p 0,
  )
  | no r ↦ ground (
    arith,
    length-take (m - w) items,
    length-drop (m - w) items,
    length-paste bytes w (take (m - w) items),
    mod_once (w + j) m,
    get_or-paste_after (paste bytes w (take (m - w) items)) 0 (drop (m - w) items) p 0,
    get_or-paste_before bytes w (take (m - w) items) p 0,
  )
]

-- Writing the part that fits behind `w`, then the rest at the start, is `spread`.
pub spread-fits :
    (bytes : List ℕ) (m w : ℕ) (items : List ℕ)
    → w + length items ≤ m
    → spread bytes m w items ≡ paste bytes w items
spread-fits bytes m w items h = rw (
  take_all (m - w) items (omega arith),
  drop_all (m - w) items (omega arith),
  paste-nil (paste bytes w items) 0,
)
