-- ===== src/Memory.antt =====
-- Reads, writes and block copies on an allocated array, and the remainder, as C has them: an access
-- past the end of the allocation or a division by zero is a fault, `none`.
use pmctrack.Prelude.{
  ℕ, ◌+◌, ◌-◌, ◌%◌, ◌≤◌, ◌<◌, ◌≡◌, ap, ◌∙◌, List, [], ◌++◌, Option, none, some, ltb, leb, ◌==◌,
  if◌then◌else◌, arith, length, get_elem?, get_or, set, take, drop, length-append, length-take,
  length-drop, get_elem?-eq-get_or, get_or-append_left, get_or-append_right, get_or-take,
  get_or-drop, take-append-drop,
}

module _ {ℓ} {A : Type ℓ} where
  abbrev pub load : List A → ℕ → Option A
  load xs i = get_elem? xs i

  abbrev pub store : List A → ℕ → A → Option (List A)
  store xs i v = if ltb i (length xs) then some (set xs i v) else none

  -- What `memcpy` into the array at `i` leaves there.
  abbrev pub paste : List A → ℕ → List A → List A
  paste xs i ys = take i xs ++ (ys ++ drop (i + length ys) xs)

  -- `memcpy(&xs[i], ys, n)`, with `ys` the `n` items
  abbrev pub copy_in : List A → ℕ → List A → Option (List A)
  copy_in xs i ys = if leb (i + length ys) (length xs) then some (paste xs i ys) else none

  -- `memcpy(out, &xs[i], n)`
  abbrev pub copy_out : List A → ℕ → ℕ → Option (List A)
  copy_out xs i n = if leb (i + n) (length xs) then some (take n (drop i xs)) else none

  pub load_in : (xs : List A) (i : ℕ) (d : A) → i < length xs → load xs i ≡ some (get_or xs i d)
  load_in = get_elem?-eq-get_or

  pub store_in : (xs : List A) (i : ℕ) (v : A) → i < length xs → store xs i v ≡ some (set xs i v)
  store_in xs i v h = ground arith

  pub length-paste :
      (xs : List A) (i : ℕ) (ys : List A)
      → i + length ys ≤ length xs
      → length (paste xs i ys) ≡ length xs
  length-paste xs i ys h = omega (
    arith,
    length-append (take i xs) (ys ++ drop (i + length ys) xs),
    length-append ys (drop (i + length ys) xs),
    length-take i xs,
    length-drop (i + length ys) xs,
  )

  pub get_or-paste_before :
      (xs : List A) (i : ℕ) (ys : List A) (j : ℕ) (d : A)
      → i + length ys ≤ length xs
      → j < i
      → get_or (paste xs i ys) j d ≡ get_or xs j d
  get_or-paste_before xs i ys j d h k = ground (
    arith,
    get_or-append_left (take i xs) (ys ++ drop (i + length ys) xs) j d
        (omega (arith, length-take i xs)),
    get_or-take i xs j d k,
  )

  pub get_or-paste_in :
      (xs : List A) (i : ℕ) (ys : List A) (j : ℕ) (d : A)
      → i + length ys ≤ length xs
      → j < length ys
      → get_or (paste xs i ys) (i + j) d ≡ get_or ys j d
  get_or-paste_in xs i ys j d h k = ground (
    arith,
    get_or-append_right (take i xs) (ys ++ drop (i + length ys) xs) (i + j) d
        (omega (arith, length-take i xs)),
    length-take i xs,
    get_or-append_left ys (drop (i + length ys) xs) (i + j - length (take i xs)) d
        (omega (arith, length-take i xs)),
  )

  pub get_or-paste_after :
      (xs : List A) (i : ℕ) (ys : List A) (j : ℕ) (d : A)
      → i + length ys ≤ length xs
      → i + length ys ≤ j
      → get_or (paste xs i ys) j d ≡ get_or xs j d
  get_or-paste_after xs i ys j d h k = ground (
    arith,
    get_or-append_right (take i xs) (ys ++ drop (i + length ys) xs) j d
        (omega (arith, length-take i xs)),
    length-take i xs,
    get_or-append_right ys (drop (i + length ys) xs) (j - length (take i xs)) d
        (omega (arith, length-take i xs)),
    get_or-drop (i + length ys) xs (j - length (take i xs) - length ys) d,
  )

module _ {ℓ} {A : Type ℓ} where
  pub paste-nil : (xs : List A) (i : ℕ) → paste xs i [] ≡ xs
  paste-nil xs i = ap (λ k. take i xs ++ drop k xs) (omega arith) ∙ take-append-drop i xs

abbrev pub rem : ℕ → ℕ → Option ℕ
rem a b = if b == 0 then none else some (a % b)

pub rem_pos : (a b : ℕ) → 0 < b → rem a b ≡ some (a % b)
rem_pos a b h = ground arith
