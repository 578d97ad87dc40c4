-- ===== src/SampleBuffer/Newest.antt =====
-- Samples as bytes, one behind the other, and the newest ones of them.
use pmctrack.Prelude.{
  ℕ, zero, suc, ◌+◌, ◌-◌, ◌*◌, ◌≤◌, ◌<◌, ◌≡◌, refl, ap, sym, ◌∙◌, List, [], ◌∷◌, ◌++◌, arith,
  length, drop, All, length-append, append-nil, append_assoc, ℕ_discrete,
}
use native.Mathlib.Nat.{mul-le-mul_right}
use pmctrack.Prelude.Newest.{newest}
use pmctrack.CBuffer.Inv.{enqueue}

-- The bytes of samples, one behind the other.
abbrev pub join : List (List ℕ) → List ℕ
join [] = []
join (x ∷ xs) = x ++ join xs

abbrev pub Sized : ℕ → List (List ℕ) → Type 0
Sized sz samples = All (λ x. length x ≡ sz) samples

length-join : (sz : ℕ) (xs : List (List ℕ)) → Sized sz xs → length (join xs) ≡ length xs * sz
length-join sz [] h = omega arith
length-join sz (x ∷ xs) h = omega (arith, length-append x (join xs), length-join sz xs h.1, h.0)

join-append : (xs ys : List (List ℕ)) → join (xs ++ ys) ≡ join xs ++ join ys
join-append [] ys = refl
join-append (x ∷ xs) ys =
    ap (λ l. x ++ l) (join-append xs ys) ∙ sym (append_assoc x (join xs) (join ys))

drop-append : (xs ys : List ℕ) → drop (length xs) (xs ++ ys) ≡ ys
drop-append [] ys = refl
drop-append (x ∷ xs) ys = drop-append xs ys

join-snoc : (xs : List (List ℕ)) (x : List ℕ) → join (xs ++ x ∷ []) ≡ join xs ++ x
join-snoc xs x = join-append xs (x ∷ []) ∙ ap (λ l. join xs ++ l) (append-nil x)

-- The ring is full, and the oldest sample goes.
enqueue_full :
    (sz m : ℕ) (y : List ℕ) (ys : List (List ℕ)) (x : List ℕ)
    → Sized sz (y ∷ ys)
    → length x ≡ sz
    → suc (length ys) ≡ m
    → enqueue (m * sz) (join (y ∷ ys)) x ≡ join (newest m (y ∷ ys ++ x ∷ []))
enqueue_full sz m y ys x h e l =
    ap (λ k. drop k (join (y ∷ ys) ++ x)) count
    ∙ ap (drop (length y)) (append_assoc y (join ys) x)
    ∙ drop-append y (join ys ++ x)
    ∙ sym (join-snoc ys x)
    ∙ ap (λ k. join (drop k (y ∷ ys ++ x ∷ []))) one
  where
    count : length (join (y ∷ ys)) + length x - m * sz ≡ length y
    count = omega (arith, length-join sz (y ∷ ys) h, h.0, ap (λ k. k * sz) l)

    one : 1 ≡ length (y ∷ ys ++ x ∷ []) - m
    one = omega (arith, length-append ys (x ∷ []))

enqueue_room :
    (sz m : ℕ) (xs : List (List ℕ)) (x : List ℕ)
    → Sized sz xs
    → length x ≡ sz
    → length xs < m
    → enqueue (m * sz) (join xs) x ≡ join (newest m (xs ++ x ∷ []))
enqueue_room sz m xs x h e l =
    ap (λ k. drop k (join xs ++ x)) count
    ∙ sym (join-snoc xs x)
    ∙ ap (λ k. join (drop k (xs ++ x ∷ []))) none_lost
  where
    count : length (join xs) + length x - m * sz ≡ 0
    count = omega (
      arith,
      length-join sz xs h,
      mul-le-mul_right {m = suc (length xs)} {n = m} sz (omega arith),
    )

    none_lost : 0 ≡ length (xs ++ x ∷ []) - m
    none_lost = omega (arith, length-append xs (x ∷ []))

pub enqueue-join :
    (sz m : ℕ) (xs : List (List ℕ)) (x : List ℕ)
    → Sized sz xs
    → length x ≡ sz
    → 0 < m
    → length xs ≤ m
    → enqueue (m * sz) (join xs) x ≡ join (newest m (xs ++ x ∷ []))
enqueue-join sz m [] x h e p l = enqueue_room sz m [] x h e p
enqueue-join sz m (y ∷ ys) x h e p l = elim (ℕ_discrete (suc (length ys)) m) [
  | yes q ↦ enqueue_full sz m y ys x h e q
  | no ne ↦ enqueue_room sz m (y ∷ ys) x h e (omega arith)
]

pub Sized-append :
    (sz : ℕ) (xs ys : List (List ℕ)) → Sized sz xs → Sized sz ys → Sized sz (xs ++ ys)
Sized-append sz [] ys h k = k
Sized-append sz (x ∷ xs) ys h k = (h.0, Sized-append sz xs ys h.1 k)

pub Sized-drop : (sz n : ℕ) (xs : List (List ℕ)) → Sized sz xs → Sized sz (drop n xs)
Sized-drop sz zero xs h = h
Sized-drop sz (suc n) [] h = h
Sized-drop sz (suc n) (x ∷ xs) h = Sized-drop sz n xs h.1
