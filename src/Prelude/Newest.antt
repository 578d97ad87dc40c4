-- ===== src/Prelude/Newest.antt =====
-- The last items of a list.
use Prim.Native.Nat.{ℕ, zero, suc, ◌+◌, ◌-◌, ◌≤◌}
use mathlib.Core.Path.{◌≡◌, refl, ap, ◌∙◌, sym}
use mathlib.Core.List.{List, [], ◌∷◌, ◌++◌}
use native.Mathlib.Omega.{arith}
use pmctrack.Prelude.Lists.{length, drop, length-append, length-drop}

-- The newest `m` items of a list that grows at its end.
abbrev pub newest {ℓ} : {A : Type ℓ} → ℕ → List A → List A
newest m xs = drop (length xs - m) xs

module _ {ℓ} {A : Type ℓ} where
  drop-append_left : (k : ℕ) (xs ys : List A) → k ≤ length xs → drop k xs ++ ys ≡ drop k (xs ++ ys)
  drop-append_left zero xs ys l = refl
  drop-append_left (suc k) [] ys l = absurd (omega arith)
  drop-append_left (suc k) (x ∷ xs) ys l = drop-append_left k xs ys (omega arith)

  drop_none : (n : ℕ) → drop {A = A} n [] ≡ []
  drop_none zero = refl
  drop_none (suc n) = refl

  drop-drop : (j k : ℕ) (xs : List A) → drop j (drop k xs) ≡ drop (k + j) xs
  drop-drop j zero xs = ap (λ n. drop n xs) (omega arith)
  drop-drop j (suc k) [] = drop_none j ∙ sym (drop_none (suc k + j))
  drop-drop j (suc k) (x ∷ xs) =
      drop-drop j k xs ∙ ap (λ n. drop n (x ∷ xs)) {x = suc (k + j)} (omega arith)

  -- Forgetting the oldest samples early or late makes no difference.
  pub newest-append : (m : ℕ) (xs ys : List A) → newest m (newest m xs ++ ys) ≡ newest m (xs ++ ys)
  newest-append m xs ys =
      let k = length xs - m in
      let e : drop k xs ++ ys ≡ drop k (xs ++ ys) = drop-append_left k xs ys (omega arith) in
      ap (λ l. drop (length (drop k xs ++ ys) - m) l) e
      ∙ drop-drop (length (drop k xs ++ ys) - m) k (xs ++ ys)
      ∙ ap (λ n. drop n (xs ++ ys))
          (omega (arith, length-append (drop k xs) ys, length-drop k xs, length-append xs ys))
