-- ===== src/Prelude/Runs.antt =====
-- Runs of consecutive numbers, and lists of numbers without repetition.
use mathlib.Core.List.{Perm, Mem, Nodup, Nodup-cons, Nodup-nil, mem-cons, not-mem-nil, Subset}
use mathlib.Core.List
use mathlib.Core.List.Nodup
use mathlib.Core.List.Subperm
use mathlib.Core.List.Perm
use mathlib.Core.Logic.Or
use mathlib.Core.HLevel.{×_prop}
use native.Mathlib.Bridge.{from_ℕ, from_le, le_prop}
use Prim.Native.Nat.{ℕ, zero, suc, ◌+◌, ◌≤◌, ◌<◌}
use mathlib.Core.Path.{◌≡◌, refl, ap, ◌∙◌, sym}
use mathlib.Core.List.{List, [], ◌∷◌}
use native.Mathlib.Omega.{arith}
use native.Mathlib.Decide.{ℕ_discrete}
use pmctrack.Prelude.Lists.{length}

-- `n` numbers from `i` on
abbrev pub run : ℕ → ℕ → List ℕ
run i zero = []
run i (suc n) = i ∷ run (suc i) n

pub length-run : (i n : ℕ) → length (run i n) ≡ n
length-run i zero = refl
length-run i (suc n) = ap suc (length-run (suc i) n)

pub mem-run : (x i n : ℕ) → Mem x (run i n) → (i ≤ x) × (x < i + n)
mem-run x i zero m = absurd (not-mem-nil m)
mem-run x i (suc n) m =
    Or.elim (×_prop le_prop le_prop) (mem-cons.0 m) (λ e. omega arith)
      (λ r. omega (arith, mem-run x (suc i) n r))

pub run-Mem : (x i n : ℕ) → i ≤ x → x < i + n → Mem x (run i n)
run-Mem x i zero h l = absurd (omega arith)
run-Mem x i (suc n) h l = elim (ℕ_discrete x i) [
  | yes e ↦ mem-cons.1 (Or.inl e)
  | no ne ↦ mem-cons.1 (Or.inr (run-Mem x (suc i) n (omega arith) (omega arith)))
]

pub run-Nodup : (i n : ℕ) → Nodup (run i n)
run-Nodup i zero = Nodup-nil
run-Nodup i (suc n) =
    Nodup-cons.1 ((λ m. let p = mem-run i (suc i) n m in omega arith), run-Nodup (suc i) n)

length-unary : (xs : List ℕ) → length xs ≡ from_ℕ (List.length xs)
length-unary [] = refl
length-unary (x ∷ xs) = ap suc (length-unary xs)

pub length-perm : {xs ys : List ℕ} → Perm xs ys → length xs ≡ length ys
length-perm {xs} {ys} p = length-unary xs ∙ ap from_ℕ (Perm.length-eq p) ∙ sym (length-unary ys)

pub length-Subset : {xs ys : List ℕ} → Nodup xs → Subset xs ys → length xs ≤ length ys
length-Subset {xs} {ys} d h =
    let le = from_le (Subperm.length-le (Nodup.subperm d h)) in
    omega (arith, length-unary xs, length-unary ys)
