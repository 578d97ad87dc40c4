-- ===== src/Experiments/Rotation.antt =====
-- Going round the experiments of a set.
use pmctrack.Prelude.{
  ℕ, zero, suc, ◌+◌, ◌-◌, ◌%◌, ◌≤◌, ◌<◌, ◌≡◌, refl, ap, ◌∙◌, List, [], ◌∷◌, ◌++◌, Option, none,
  some, arith, length, map, replicate, get_or, get_elem?, mod_below, mod_once, ◌>>=◌, Ensures,
  Ensures-bind,
}
use native.Mathlib.Nat.{mod-lt, mod-add-mod}
use pmctrack.Memory.{load}
use pmctrack.Experiments.{
  Experiment, ExperimentSet, max_exp_coretype, next_exp, get_next_experiment_in_set,
}

-- The array of a set of the experiments `es`: NULL behind them.
abbrev pub slots : List Experiment → List (Option Experiment)
slots es = map some es ++ replicate (max_exp_coretype - length es) none

-- A set of the experiments `es`, with the current one among them if there is any.
pub record IsGroup (es : List Experiment) (s : ExperimentSet) : Type 0 where
  pub stored : s.exps ≡ slots es
  pub room : length es ≤ max_exp_coretype
  pub counted : s.nr_exps ≡ length es
  pub current : s.cur_exp + 1 ≤ length es

-- The result of a call, which is the next experiment, and the set.
abbrev Next : List Experiment → ℕ → Option Experiment × ExperimentSet → Type 0
Next es cur (exp, s) =
    IsGroup es s
    × (s.cur_exp ≡ (cur + 1) % length es)
    × (exp ≡ get_elem? es ((cur + 1) % length es))

load-slots :
    (es : List Experiment) (i : ℕ) → i < length es → load (slots es) i ≡ some (get_elem? es i)
load-slots es i h = in_front es (replicate (max_exp_coretype - length es) none) i h
  where
    in_front :
        (es : List Experiment) (xs : List (Option Experiment)) (i : ℕ)
        → i < length es
        → get_elem? (map some es ++ xs) i ≡ some (get_elem? es i)
    in_front [] xs i h = absurd (omega arith)
    in_front (e ∷ es) xs zero h = refl
    in_front (e ∷ es) xs (suc i) h = in_front es xs i (omega arith)

next_exp_lem :
    (es : List Experiment) (s : ExperimentSet)
    → IsGroup es s
    → next_exp s ≡ (s.cur_exp + 1) % length es
unfolding next_exp
next_exp_lem es s h = ground (
  arith,
  h.counted,
  h.current,
  mod_once (s.cur_exp + 1) (length es),
  mod_below (s.cur_exp + 1) (length es),
)

next_lem :
    (es : List Experiment) (s : ExperimentSet)
    → IsGroup es s
    → Ensures (get_next_experiment_in_set s) (Next es s.cur_exp)
unfolding get_next_experiment_in_set
next_lem es s h =
    let c = next_exp_lem es s h in
    let l : next_exp s < length es =
      omega
        (arith, c, h.current, mod-lt (s.cur_exp + 1) {m = length es} (omega (arith, h.current))) in
    let e : load s.exps (next_exp s) ≡ some (get_elem? es (next_exp s)) =
      ap (λ xs. load xs (next_exp s)) h.stored ∙ load-slots es (next_exp s) l in
    rw (e) (
      (record { stored = h.stored; room = h.room; counted = h.counted; current = omega arith }),
      c,
      ap (get_elem? es) c,
    )

-- `k` calls in a row: what they return, and the set.
unfoldable pub rotation : ℕ → ExperimentSet → Option (List (Option Experiment) × ExperimentSet)
rotation zero s = some ([], s)
rotation (suc k) s = do
  (exp, s') ← get_next_experiment_in_set s
  (exps, s'') ← rotation k s'
  some (exp ∷ exps, s'')

-- The experiments that the calls return, from the one after `cur` on.
abbrev pub Rounds : List Experiment → ℕ → ℕ → List (Option Experiment) × ExperimentSet → Type 0
Rounds es cur k (exps, s) =
    IsGroup es s
    × (s.cur_exp ≡ (cur + k) % length es)
    × (length exps ≡ k)
    × ((j : ℕ) → j < k → get_or exps j none ≡ get_elem? es ((cur + 1 + j) % length es))

Rounds-Next :
    (es : List Experiment) (cur k : ℕ) (r : Option Experiment × ExperimentSet)
    (q : List (Option Experiment) × ExperimentSet)
    → Next es cur r
    → Rounds es r.1.cur_exp k q
    → Rounds es cur (suc k) (r.0 ∷ q.0, q.1)
Rounds-Next es cur k r q n t = (t.0, t.1 ∙ shift k (cur + suc k) (omega arith), ap suc t.2, values)
  where
    shift : (j c : ℕ) → cur + 1 + j ≡ c → (r.1.cur_exp + j) % length es ≡ c % length es
    shift j c e =
        ap (λ x. (x + j) % length es) n.1
        ∙ mod-add-mod (cur + 1) (length es) j
        ∙ ap (λ x. x % length es) e

    values :
        (j : ℕ) → j < suc k → get_or (r.0 ∷ q.0) j none ≡ get_elem? es ((cur + 1 + j) % length es)
    values zero l = n.2 ∙ ap (λ x. get_elem? es (x % length es)) {y = cur + 1 + 0} (omega arith)
    values (suc i) l =
        t.3 i (omega arith)
        ∙ ap (λ x. get_elem? es (x % length es)) {y = r.1.cur_exp + (1 + i)} (omega arith)
        ∙ ap (get_elem? es) (shift (1 + i) (cur + 1 + suc i) (omega arith))

-- Over a set with experiments, of which one is the current one, any number of calls of
-- get_next_experiment_in_set never fault: they return the experiments in turn, beginning with the
-- one behind the current one and going round at the last, and never NULL, and the current one is
-- then as far on as there were calls.
pub rotation_lem :
    (es : List Experiment) (s : ExperimentSet) (k : ℕ)
    → IsGroup es s
    → Ensures (rotation k s) (Rounds es s.cur_exp k)
unfolding rotation
rotation_lem es s zero h = (
  h,
  omega (arith, mod_below (s.cur_exp + 0) (length es) (omega (arith, h.current))),
  refl,
  λ j l. absurd (omega arith),
)
rotation_lem es s (suc k) h =
    Ensures-bind (get_next_experiment_in_set s) (Next es s.cur_exp) _ _ (next_lem es s h) (λ r n.
      Ensures-bind (rotation k r.1) _ (λ q. some (r.0 ∷ q.0, q.1)) _ (rotation_lem es r.1 k n.0)
        (λ q t. Rounds-Next es s.cur_exp k r q n t))
