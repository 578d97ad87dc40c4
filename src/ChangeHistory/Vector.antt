-- ===== src/ChangeHistory/Vector.antt =====
-- The ten bits as a list, the oldest first.
use pmctrack.Prelude.{
  ℕ, zero, suc, ◌+◌, ◌*◌, ◌%◌, ◌^◌, ◌<◌, ◌≤◌, ◌-◌, ◌≡◌, refl, Bool, true, false, ◌&&◌, ◌==◌, List,
  [], ◌∷◌, ◌++◌, arith, length,
}
use Prim.Native.Nat.{bit_and, bit_or, bit_xor}
use native.Mathlib.Nat.{pow-suc}

-- Over a small range, every value is checked by evaluation.
all_below : ℕ → (ℕ → Bool) → Bool
all_below zero p = true
all_below (suc n) p = p n && all_below n p

all_below_lem : (n : ℕ) (p : ℕ → Bool) (x : ℕ) → all_below n p ≡ true → x < n → p x ≡ true
unfolding all_below
all_below_lem zero p x h l = absurd (omega arith)
all_below_lem (suc n) p x h l = ground (arith, all_below_lem n p x)

last_bit_table : all_below 512 (λ x. bit_or x 0x200 == x + 512) ≡ true
unfolding all_below
last_bit_table = refl

low_bit_table : all_below 1024 (λ x. bit_and x 0x1 == x % 2) ≡ true
unfolding all_below
low_bit_table = refl

pub bit_or_last : (x : ℕ) → x < 512 → bit_or x 0x200 ≡ x + 512
bit_or_last x l = let t = all_below_lem 512 _ x last_bit_table l in ground arith

bit_and_low : (x : ℕ) → x < 1024 → bit_and x 0x1 ≡ x % 2
bit_and_low x l = let t = all_below_lem 1024 _ x low_bit_table l in ground arith

abbrev pub bit : Bool → ℕ
bit true = 1
bit false = 0

-- The word of some bits, the lowest first
abbrev pub word : List Bool → ℕ
word [] = 0
word (b ∷ bs) = bit b + 2 * word bs

abbrev pub stables : List Bool → ℕ
stables [] = 0
stables (b ∷ bs) = bit b + stables bs

abbrev pub changes : List Bool → ℕ
changes [] = 0
changes (true ∷ bs) = changes bs
changes (false ∷ bs) = suc (changes bs)

pub word_below : (bs : List Bool) → word bs < 2 ^ length bs
word_below [] = omega arith
word_below (true ∷ bs) = omega (arith, word_below bs, pow-suc 2 (length bs))
word_below (false ∷ bs) = omega (arith, word_below bs, pow-suc 2 (length bs))

pub word-append :
    (bs : List Bool) (b : Bool) → word (bs ++ b ∷ []) ≡ word bs + 2 ^ length bs * bit b
word-append [] b = omega arith
word-append (x ∷ bs) true = omega (arith, word-append bs true, pow-suc 2 (length bs))
word-append (x ∷ bs) false = omega (arith, word-append bs false, pow-suc 2 (length bs))

pub stables-append :
    (bs : List Bool) (cs : List Bool) → stables (bs ++ cs) ≡ stables bs + stables cs
stables-append [] cs = omega arith
stables-append (x ∷ bs) cs = omega (arith, stables-append bs cs)

pub changes-append :
    (bs : List Bool) (cs : List Bool) → changes (bs ++ cs) ≡ changes bs + changes cs
changes-append [] cs = omega arith
changes-append (true ∷ bs) cs = changes-append bs cs
changes-append (false ∷ bs) cs = omega (arith, changes-append bs cs)

pub stables-changes : (bs : List Bool) → stables bs + changes bs ≡ length bs
stables-changes [] = refl
stables-changes (true ∷ bs) = omega (arith, stables-changes bs)
stables-changes (false ∷ bs) = omega (arith, stables-changes bs)

pub changes_head : (b : Bool) (bs : List Bool) → changes (b ∷ bs) + bit b ≡ suc (changes bs)
changes_head true bs = omega arith
changes_head false bs = omega arith

pub bit_le : (b : Bool) → bit b ≤ 1
bit_le true = omega arith
bit_le false = omega arith

pub bit_not : (b : Bool) → bit_xor (bit b) 0x1 ≡ 1 - bit b
bit_not true = refl
bit_not false = refl

-- The lowest bit of a word
pub bit_and-word : (b : Bool) (bs : List Bool) → word bs < 512 → bit_and (word (b ∷ bs)) 0x1 ≡ bit b
bit_and-word b bs l = omega (arith, bit_and_low (word (b ∷ bs)) (omega (arith, bit_le b)), bit_le b)
