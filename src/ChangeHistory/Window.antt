-- ===== src/ChangeHistory/Window.antt =====
-- What the history says of the last ten values.
use pmctrack.Prelude.{
  ◌+◌, ◌-◌, ◌*◌, ◌/◌, ◌%◌, ◌^◌, ◌<◌, ◌≡◌, refl, ap, sym, subst, ◌∙◌, Bool, true, false, List, [],
  ◌∷◌, ◌++◌, arith, length, replicate, drop, length-append, append_assoc, append-nil,
}
use Prim.Native.Nat.{bit_and, bit_xor}
use pmctrack.Prelude.Newest.{newest, newest-append}
use pmctrack.ChangeHistory.{
  ChangeHistory, init_pmon_change_history, pmon_register_metric_change,
  pmon_register_metric_stable_value, register, register_all,
}
use pmctrack.ChangeHistory.Vector.{
  bit_or_last, bit_and-word, bit_le, bit_not, changes_head, bit, word, stables, changes, word_below,
  word-append, stables-append, changes-append, stables-changes,
}

-- The history remembers the window `w`.
pub record Remembers (w : List Bool) (h : ChangeHistory) : Type 0 where
  pub full : length w ≡ 10
  pub vector : h.change_vector ≡ word w
  pub local_stable : h.local_stable_values ≡ stables w
  pub local_changed : h.local_changes ≡ changes w

rest_below : (b : Bool) (w : List Bool) → length (b ∷ w) ≡ 10 → word w < 512
rest_below b w e = subst (λ n. word w < 2 ^ n) {x = length w} {y = 9} (omega arith) (word_below w)

low_bit :
    (b : Bool) (w : List Bool) (h : ChangeHistory)
    → Remembers (b ∷ w) h
    → bit_and h.change_vector 0x1 ≡ bit b
low_bit b w h r = ap (λ v. bit_and v 0x1) r.vector ∙ bit_and-word b w (rest_below b w r.full)

word_step :
    (b c : Bool) (w : List Bool) → length (b ∷ w) ≡ 10 → word (w ++ c ∷ []) ≡ word w + 512 * bit c
word_step b c w e =
    word-append w c ∙ ap (λ n. word w + 2 ^ n * bit c) {x = length w} {y = 9} (omega arith)

change_step :
    (b : Bool) (w : List Bool) (h : ChangeHistory)
    → Remembers (b ∷ w) h
    → Remembers (w ++ false ∷ []) (pmon_register_metric_change h)
unfolding pmon_register_metric_change
change_step b w h r =
    let low = low_bit b w h r in
    let small = stables-changes w in
    record {
      full = omega (arith, r.full, length-append w (false ∷ []));
      vector = omega (arith, r.vector, bit_le b, word_step b false w r.full);
      local_stable = omega (arith, r.full, r.local_stable, bit_le b, stables-append w (false ∷ []));
      local_changed =
          omega (arith, r.full, r.local_changed, changes_head b w, changes-append w (false ∷ []));
    }

stable_step :
    (b : Bool) (w : List Bool) (h : ChangeHistory)
    → Remembers (b ∷ w) h
    → Remembers (w ++ true ∷ []) (pmon_register_metric_stable_value h)
unfolding pmon_register_metric_stable_value
stable_step b w h r =
    let low : bit_xor (bit_and h.change_vector 0x1) 0x1 ≡ 1 - bit b =
      ap (λ v. bit_xor v 0x1) (low_bit b w h r) ∙ bit_not b in
    let small = stables-changes w in
    record {
      full = omega (arith, r.full, length-append w (true ∷ []));
      vector = omega (
        arith,
        r.vector,
        bit_le b,
        word_step b true w r.full,
        rest_below b w r.full,
        bit_or_last (h.change_vector / 2)
            (omega (arith, r.vector, bit_le b, rest_below b w r.full)),
      );
      local_stable = omega (arith, r.full, r.local_stable, bit_le b, stables-append w (true ∷ []));
      local_changed = omega (
        arith,
        r.full,
        r.local_changed,
        bit_le b,
        changes_head b w,
        changes-append w (true ∷ []),
      );
    }

register_step :
    (w : List Bool) (h : ChangeHistory) (stable : Bool)
    → Remembers w h
    → Remembers (newest 10 (w ++ stable ∷ [])) (register h stable)
register_step [] h stable r = absurd (omega (arith, r.full))
register_step (b ∷ w) h stable r =
    let e : length (b ∷ w ++ stable ∷ []) - 10 ≡ 1 =
      omega (arith, r.full, length-append w (stable ∷ [])) in
    subst (λ k. Remembers (drop k (b ∷ w ++ stable ∷ [])) (register h stable)) (sym e)
      (elim stable as (λ c. Remembers (w ++ c ∷ []) (register h c)) [
        | true ↦ stable_step b w h r
        | false ↦ change_step b w h r
      ])

register_all_lem :
    (w events : List Bool) (h : ChangeHistory)
    → Remembers (newest 10 w) h
    → Remembers (newest 10 (w ++ events)) (register_all h events)
register_all_lem w [] h r = subst (λ l. Remembers (newest 10 l) h) (sym (append-nil w)) r
register_all_lem w (x ∷ xs) h r =
    subst (λ l. Remembers (newest 10 l) (register_all (register h x) xs))
      (append_assoc w (x ∷ []) xs)
      (register_all_lem (w ++ x ∷ []) xs (register h x) (
        subst (λ l. Remembers l (register h x)) (newest-append 10 w (x ∷ []))
          (register_step (newest 10 w) h x r)))

-- Ten stable values, before the first event
abbrev pub unchanged : List Bool
unchanged = replicate 10 true

init-Remembers : Remembers unchanged init_pmon_change_history
unfolding init_pmon_change_history
init-Remembers = record { full = refl; vector = refl; local_stable = refl; local_changed = refl }

-- The absolute counters
counted :
    (events : List Bool) (h : ChangeHistory)
    → h.cnt_stable_values < 2 ^ 32
    → h.cnt_changes < 2 ^ 32
    → ((register_all h events).cnt_stable_values ≡ (h.cnt_stable_values + stables events) % 2 ^ 32)
      × ((register_all h events).cnt_changes ≡ (h.cnt_changes + changes events) % 2 ^ 32)
unfolding pmon_register_metric_change pmon_register_metric_stable_value
counted [] h p q = (omega arith, omega arith)
counted (true ∷ xs) h p q =
    let r = counted xs (register h true) (omega arith) q in (omega (arith, r.0), r.1)
counted (false ∷ xs) h p q =
    let r = counted xs (register h false) p (omega arith) in
    (omega (arith, r.0), omega (arith, r.1))

-- After any events since a history was set up, its vector has the last ten of them, the oldest
-- lowest and with ten stable values before the first. The local counters are the numbers of stable
-- values and of changes among these ten, and the absolute ones those among all events, modulo
-- `2 ^ 32`.
pub register_all-init_pmon_change_history :
    (events : List Bool)
    → let h = register_all init_pmon_change_history events in
      let w = newest 10 (unchanged ++ events) in
      (h.change_vector ≡ word w)
      × (h.local_stable_values ≡ stables w)
      × (h.local_changes ≡ changes w)
      × (h.local_stable_values + h.local_changes ≡ 10)
      × (h.cnt_stable_values ≡ stables events % 2 ^ 32)
      × (h.cnt_changes ≡ changes events % 2 ^ 32)
unfolding init_pmon_change_history
register_all-init_pmon_change_history events =
    let w = newest 10 (unchanged ++ events) in
    let r = register_all_lem unchanged events init_pmon_change_history init-Remembers in
    let c = counted events init_pmon_change_history (omega arith) (omega arith) in
    (
      r.vector,
      r.local_stable,
      r.local_changed,
      omega (arith, r.full, r.local_stable, r.local_changed, stables-changes w),
      omega (arith, c.0),
      omega (arith, c.1),
    )
