-- ===== src/Smoother/Window.antt =====
-- A new sample in the window of a smoother.
use pmctrack.Prelude.{
  ℕ, suc, ◌+◌, ◌-◌, ◌/◌, ◌%◌, ◌^◌, ◌≤◌, ◌<◌, ◌≡◌, refl, ap, ap₂, sym, ◌∙◌, List, [], ◌∷◌, ◌++◌,
  some, arith, length, get_or, drop, take, length-append, length-drop, ◌==◌, leb, if◌then◌else◌,
  ◌>>=◌, true, false, Bool-cases, inl, inr, Ensures, Ensures-bind, get_or-take, mod_below,
}
use pmctrack.Prelude.Newest.{newest}
use pmctrack.Memory.{load, load_in}
use pmctrack.CBuffer.Inv.{contents, length-contents, get_or-contents}
use pmctrack.Smoother.{
  McCbuffer, MetricSmoother, push_mc_cbuffer, is_full_mc_cbuffer, head_mc_cbuffer, leaving,
  quotient, add_new_metric_sample_mst,
}
use pmctrack.Smoother.Ring.{view, IsRing, Pushed, push_mc_cbuffer_lem}

abbrev pub sum : List ℕ → ℕ
sum [] = 0
sum (x ∷ xs) = x + sum xs

sum-append : (xs ys : List ℕ) → sum (xs ++ ys) ≡ sum xs + sum ys
sum-append [] ys = omega arith
sum-append (x ∷ xs) ys = omega (arith, sum-append xs ys)

-- A window of 64-bit numbers whose sum is one too
abbrev pub average_of : List ℕ → ℕ
average_of window = sum window % 2 ^ 64 / length window

-- The ring holds `window`, and the average is that of its numbers; the sum is one of 64 bits.
pub record Averages (m : ℕ) (window : List ℕ) (mt : MetricSmoother) : Type 0 where
  pub ring : IsRing mt.cbuf
  pub room : mt.cbuf.max_size ≡ m
  pub held : contents (view mt.cbuf) ≡ window
  pub summed : mt.acum ≡ sum window % 2 ^ 64
  pub averaged : mt.average ≡ average_of window

-- What leaves a full window, if it is full
abbrev first_of : ℕ → List ℕ → ℕ
first_of m [] = 0
first_of m (x ∷ xs) = if leb m (suc (length xs)) then x else 0

sum-newest :
    (m : ℕ) (window : List ℕ) (x : ℕ)
    → 0 < m
    → length window ≤ m
    → sum (newest m (window ++ x ∷ [])) + first_of m window ≡ sum window + x
sum-newest m [] x p l =
    let q = ap (λ k. sum (drop k (x ∷ []))) {x = 1 - m} {y = 0} (omega arith) in omega (arith, q)
sum-newest m (y ∷ ys) x p l = elim (Bool-cases (leb m (suc (length ys)))) [
  | inl e ↦
      let n : length (y ∷ ys ++ x ∷ []) - m ≡ 1 = ground (arith, length-append ys (x ∷ [])) in
      let q = ap (λ k. sum (drop k (y ∷ ys ++ x ∷ []))) n in
      ground (arith, q, sum-append ys (x ∷ []))
  | inr e ↦
      let n : length (y ∷ ys ++ x ∷ []) - m ≡ 0 = ground (arith, length-append ys (x ∷ [])) in
      let q = ap (λ k. sum (drop k (y ∷ ys ++ x ∷ []))) n in
      ground (arith, q, sum-append ys (x ∷ []))
]

length-window :
    (c : McCbuffer) (window : List ℕ) → contents (view c) ≡ window → length window ≡ c.size
length-window c window h = sym (ap length h) ∙ length-contents (view c)

-- The first value of a ring that is not empty
head_value :
    (c : McCbuffer) (w : ℕ) (ws : List ℕ)
    → IsRing c
    → contents (view c) ≡ w ∷ ws
    → load c.items c.head ≡ some w
head_value c w ws v h =
    let n = length-window c (w ∷ ws) h in
    let c0 : (c.head + 0) % c.max_size ≡ c.head =
      omega (arith, mod_below (c.head + 0) c.max_size (omega (arith, v.head_in))) in
    load_in c.items c.head 0 (omega (arith, v.head_in, v.stored))
    ∙ ap some (
        sym (get_or-take c.max_size c.items c.head 0 v.head_in)
        ∙ ap (λ i. get_or (take c.max_size c.items) i 0) (sym c0)
        ∙ sym (get_or-contents (view c) 0 (omega arith))
        ∙ ap (λ l. get_or l 0 0) h)

leaving_lem :
    (c : McCbuffer) (window : List ℕ)
    → IsRing c
    → contents (view c) ≡ window
    → leaving c ≡ some (first_of c.max_size window)
unfolding leaving is_full_mc_cbuffer head_mc_cbuffer
leaving_lem c [] v h =
    let e : (c.size == c.max_size) ≡ false = ground (arith, length-window c [] h, v.some_room) in
    rw (e) refl
leaving_lem c (w ∷ ws) v h =
    let n = length-window c (w ∷ ws) h in
    let z : (c.size == 0) ≡ false = ground arith in
    elim (Bool-cases (c.size == c.max_size)) [
      | inl e ↦
          let f : leb c.max_size (suc (length ws)) ≡ true = ground arith in
          rw (e, z, f, head_value c w ws v h) refl
      | inr e ↦
          let f : leb c.max_size (suc (length ws)) ≡ false = ground (arith, v.size_le) in
          rw (e, f) refl
    ]

-- The sum after a step, on 64 bits
acum_step :
    (m : ℕ) (window : List ℕ) (acum x : ℕ)
    → 0 < m
    → length window ≤ m
    → acum ≡ sum window % 2 ^ 64
    → ((acum + 2 ^ 64 - first_of m window % 2 ^ 64) % 2 ^ 64 + x) % 2 ^ 64
      ≡ sum (newest m (window ++ x ∷ [])) % 2 ^ 64
acum_step m window acum x p l e = omega (arith, sum-newest m window x p l)

divided : (s c n : ℕ) → 0 < c → n ≡ c → quotient s c ≡ some (s / n)
divided s c n p e = let z : (c == 0) ≡ false = ground arith in rw (z, e) refl

pub push_mc_cbuffer-newest :
    (m : ℕ) (c c' : McCbuffer) (window : List ℕ) (x : ℕ)
    → c.max_size ≡ m
    → contents (view c) ≡ window
    → Pushed c x c'
    → contents (view c') ≡ newest m (window ++ x ∷ [])
push_mc_cbuffer-newest m c c' window x r h p =
    p.2
    ∙ ap₂ (λ k w. drop (length w + 1 - k) (w ++ x ∷ [])) r h
    ∙ ap (λ n. drop (n - m) (window ++ x ∷ [])) (omega (arith, length-append window (x ∷ [])))

averaged_step :
    (m : ℕ) (window : List ℕ) (cbuf : McCbuffer) (acum : ℕ)
    → IsRing cbuf
    → cbuf.max_size ≡ m
    → contents (view cbuf) ≡ window
    → acum ≡ sum window % 2 ^ 64
    → 0 < cbuf.size
    → Ensures
        (quotient acum cbuf.size
          >>= (λ average. some (average, record { cbuf = cbuf; acum = acum; average = average })))
        (λ (r : ℕ × MetricSmoother). (r.0 ≡ r.1.average) × Averages m window r.1)
averaged_step m window cbuf acum v r h e p =
    rw (divided acum cbuf.size (length window) p (length-window cbuf window h)) (
      refl,
      record { ring = v; room = r; held = h; summed = e; averaged = ap (λ s. s / length window) e },
    )

pub add_new_metric_sample_mst_lem :
    (m : ℕ) (window : List ℕ) (mt : MetricSmoother) (x : ℕ)
    → Averages m window mt
    → Ensures
        (add_new_metric_sample_mst mt x)
        (λ r. (r.0 ≡ r.1.average) × Averages m (newest m (window ++ x ∷ [])) r.1)
unfolding add_new_metric_sample_mst
add_new_metric_sample_mst_lem m window mt x a =
    let prev = leaving_lem mt.cbuf window a.ring a.held in
    rw (prev) (
      Ensures-bind (push_mc_cbuffer mt.cbuf x) (Pushed mt.cbuf x) _ _
        (push_mc_cbuffer_lem mt.cbuf x a.ring)
        (λ cbuf' p.
          let held = push_mc_cbuffer-newest m mt.cbuf cbuf' window x a.room a.held p in
          let n = length-window cbuf' (newest m (window ++ x ∷ [])) held in
          let summed =
            acum_step mt.cbuf.max_size window mt.acum x a.ring.some_room
              (omega (arith, length-window mt.cbuf window a.held, a.ring.size_le)) a.summed in
          averaged_step m (newest m (window ++ x ∷ [])) cbuf' _ p.0 (p.1 ∙ a.room) held
            (summed ∙ ap (λ k. sum (newest k (window ++ x ∷ [])) % 2 ^ 64) a.room)
            (omega (
              arith,
              n,
              length-drop (length (window ++ x ∷ []) - m) (window ++ x ∷ []),
              length-append window (x ∷ []),
              a.room,
              a.ring.some_room,
            ))))
