-- ===== src/SampleBuffer/Whole.antt =====
-- The buffer holds whole samples.
use pmctrack.Prelude.{
  ℕ, zero, suc, ◌-◌, ◌*◌, ◌/◌, ◌^◌, ◌≤◌, ◌<◌, ◌≡◌, refl, ap, ap₂, sym, subst, ◌∙◌, List, [], ◌∷◌,
  ◌++◌, Option, some, true, arith, length, drop, append-nil, append_assoc, Ensures, Ensures-at,
  Ensures-bind, ◌>>=◌, Bool-cases, inl, inr, length-drop,
}
use native.Mathlib.Nat.{mul-le-mul_right}
use pmctrack.CBuffer.{create_cbuffer_t, insert_items_cbuffer_t}
use pmctrack.CBuffer.Inv.{Inv, contents, enqueue}
use pmctrack.CBuffer.Bulk.{insert_items_cbuffer_t_lem}
use pmctrack.Prelude.Newest.{newest, newest-append}
use pmctrack.SampleBuffer.Newest.{join, Sized, enqueue-join, Sized-append, Sized-drop}
use pmctrack.SampleBuffer.{
  SampleBuffer, push_sample_cbuffer_nowakeup, push_sample_cbuffer, wake_up_monitor_program,
  kernel_buffer_size, allocate_pmc_samples_buffer,
}

-- The ring is well formed with room for `m` samples, and holds the given ones.
pub record Stores (sz m : ℕ) (samples : List (List ℕ)) (sbuf : SampleBuffer) : Type 0 where
  pub inv : Inv sbuf.pmc_samples
  pub room : sbuf.pmc_samples.max_size ≡ m * sz
  pub sized : Sized sz samples
  pub fits : length samples ≤ m
  pub held : contents sbuf.pmc_samples ≡ join samples

positive : (m sz : ℕ) → 0 < m * sz → 0 < m
positive zero sz h = omega arith
positive (suc m) sz h = omega arith

pub push_nowakeup-Stores :
    (sz m : ℕ) (samples : List (List ℕ)) (sbuf : SampleBuffer) (x : List ℕ)
    → Stores sz m samples sbuf
    → length x ≡ sz
    → Ensures (push_sample_cbuffer_nowakeup sbuf x) (Stores sz m (newest m (samples ++ x ∷ [])))
unfolding push_sample_cbuffer_nowakeup
push_nowakeup-Stores sz m samples sbuf x v e =
    let p : 0 < m = positive m sz (omega (arith, v.room, v.inv.some_room)) in
    let fit = mul-le-mul_right {m = 1} {n = m} sz p in
    Ensures-bind (insert_items_cbuffer_t sbuf.pmc_samples x) _ _ _
      (insert_items_cbuffer_t_lem sbuf.pmc_samples x v.inv (omega (arith, v.room, e)))
      (λ ring r. record {
        inv = r.0;
        room = r.1 ∙ v.room;
        sized =
            Sized-drop sz (length (samples ++ x ∷ []) - m) (samples ++ x ∷ [])
              (Sized-append sz samples (x ∷ []) v.sized (e, tt));
        fits = omega (arith, length-drop (length (samples ++ x ∷ []) - m) (samples ++ x ∷ []));
        held =
            r.2
            ∙ ap₂ (λ cap q. enqueue cap q x) v.room v.held
            ∙ enqueue-join sz m samples x v.sized e p v.fits;
      })

pub wake_up-Stores :
    (sz m : ℕ) (samples : List (List ℕ)) (sbuf : SampleBuffer)
    → Stores sz m samples sbuf
    → Stores sz m samples (wake_up_monitor_program sbuf)
unfolding wake_up_monitor_program
wake_up-Stores sz m samples sbuf v = elim (Bool-cases sbuf.monitor_waiting) [
  | inl e ↦
      rw (e) (record { inv = v.inv; room = v.room; sized = v.sized; fits = v.fits; held = v.held })
  | inr e ↦
      rw (e) (record { inv = v.inv; room = v.room; sized = v.sized; fits = v.fits; held = v.held })
]

pub nothing-Stores :
    (sz m : ℕ) (samples : List (List ℕ)) (sbuf : SampleBuffer)
    → Stores sz m samples sbuf
    → Stores sz m (newest m (samples ++ [])) sbuf
nothing-Stores sz m samples sbuf v =
    subst (λ l. Stores sz m l sbuf)
      (sym (
        ap (newest m) (append-nil samples)
        ∙ ap (λ n. drop n samples) {y = 0} (omega (arith, v.fits))))
      v

-- The samples of several threads or CPUs, one behind the other.
unfoldable pub push_all : SampleBuffer → List (List ℕ) → Option SampleBuffer
push_all sbuf [] = some sbuf
push_all sbuf (x ∷ xs) = do sbuf' ← push_sample_cbuffer sbuf x; push_all sbuf' xs

push_all-Stores :
    (sz m : ℕ) (samples : List (List ℕ)) (sbuf : SampleBuffer) (xs : List (List ℕ))
    → Stores sz m samples sbuf
    → Sized sz xs
    → Ensures (push_all sbuf xs) (Stores sz m (newest m (samples ++ xs)))
unfolding push_all push_sample_cbuffer
push_all-Stores sz m samples sbuf [] v h = nothing-Stores sz m samples sbuf v
push_all-Stores sz m samples sbuf (x ∷ xs) v h =
    Ensures-bind (push_sample_cbuffer sbuf x) (Stores sz m (newest m (samples ++ x ∷ []))) _ _
      (Ensures-bind (push_sample_cbuffer_nowakeup sbuf x) _ _ _
        (push_nowakeup-Stores sz m samples sbuf x v h.0)
        (λ sbuf' w. wake_up-Stores sz m (newest m (samples ++ x ∷ [])) sbuf' w))
      (λ sbuf' w.
        subst (λ l. Ensures (push_all sbuf' xs) (Stores sz m l))
          (newest-append m (samples ++ x ∷ []) xs
            ∙ ap (newest m) (append_assoc samples (x ∷ []) xs))
          (push_all-Stores sz m (newest m (samples ++ x ∷ [])) sbuf' xs w h.1))

-- Whatever size is asked for and accepted as that of the buffers, a buffer that is allocated with
-- it never tears a sample: after any number of samples are pushed, which never faults, it holds
-- the newest of them, each as a whole and in order, and loses none before as many are held as fit.
-- The size is less than 2 ^ 31.
pub push_sample_cbuffer_whole :
    (sz val size : ℕ) (storage : List ℕ) (sbuf : SampleBuffer) (xs : List (List ℕ))
    → kernel_buffer_size sz val ≡ some size
    → size < 2 ^ 31
    → length storage ≡ size
    → allocate_pmc_samples_buffer true true (some storage) size ≡ some sbuf
    → Sized sz xs
    → Ensures (push_all sbuf xs) (Stores sz (val / sz) (newest (val / sz) xs))
unfolding kernel_buffer_size allocate_pmc_samples_buffer create_cbuffer_t
push_sample_cbuffer_whole sz val size storage sbuf xs e l k a h =
    let m = val / sz in
    let q : (size ≡ m * sz) × (0 < size) = ground arith in
    push_all-Stores sz m [] sbuf xs
      (Ensures-at (allocate_pmc_samples_buffer true true (some storage) size) (Stores sz m [])
        (record {
          inv = record {
            storage = k;
            some_room = q.1;
            small = l;
            head_le = omega arith;
            size_le = omega arith;
          };
          room = q.0;
          sized = tt;
          fits = omega arith;
          held = refl;
        })
        a)
      h
