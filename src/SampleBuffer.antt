-- ===== src/SampleBuffer.antt =====
-- The buffer of samples that the kernel shares with a monitoring program, of
-- src/modules/pmcs/include/pmc/mc_experiments.h and mc_experiments.c: a byte ring with a reference
-- count, and a semaphore on which the program waits. A sample is its bytes, sizeof(pmc_sample_t) of
-- them. `none` is a fault.
pub mod Newest
pub mod Whole
use pmctrack.Prelude.{
  ℕ, ◌+◌, ◌*◌, ◌/◌, Bool, true, false, List, [], ◌∷◌, Option, none, some, ◌==◌, if◌then◌else◌,
  ◌>>=◌, add32, sub32,
}
use pmctrack.CBuffer.{CBuffer, create_cbuffer_t, insert_items_cbuffer_t}

-- `pmc_samples_buffer_t`, less its lock; `sem_queue` is the count of the semaphore.
pub record SampleBuffer : Type 0 where
  pub pmc_samples : CBuffer
  pub sem_queue : ℕ
  pub monitor_waiting : Bool
  pub ref_counter : ℕ

unfoldable pub with_ring : Option CBuffer → Option SampleBuffer
with_ring none = none
with_ring (some ring) =
    some (record { pmc_samples = ring; sem_queue = 0; monitor_waiting = false; ref_counter = 1 })

-- `none` is NULL here. The allocations are arguments: of this structure, of that of the ring, and
-- of its storage.
unfoldable pub allocate_pmc_samples_buffer : Bool → Bool → Option (List ℕ) → ℕ → Option SampleBuffer
unfolding with_ring
allocate_pmc_samples_buffer false ring storage size_bytes = none
allocate_pmc_samples_buffer true ring storage size_bytes =
    with_ring (create_cbuffer_t ring storage size_bytes)

unfoldable pub get_pmc_samples_buffer : SampleBuffer → SampleBuffer
get_pmc_samples_buffer sbuf = record sbuf { ref_counter = add32 sbuf.ref_counter 1 }

pub get_pmc_samples_buffer_refs : SampleBuffer → ℕ
get_pmc_samples_buffer_refs sbuf = sbuf.ref_counter

-- `none` when the last reference is gone, and the buffer with it.
unfoldable pub put_pmc_samples_buffer : SampleBuffer → Option SampleBuffer
put_pmc_samples_buffer sbuf =
    if sub32 sbuf.ref_counter 1 == 0
    then none
    else some (record sbuf { ref_counter = sub32 sbuf.ref_counter 1 })

unfoldable pub wake_up_monitor_program : SampleBuffer → SampleBuffer
wake_up_monitor_program sbuf =
    if sbuf.monitor_waiting
    then record sbuf { monitor_waiting = false; sem_queue = sbuf.sem_queue + 1 }
    else sbuf

unfoldable pub push_sample_cbuffer_nowakeup : SampleBuffer → List ℕ → Option SampleBuffer
push_sample_cbuffer_nowakeup sbuf sample = do
  ring ← insert_items_cbuffer_t sbuf.pmc_samples sample
  some (record sbuf { pmc_samples = ring })

-- pmc_samples_buffer_overflow, called first on a full ring, does nothing.
unfoldable pub push_sample_cbuffer : SampleBuffer → List ℕ → Option SampleBuffer
unfolding push_sample_cbuffer_nowakeup wake_up_monitor_program
push_sample_cbuffer sbuf sample = do
  sbuf' ← push_sample_cbuffer_nowakeup sbuf sample
  some (wake_up_monitor_program sbuf')

-- The size that writing `kernel_buffer_size` to the configuration file sets, `none` for -EINVAL:
-- as many whole samples, of `sample_size` bytes each, as fit.
unfoldable pub kernel_buffer_size : ℕ → ℕ → Option ℕ
kernel_buffer_size sample_size val =
    if val / sample_size * sample_size == 0 then none else some (val / sample_size * sample_size)
