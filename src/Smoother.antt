-- ===== src/Smoother.antt =====
-- The average of the last values of a metric, of src/modules/pmcs/include/pmc/hl_events.h, and the
-- ring of numbers that it keeps them in, of include/pmc/data_str/mc_cbuffer.h. `none` is an access
-- outside of the array of the ring, or a division by zero.
pub mod Average
pub mod Ring
pub mod Window
use pmctrack.Prelude.{
  ℕ, ◌+◌, ◌-◌, ◌/◌, ◌%◌, ◌^◌, Bool, List, Option, none, some, ◌==◌, leb, if◌then◌else◌, ◌>>=◌,
  length, add32, sub32,
}
use pmctrack.Memory.{load, store, rem}

-- MC_MAX_CBUFFER_SIZE
abbrev pub mc_max_cbuffer_size : ℕ
mc_max_cbuffer_size = 20

-- `mc_cbuffer`; `items` is its array `data`.
pub record McCbuffer : Type 0 where
  pub items : List ℕ
  pub head : ℕ
  pub size : ℕ
  pub max_size : ℕ

-- The array is not written.
unfoldable pub init_mc_cbuffer : List ℕ → ℕ → McCbuffer
init_mc_cbuffer items max_size = record {
  items = items;
  head = 0;
  size = 0;
  max_size = if leb max_size mc_max_cbuffer_size then max_size else mc_max_cbuffer_size;
}

unfoldable pub is_full_mc_cbuffer : McCbuffer → Bool
is_full_mc_cbuffer c = c.size == c.max_size

pub is_empty_mc_cbuffer : McCbuffer → Bool
is_empty_mc_cbuffer c = c.size == 0

pub clear_mc_cbuffer : McCbuffer → McCbuffer
clear_mc_cbuffer c = record c { size = 0; head = 0 }

unfoldable pub push_mc_cbuffer : McCbuffer → ℕ → Option McCbuffer
push_mc_cbuffer c new_value =
    if c.size == c.max_size
    then (do
      items' ← store c.items c.head new_value
      head' ← if c.size == 0 then some c.head else rem (add32 c.head 1) c.max_size
      some (record c { items = items'; head = head' }))
    else (do
      pos ← if c.max_size == 0 then some 0 else rem (add32 c.head c.size) c.max_size
      items' ← store c.items pos new_value
      some (record c { items = items'; size = add32 c.size 1 }))

unfoldable pub pop_mc_cbuffer : McCbuffer → Option McCbuffer
pop_mc_cbuffer c = if c.size == 0 then some c else (do
  head' ← rem (add32 c.head 1) c.max_size
  some (record c { head = head'; size = sub32 c.size 1 }))

-- The index of the first item, `none` for NULL
unfoldable pub head_mc_cbuffer : McCbuffer → Option ℕ
head_mc_cbuffer c = if c.size == 0 then none else some c.head

-- `metric_smoother_t`
pub record MetricSmoother : Type 0 where
  pub cbuf : McCbuffer
  pub acum : ℕ
  pub average : ℕ

unfoldable pub init_metric_smoother : List ℕ → ℕ → ℕ → Option MetricSmoother
unfolding init_mc_cbuffer push_mc_cbuffer
init_metric_smoother items sample_window_length initial_value = do
  cbuf ← push_mc_cbuffer (init_mc_cbuffer items sample_window_length) initial_value
  some (record { cbuf = cbuf; acum = initial_value; average = initial_value })

-- What is taken off the sum: the first value of a full ring. `*head` of an empty one is a fault.
unfoldable pub leaving : McCbuffer → Option ℕ
unfolding is_full_mc_cbuffer head_mc_cbuffer
leaving c = if is_full_mc_cbuffer c then (head_mc_cbuffer c >>= load c.items) else some 0

abbrev pub quotient : ℕ → ℕ → Option ℕ
quotient a b = if b == 0 then none else some (a / b)

-- `unsigned long` has 64 bits: a number of the ring counts modulo `2 ^ 64`.
unfoldable pub add_new_metric_sample_mst : MetricSmoother → ℕ → Option (ℕ × MetricSmoother)
unfolding leaving push_mc_cbuffer
add_new_metric_sample_mst mt cur_value = do
  prev ← leaving mt.cbuf
  cbuf' ← push_mc_cbuffer mt.cbuf cur_value
  let acum' = ((mt.acum + 2 ^ 64 - prev % 2 ^ 64) % 2 ^ 64 + cur_value) % 2 ^ 64
  average' ← quotient acum' cbuf'.size
  some (average', record { cbuf = cbuf'; acum = acum'; average = average' })

unfoldable pub get_cur_average_mst : MetricSmoother → ℕ
get_cur_average_mst mt = mt.average
