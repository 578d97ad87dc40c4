-- ===== src/Rmid/Counter.antt =====
-- The bandwidth counter, which wraps around.
use pmctrack.Prelude.{
  ℕ, ◌+◌, ◌-◌, ◌*◌, ◌%◌, ◌^◌, ◌<◌, ◌≡◌, inl, inr, false, ltb, leb, arith, length, get_or, Ensures,
  Bool-cases, ltb→le, ltb→lt, get_or-set_self,
}
use pmctrack.Prelude.Arith.{mod_below, mod_once}
use native.Mathlib.Nat.{mod-lt}
use pmctrack.Memory.{load_in, store_in}
use pmctrack.Rmid.{RmidNode, CmtSupport, advance, update_local_bandwidth}

-- Adding what the counter has advanced by, wrapping around once, leads from the old reading to the
-- new one.
pub advance_lem :
    (width raw val : ℕ)
    → raw < 2 ^ width
    → val < 2 ^ width
    → (advance width raw val < 2 ^ width) × ((raw + advance width raw val) % 2 ^ width ≡ val)
unfolding advance
advance_lem width raw val h k = elim (Bool-cases (ltb val raw)) [
  | inl b ↦
      let l = ltb→lt val raw b in
      rw b (
        omega arith,
        (omega (
          arith,
          mod_once (raw + (2 ^ width - 1 - raw + val + 1)) (2 ^ width) (omega arith) (omega arith),
        )),
      )
  | inr b ↦
      let l = ltb→le val raw b in
      rw b (omega arith, (omega (arith, mod_below (raw + (val - raw)) (2 ^ width) (omega arith))))
]

-- After a valid reading the node keeps the counter's part of it, and as bandwidth what the counter
-- has advanced by since the reading before, times the factor, as 64 bits.
pub update_local_bandwidth_lem :
    (support : CmtSupport) (node : RmidNode) (llc_id val : ℕ)
    → llc_id < length node.raw_bandwidth_value
    → llc_id < length node.bandwidth_value
    → val < 2 ^ 62
    → get_or node.raw_bandwidth_value llc_id 0 < 2 ^ support.count_width
    → Ensures (update_local_bandwidth support node llc_id val) (λ node'.
      (get_or node'.raw_bandwidth_value llc_id 0 ≡ val % 2 ^ support.count_width)
      × ((d : ℕ) × (d < 2 ^ support.count_width)
          × ((get_or node.raw_bandwidth_value llc_id 0 + d) % 2 ^ support.count_width
              ≡ val % 2 ^ support.count_width)
          × (get_or node'.bandwidth_value llc_id 0 ≡ d * support.upscaling_factor % 2 ^ 64)))
unfolding update_local_bandwidth
update_local_bandwidth_lem support node llc_id val r b v w =
    let m = 2 ^ support.count_width in
    let raw = get_or node.raw_bandwidth_value llc_id 0 in
    let bandwidth = advance support.count_width raw (val % m) * support.upscaling_factor % 2 ^ 64 in
    let valid : leb (2 ^ 62) val ≡ false = ground arith in
    let (below, reached) =
      advance_lem support.count_width raw (val % m) w (mod-lt val {m = m} (omega arith)) in
    rw valid (
      rw (load_in node.raw_bandwidth_value llc_id 0 r) (
        rw (store_in node.bandwidth_value llc_id bandwidth b) (
          rw (store_in node.raw_bandwidth_value llc_id (val % m) r) (
            get_or-set_self node.raw_bandwidth_value llc_id (val % m) 0 r,
            (
              advance support.count_width raw (val % m),
              below,
              reached,
              get_or-set_self node.bandwidth_value llc_id bandwidth 0 b,
            ),
          ))))
