-- ===== src/Helper.antt =====
-- src/helper.c and src/helper.h: serial numbers, metrics, signal strengths, addresses and times.
-- A `uint32_t` is a number below 2 ^ 32, a `metric_t` one below 2 ^ 16.
pub mod Serial
pub mod Examples
use des_aodv.Common.{
  ℕ, zero, ◌+◌, ◌-◌, ◌/◌, ◌*◌, ◌%◌, ◌^◌, ℤ, pos, negsuc, sub_ℕ, Bool, true, ltb, leb, ◌==◌,
  if◌then◌else◌, ◌≤◌, ◌≡◌, arith, List, [], ◌∷◌,
}
use des_aodv.Dessert.{Dessert, Timeval}

-- `UINT32_MAX >> 1` is 2 ^ 31 - 1.
unfoldable pub hf_comp_u32 : ℕ → ℕ → ℤ
hf_comp_u32 i j =
    if i == j
    then pos 0
    else let diff = (i + 2 ^ 32 - j) % 2 ^ 32 in if ltb diff (2 ^ 31 - 1) then pos 1 else negsuc 0

-- `aodv_metric_t`
pub data MetricType : Type 0 where
  rfc hop_count rssi etx_add etx_mul pdr : MetricType

unfoldable pub hf_comp_metric : MetricType → ℕ → ℕ → ℤ
hf_comp_metric etx_mul i j = sub_ℕ i j
hf_comp_metric pdr i j = sub_ℕ i j
hf_comp_metric _ i j = sub_ℕ j i

-- The signal strength is an `int8_t`; `rssi > -40` is `39 + rssi >= 0`.
above : ℕ → ℤ → Bool
above bound (pos n) = true
above bound (negsuc n) = ltb (n + 1) bound

unfoldable pub hf_rssi2interval : ℤ → ℕ
unfolding above
hf_rssi2interval (pos zero) = 8
hf_rssi2interval dbm =
    if above 40 dbm then 1 else if above 60 dbm then 2 else if above 70 dbm then 4 else 8

pub hf_tv_add_ms : Dessert → Timeval → ℕ → Timeval
hf_tv_add_ms D tv ms = D.timevaladd tv (ms / 1000) (ms % 1000 * 1000)

-- An address as its six bytes. The loop of the source runs down from `addr[4]`.
pub record MacBytes : Type 0 where
  pub b0 : ℕ
  pub b1 : ℕ
  pub b2 : ℕ
  pub b3 : ℕ
  pub b4 : ℕ
  pub b5 : ℕ

shift_in : ℕ → List ℕ → ℕ
shift_in result [] = result
shift_in result (b ∷ bs) = shift_in ((result * 2 ^ 8 % 2 ^ 64 + b) % 2 ^ 64) bs

pub hf_mac_addr_to_uint64 : MacBytes → ℕ
unfolding shift_in
hf_mac_addr_to_uint64 a = shift_in a.b5 (a.b4 ∷ a.b3 ∷ a.b2 ∷ a.b1 ∷ a.b0 ∷ [])
