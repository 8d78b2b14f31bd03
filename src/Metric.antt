-- ===== src/Metric.antt =====
-- src/pipeline/aodv_metric.c: what a hop adds to the metric of a message.
pub mod Range
pub mod Examples
use des_aodv.Common.{
  ℕ, zero, suc, ◌+◌, ◌-◌, ◌/◌, ◌*◌, ◌%◌, ◌^◌, Bool, true, false, Option, none, some, ltb,
  if◌then◌else◌, ℤ,
}
use des_aodv.Config.{max_metric}
use des_aodv.Dessert.{Dessert, Timeval}
use des_aodv.Helper.{MetricType, rfc, hop_count, rssi, etx_add, etx_mul, pdr, hf_rssi2interval}
use des_aodv.PdrTracker.{PdrTable, Outcome, done, fault, then_do}
use des_aodv.PdrTracker.Links.{
  aodv_db_pdr_nt_get_pdr, aodv_db_pdr_nt_get_etx_mul, aodv_db_pdr_nt_get_etx_add,
}

-- the sum that is kept below the maximum
abbrev pub add_etx : ℕ → ℕ → ℕ
add_etx metric link = if ltb metric (max_metric - link) then metric + link else max_metric

abbrev pub scale_etx : ℕ → ℕ → ℕ
scale_etx metric link = metric * link / (max_metric / 32) % 2 ^ 16

-- The product is a `uint32_t`.
abbrev pub scale_pdr : ℕ → ℕ → ℕ
scale_pdr metric link = metric * link % 2 ^ 32 / max_metric % 2 ^ 16

abbrev pub or_else : Option ℕ → ℕ → (ℕ → ℕ) → ℕ
or_else none n f = n
or_else (some v) n f = f v

-- `average` is `dessert_rssi_avg` of the last hop. The table changes by the cleanup of the getters.
unfoldable pub aodv_metric_do :
    Dessert → MetricType → PdrTable → ℕ → ℕ → ℤ → Timeval → Outcome (PdrTable × ℕ)
aodv_metric_do D rfc nt metric last_hop average timestamp = done (nt, metric)
aodv_metric_do D hop_count nt metric last_hop average timestamp = done (nt, (metric + 1) % 2 ^ 16)
aodv_metric_do D rssi nt metric last_hop average timestamp =
    done (nt, (metric + hf_rssi2interval average) % 2 ^ 16)
aodv_metric_do D etx_add nt metric last_hop average timestamp =
    then_do (aodv_db_pdr_nt_get_etx_add D nt last_hop timestamp)
      (λ got. done (got.0, add_etx metric (or_else got.1 max_metric (λ link. link))))
aodv_metric_do D etx_mul nt metric last_hop average timestamp =
    then_do (aodv_db_pdr_nt_get_etx_mul D nt last_hop timestamp)
      (λ got. done (got.0, or_else got.1 0 (λ link. scale_etx metric link)))
aodv_metric_do D pdr nt metric last_hop average timestamp =
    then_do (aodv_db_pdr_nt_get_pdr D nt last_hop timestamp)
      (λ got. done (got.0, or_else got.1 0 (λ link. scale_pdr metric link)))
