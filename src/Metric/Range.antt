-- ===== src/Metric/Range.antt =====
-- How far a hop moves the metric of src/pipeline/aodv_metric.c.
use des_aodv.Common.{
  ℕ, ◌+◌, ◌-◌, ◌/◌, ◌*◌, ◌^◌, ◌≤◌, ◌≡◌, refl, ◌⊎◌, Option, none, some, leb, if◌then◌else◌, ℤ, arith,
}
use native.Mathlib.Nat.{mul-le-mul}
use des_aodv.Config.{max_metric}
use des_aodv.Dessert.{Dessert, Timeval}
use des_aodv.Helper.{etx_add, etx_mul, pdr}
use des_aodv.PdrTracker.{PdrTable, Outcome, done, fault, then_do}
use des_aodv.PdrTracker.Links.{
  aodv_db_pdr_nt_get_pdr, aodv_db_pdr_nt_get_etx_mul, aodv_db_pdr_nt_get_etx_add,
}
use des_aodv.PdrTracker.Values.{get_etx_add_bounds, get_pdr_bounds}
use des_aodv.Metric.{aodv_metric_do, add_etx, scale_pdr, or_else}

module _ (D : Dessert) (nt nt' : PdrTable) (metric last_hop : ℕ) (average : ℤ) (timestamp : Timeval)
    (metric' : ℕ) where
  -- Under ETX_ADD, if a hop does not divide by zero, a metric of at most 65535 becomes one of
  -- at most 65535, which is 65535 or at least 256 more than it was.
  pub metric_do-etx_add :
      metric ≤ max_metric
      → aodv_metric_do D etx_add nt metric last_hop average timestamp ≡ done (nt', metric')
      → (metric' ≤ max_metric) × ((metric' ≡ max_metric) ⊎ (metric + 256 ≤ metric'))
  unfolding aodv_metric_do
  metric_do-etx_add small result =
      added (aodv_db_pdr_nt_get_etx_add D nt last_hop timestamp) refl result
    where
      added :
          (got : Outcome (PdrTable × Option ℕ))
          → aodv_db_pdr_nt_get_etx_add D nt last_hop timestamp ≡ got
          → then_do {B = PdrTable × ℕ} got
              (λ got. done (got.0, add_etx metric (or_else got.1 max_metric (λ link. link))))
            ≡ done (nt', metric')
          → (metric' ≤ max_metric) × ((metric' ≡ max_metric) ⊎ (metric + 256 ≤ metric'))
      added fault same h = absurd (cc)
      added (done (nt1, none)) same h = ground (arith, h)
      added (done (nt1, some link)) same h =
          ground (arith, h, get_etx_add_bounds D nt nt1 last_hop timestamp link same)

  -- Under PDR, if a hop does not divide by zero, a metric of at most 65535 does not grow.
  pub metric_do-pdr :
      metric ≤ max_metric
      → aodv_metric_do D pdr nt metric last_hop average timestamp ≡ done (nt', metric')
      → metric' ≤ metric
  unfolding aodv_metric_do
  metric_do-pdr small result = scaled (aodv_db_pdr_nt_get_pdr D nt last_hop timestamp) refl result
    where
      scaled :
          (got : Outcome (PdrTable × Option ℕ))
          → aodv_db_pdr_nt_get_pdr D nt last_hop timestamp ≡ got
          → then_do {B = PdrTable × ℕ} got
              (λ got. done (got.0, or_else got.1 0 (λ link. scale_pdr metric link)))
            ≡ done (nt', metric')
          → metric' ≤ metric
      scaled fault same h = absurd (cc)
      scaled (done (nt1, none)) same h = ground (arith, h)
      scaled (done (nt1, some link)) same h =
          let itself : metric ≤ metric = omega arith in
          let product : metric * link ≤ metric * max_metric =
            mul-le-mul itself (get_pdr_bounds D nt nt1 last_hop timestamp link same) in
          ground (arith, h, product)

  -- Under ETX_MUL, over a link of quality up to 4094 the start value 65535 becomes 65535 *
  -- quality / 2047 for a quality of at most 2047, and 2 ^ 16 less than that for a better one.
  pub metric_do-etx_mul :
      (link : ℕ)
      → aodv_db_pdr_nt_get_etx_mul D nt last_hop timestamp ≡ done (nt', some link)
      → aodv_metric_do D etx_mul nt max_metric last_hop average timestamp ≡ done (nt', metric')
      → link ≤ 4094
      → metric'
        ≡ (if leb link 2047 then max_metric * link / 2047 else max_metric * link / 2047 - 2 ^ 16)
  unfolding aodv_metric_do
  metric_do-etx_mul link got = rw (got, aodv_metric_do) (λ h bound. ground (arith, h))
