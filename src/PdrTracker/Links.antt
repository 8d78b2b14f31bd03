-- ===== src/PdrTracker/Links.antt =====
-- The link qualities that src/database/pdr_tracker/pdr.c gives out. Each getter first cleans up the
-- HELLOs of the neighbor; the result is `none` where it returns false.
use des_aodv.Common.{ℕ, ◌*◌, ◌%◌, ◌^◌, Option, none, some, ltb, leb, if◌then◌else◌}
use des_aodv.Config.{max_metric}
use des_aodv.Dessert.{Dessert, Timeval}
use des_aodv.Table.{find, modify}
use des_aodv.PdrTracker.{
  PdrTable, PdrNeighbor, Outcome, done, divide, then_do, from_neighbor, pdr_nt_cleanup,
}

abbrev pub min : ℕ → ℕ → ℕ
min a b = if ltb a b then a else b

-- the computations of the getters, on the cleaned-up entry and the own expected HELLOs
abbrev pub pdr_value : ℕ → PdrNeighbor → Outcome ℕ
pdr_value nb_expected e =
    if leb e.expected_hellos e.hellos.rcvd_hello_count
    then done max_metric
    else then_do (divide (max_metric * e.hellos.rcvd_hello_count) e.expected_hellos)
        (λ q. done (q % 2 ^ 16))

abbrev pub etx_mul_value : ℕ → PdrNeighbor → Outcome ℕ
etx_mul_value nb_expected e =
    let rcvd_hellos = min e.hellos.rcvd_hello_count e.expected_hellos in
    let nb_rcvd_hellos = min e.nb_rcvd_hello_count nb_expected in
    then_do (divide (max_metric * rcvd_hellos * nb_rcvd_hellos) (e.expected_hellos * nb_expected))
      (λ q. done (q % 2 ^ 16))

-- The assignment for a count of zero has no effect, as the function does not return there.
abbrev pub etx_add_value : ℕ → PdrNeighbor → Outcome ℕ
etx_add_value nb_expected e =
    let rcvd_hellos = min e.hellos.rcvd_hello_count e.expected_hellos in
    let nb_rcvd_hellos = min e.nb_rcvd_hello_count nb_expected in
    then_do (divide (256 * e.expected_hellos * nb_expected) (rcvd_hellos * nb_rcvd_hellos))
      (λ etx. done (min etx max_metric % 2 ^ 16))

abbrev pub hello_count_value : ℕ → PdrNeighbor → Outcome ℕ
hello_count_value nb_expected e = done e.hellos.rcvd_hello_count

module _ (D : Dessert) where
  -- What the four getters share.
  abbrev pub getter :
      (ℕ → PdrNeighbor → Outcome ℕ) → PdrTable → ℕ → Timeval → Outcome (PdrTable × Option ℕ)
  getter value nt addr timestamp = elim (find (from_neighbor addr) nt.entries) [
    | none ↦ done (nt, none)
    | some e ↦
        let e' = pdr_nt_cleanup D e timestamp in
        then_do (value nt.nb_expected_hellos e') (λ v.
          done (record nt { entries = modify (from_neighbor addr) (λ x. e') nt.entries }, some v))
  ]

  unfoldable pub aodv_db_pdr_nt_get_pdr : PdrTable → ℕ → Timeval → Outcome (PdrTable × Option ℕ)
  aodv_db_pdr_nt_get_pdr nt addr timestamp = getter pdr_value nt addr timestamp

  unfoldable pub aodv_db_pdr_nt_get_etx_mul : PdrTable → ℕ → Timeval → Outcome (PdrTable × Option ℕ)
  aodv_db_pdr_nt_get_etx_mul nt addr timestamp = getter etx_mul_value nt addr timestamp

  unfoldable pub aodv_db_pdr_nt_get_etx_add : PdrTable → ℕ → Timeval → Outcome (PdrTable × Option ℕ)
  aodv_db_pdr_nt_get_etx_add nt addr timestamp = getter etx_add_value nt addr timestamp

  unfoldable pub aodv_db_pdr_nt_get_rcvdhellocount :
      PdrTable → ℕ → Timeval → Outcome (PdrTable × Option ℕ)
  aodv_db_pdr_nt_get_rcvdhellocount nt addr timestamp = getter hello_count_value nt addr timestamp
