-- ===== src/PdrTracker/Values.antt =====
-- What the link qualities of src/database/pdr_tracker/pdr.c can be, and where a HELLO or a getter
-- divides by zero.
use des_aodv.Common.{
  ℕ, zero, suc, ◌/◌, ◌*◌, ◌%◌, ◌^◌, ◌≤◌, ◌<◌, ◌≡◌, ◌⊎◌, ◌↔◌, refl, Bool, Option, none, some, leb,
  arith, Option-cases, inl, inr, Bool-cases,
}
use native.Mathlib.Nat.{mul-le-mul, le-div_iff_mul-le}
use des_aodv.Config.{max_metric}
use des_aodv.Dessert.{Dessert, Timeval}
use des_aodv.Table.{find}
use des_aodv.PdrTracker.{
  PdrTable, PdrNeighbor, Outcome, done, fault, divide, then_do, from_neighbor, pdr_nt_cleanup,
  expected, pdr_neighbor_entry_create, find_or_create, aodv_db_pdr_nt_cap_hello,
}
use des_aodv.PdrTracker.Links.{
  min, getter, pdr_value, etx_add_value, aodv_db_pdr_nt_get_pdr, aodv_db_pdr_nt_get_etx_add,
}

pub expected_fault :
    (tracking_factor interv : ℕ) → (expected tracking_factor interv ≡ fault) ↔ (interv ≡ 0)
unfolding expected
expected_fault tracking_factor zero = (λ h. refl, λ h. ground arith)
expected_fault tracking_factor (suc n) =
    (λ h. absurd (ground (arith, h)), λ h. absurd (omega (arith, h)))

-- A product is zero just when a factor is.
zero_iff-mul : (m n : ℕ) → (m * n ≡ 0) ↔ ((m ≡ 0) ⊎ (n ≡ 0))
zero_iff-mul zero n = ground arith
zero_iff-mul (suc m) zero = ground arith
zero_iff-mul (suc m) (suc n) = (λ h. absurd (ground (arith, h)), λ h. absurd (ground (arith, h)))

divide_fault : (m n : ℕ) → (divide m n ≡ fault) ↔ (n ≡ 0)
divide_fault m zero = (λ h. refl, λ h. refl)
divide_fault m (suc n) = (λ h. absurd (cc), λ h. absurd (omega (arith, h)))

etx_add_value_fault :
    (nb : ℕ) (e : PdrNeighbor)
    → 0 < e.expected_hellos
    → 0 < nb
    → (etx_add_value nb e ≡ fault) ↔ ((e.hellos.rcvd_hello_count ≡ 0) ⊎ (e.nb_rcvd_hello_count ≡ 0))
etx_add_value_fault nb e some_expected some_nb =
    let rcvd = min e.hellos.rcvd_hello_count e.expected_hellos in
    let nb_rcvd = min e.nb_rcvd_hello_count nb in
    ground (
      arith,
      zero_iff-mul rcvd nb_rcvd,
      divide_fault (256 * e.expected_hellos * nb) (rcvd * nb_rcvd),
    )

min_left : (a b : ℕ) → min a b ≤ a
min_left a b = ground arith

min_right : (a b : ℕ) → min a b ≤ b
min_right a b = ground arith

-- The counts are at most the expected ones.
counts_bound :
    (nb : ℕ) (e : PdrNeighbor)
    → min e.hellos.rcvd_hello_count e.expected_hellos * min e.nb_rcvd_hello_count nb
      ≤ e.expected_hellos * nb
counts_bound nb e =
    mul-le-mul (min_right e.hellos.rcvd_hello_count e.expected_hellos)
      (min_right e.nb_rcvd_hello_count nb)

clamped_bounds :
    (m n etx : ℕ)
    → 256 * n ≤ m
    → then_do (divide m n) (λ q. done (min q max_metric % 2 ^ 16)) ≡ done etx
    → (256 ≤ etx) × (etx ≤ max_metric)
clamped_bounds m zero etx less value = absurd (cc)
clamped_bounds m (suc n) etx less value =
    let positive : 0 < suc n = omega arith in
    let large : 256 ≤ m / suc n =
      (le-div_iff_mul-le {k = suc n} {x = 256} {y = m} positive).1 less in
    ground (arith, large, value)

etx_add_value_bounds :
    (nb : ℕ) (e : PdrNeighbor) (etx : ℕ)
    → etx_add_value nb e ≡ done etx
    → (256 ≤ etx) × (etx ≤ max_metric)
etx_add_value_bounds nb e etx value =
    clamped_bounds (256 * e.expected_hellos * nb)
      (min e.hellos.rcvd_hello_count e.expected_hellos * min e.nb_rcvd_hello_count nb) etx
      (grind (arith, counts_bound nb e)) value

pdr_value_bounds :
    (nb : ℕ) (e : PdrNeighbor) (quality : ℕ) → pdr_value nb e ≡ done quality → quality ≤ max_metric
pdr_value_bounds nb e quality value =
    elim (Bool-cases (leb e.expected_hellos e.hellos.rcvd_hello_count)) [
      | inl all ↦ ground (arith, all, value)
      | inr some_lost ↦ ground (arith, some_lost, value)
    ]

module _ (D : Dessert) where
  -- A HELLO with the interval 0 from a neighbor that is not in the table makes the tracker
  -- divide by zero, if `malloc` gives it an entry, whatever the tracking factor.
  pub cap_hello_fault :
      (tracking_factor : ℕ) (nt : PdrTable) (addr seq a : ℕ) (timestamp : Timeval)
      (ts_memory memory : Bool) (msg_malloc : Option ℕ) (msg_memory : Bool) (now : Timeval)
      → find (from_neighbor addr) nt.entries ≡ none
      → aodv_db_pdr_nt_cap_hello D tracking_factor nt addr seq 0 timestamp
          (some a)
          ts_memory
          memory
          msg_malloc
          msg_memory
          now
        ≡ fault
  unfolding aodv_db_pdr_nt_cap_hello find_or_create pdr_neighbor_entry_create
  cap_hello_fault tracking_factor nt addr seq a timestamp ts_memory memory msg_malloc msg_memory now
        absent =
      rw
        (
          absent,
          aodv_db_pdr_nt_cap_hello,
          find_or_create,
          (expected_fault tracking_factor 0).1 refl,
        )
        refl

  -- For a neighbor in the table, with more than 0 HELLOs expected on both sides, the ETX_ADD
  -- getter divides by zero exactly if, after the cleanup, no HELLO of the neighbor is counted,
  -- or the neighbor has reported none.
  pub get_etx_add_fault :
      (nt : PdrTable) (addr : ℕ) (timestamp : Timeval) (e : PdrNeighbor)
      → find (from_neighbor addr) nt.entries ≡ some e
      → 0 < e.expected_hellos
      → 0 < nt.nb_expected_hellos
      → (aodv_db_pdr_nt_get_etx_add D nt addr timestamp ≡ fault) ↔ (
          ((pdr_nt_cleanup D e timestamp).hellos.rcvd_hello_count ≡ 0)
          ⊎ (e.nb_rcvd_hello_count ≡ 0))
  unfolding aodv_db_pdr_nt_get_etx_add pdr_nt_cleanup
  get_etx_add_fault nt addr timestamp e here some_expected some_nb =
      rw (here, aodv_db_pdr_nt_get_etx_add, getter)
        (ground (
          arith,
          etx_add_value_fault nt.nb_expected_hellos (pdr_nt_cleanup D e timestamp) some_expected
              some_nb,
        ))

  -- what a getter that gives a value has found
  getter_value :
      (value : ℕ → PdrNeighbor → Outcome ℕ) (nt nt' : PdrTable) (addr : ℕ) (timestamp : Timeval)
      (v : ℕ)
      → getter D value nt addr timestamp ≡ done (nt', some v)
      → (e : PdrNeighbor) × (value nt.nb_expected_hellos e ≡ done v)
  getter_value value nt nt' addr timestamp v result =
      elim (Option-cases (find (from_neighbor addr) nt.entries)) [
        | inl absent ↦ absurd (ground (arith, absent, result))
        | inr (e, here) ↦ (pdr_nt_cleanup D e timestamp, ground (arith, here, result))
      ]

  -- If the ETX_ADD getter gives a value, it is from 256 to 65535.
  pub get_etx_add_bounds :
      (nt nt' : PdrTable) (addr : ℕ) (timestamp : Timeval) (etx : ℕ)
      → aodv_db_pdr_nt_get_etx_add D nt addr timestamp ≡ done (nt', some etx)
      → (256 ≤ etx) × (etx ≤ max_metric)
  unfolding aodv_db_pdr_nt_get_etx_add
  get_etx_add_bounds nt nt' addr timestamp etx result =
      let (e, value) = getter_value etx_add_value nt nt' addr timestamp etx result in
      etx_add_value_bounds nt.nb_expected_hellos e etx value

  pub get_pdr_bounds :
      (nt nt' : PdrTable) (addr : ℕ) (timestamp : Timeval) (quality : ℕ)
      → aodv_db_pdr_nt_get_pdr D nt addr timestamp ≡ done (nt', some quality)
      → quality ≤ max_metric
  unfolding aodv_db_pdr_nt_get_pdr
  get_pdr_bounds nt nt' addr timestamp quality result =
      let (e, value) = getter_value pdr_value nt nt' addr timestamp quality result in
      pdr_value_bounds nt.nb_expected_hellos e quality value
