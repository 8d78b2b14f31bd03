-- ===== src/Database/Neighbors.antt =====
-- src/database/aodv_database.c: the calls of the neighbor table and of the PDR tracker.
use des_aodv.Common.{ℕ, Bool, Option, some, ℤ}
use des_aodv.Dessert.{Dessert, Timeval}
use des_aodv.NeighborTable
use des_aodv.NeighborTable.{NeighborTable}
use des_aodv.PdrTracker
use des_aodv.PdrTracker.{PdrTable, Outcome, done, fault, then_do}
use des_aodv.PdrTracker.Links
use des_aodv.Message.{Settings, Oracle}
use des_aodv.Database.{Db, ◌>>=◌}

unfoldable pub aodv_db_neighbor_reset : Db → Settings → Oracle → Option Db × ℕ
aodv_db_neighbor_reset db cfg o =
    let (state, ts, count) =
      NeighborTable.aodv_db_nt_neighbor_reset db.nt cfg.hello_interval (o.memory 0) in
    (do t ← ts; some (record db { nt = record { state = state; ts = t } }), count)

unfoldable pub aodv_db_pdr_upd_expected : Db → Settings → ℕ → Outcome Db
aodv_db_pdr_upd_expected db cfg interval =
    then_do {B = Db} (PdrTracker.aodv_db_pdr_nt_upd_expected cfg.tracking_factor db.pdr interval)
      (λ pdr. done (record db { pdr = pdr }))

-- The signal strengths of neighbors.
unfoldable pub aodv_db_reset_rssi : Db → ℕ → ℕ → Db × Bool
aodv_db_reset_rssi db addr iface =
    let (nt, found) = NeighborTable.db_nt_reset_rssi db.nt addr iface in
    (record db { nt = nt }, found)

unfoldable pub aodv_db_update_rssi : Db → ℕ → ℕ → ℤ → Db × ℤ
aodv_db_update_rssi db addr iface average =
    let (nt, diff) = NeighborTable.db_nt_update_rssi db.nt addr iface average in
    (record db { nt = nt }, diff)

module _ (D : Dessert) where
  -- The PDR tracker.
  unfoldable pub aodv_db_pdr_cap_hello :
      Db → Settings → Oracle → ℕ → ℕ → ℕ → Timeval → Outcome (Db × Bool)
  aodv_db_pdr_cap_hello db cfg o addr hello_seq interval timestamp =
      then_do {B = Db × Bool}
        (PdrTracker.aodv_db_pdr_nt_cap_hello D cfg.tracking_factor db.pdr addr hello_seq interval
          timestamp (o.malloc 0) (o.memory 0) (o.memory 1) (o.malloc 1) (o.memory 2) (o.now 0))
        (λ r. done (record db { pdr = r.0 }, r.1))

  unfoldable pub aodv_db_pdr_cap_hellorsp :
      Db → Settings → Oracle → ℕ → ℕ → ℕ → Timeval → Outcome (Db × Bool)
  aodv_db_pdr_cap_hellorsp db cfg o addr interval hello_count timestamp =
      then_do {B = Db × Bool}
        (PdrTracker.aodv_db_pdr_nt_cap_hellorsp D cfg.tracking_factor db.pdr addr interval
          hello_count timestamp (o.malloc 0) (o.memory 0) (o.memory 1) (o.now 0))
        (λ r. done (record db { pdr = r.0 }, r.1))

  unfoldable pub aodv_db_pdr_get_pdr : Db → ℕ → Timeval → Outcome (Db × Option ℕ)
  aodv_db_pdr_get_pdr db addr timestamp =
      then_do {B = Db × Option ℕ} (Links.aodv_db_pdr_nt_get_pdr D db.pdr addr timestamp)
        (λ r. done (record db { pdr = r.0 }, r.1))

  unfoldable pub aodv_db_pdr_get_etx_mul : Db → ℕ → Timeval → Outcome (Db × Option ℕ)
  aodv_db_pdr_get_etx_mul db addr timestamp =
      then_do {B = Db × Option ℕ} (Links.aodv_db_pdr_nt_get_etx_mul D db.pdr addr timestamp)
        (λ r. done (record db { pdr = r.0 }, r.1))

  unfoldable pub aodv_db_pdr_get_etx_add : Db → ℕ → Timeval → Outcome (Db × Option ℕ)
  aodv_db_pdr_get_etx_add db addr timestamp =
      then_do {B = Db × Option ℕ} (Links.aodv_db_pdr_nt_get_etx_add D db.pdr addr timestamp)
        (λ r. done (record db { pdr = r.0 }, r.1))

  unfoldable pub aodv_db_pdr_get_rcvdhellocount : Db → ℕ → Timeval → Outcome (Db × Option ℕ)
  aodv_db_pdr_get_rcvdhellocount db addr timestamp =
      then_do {B = Db × Option ℕ} (Links.aodv_db_pdr_nt_get_rcvdhellocount D db.pdr addr timestamp)
        (λ r. done (record db { pdr = r.0 }, r.1))

  unfoldable pub aodv_db_cap2_dneigh : Db → ℤ → Oracle → ℕ → ℕ → ℕ → Timeval → Db × Bool
  aodv_db_cap2_dneigh db threshold o addr hello_seq iface timestamp =
      let (nt, heard) =
        NeighborTable.db_nt_cap2_dneigh D db.nt addr hello_seq iface threshold timestamp
          (o.malloc 0) (o.memory 0) (o.memory 1) o.sc_memory (o.now 0) in
      (record db { nt = nt }, heard)

  unfoldable pub aodv_db_check2_dneigh : Db → Oracle → ℕ → ℕ → Timeval → Db × Bool
  aodv_db_check2_dneigh db o addr iface timestamp =
      let (nt, known) =
        NeighborTable.db_nt_check2_dneigh D db.nt addr iface o.sc_memory timestamp in
      (record db { nt = nt }, known)

  unfoldable pub aodv_db_pdr_neighbor_reset : Db → Settings → Oracle → Outcome (Option Db × ℕ)
  aodv_db_pdr_neighbor_reset db cfg o =
      then_do {B = Option Db × ℕ}
        (PdrTracker.aodv_db_pdr_nt_neighbor_reset D cfg.tracking_factor db.pdr cfg.hello_interval
          (o.memory 0))
        (λ r. done ((do pdr ← r.0; some (record db { pdr = pdr })), r.1))
