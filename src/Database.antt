-- ===== src/Database.antt =====
-- src/database/aodv_database.c: all tables behind one lock. Each function takes the lock, calls the
-- function of one table, and releases the lock; a call is one step on the state, and the lock, which
-- orders the steps, is not part of it. The schedule table is in the state of the neighbor table.
pub mod Routes
pub mod Cleanup
pub mod Examples
pub mod Neighbors
use des_aodv.Common.{
  ℕ, Bool, true, false, ◌&&◌, Option, none, some, List, [], ◌∷◌, ℤ, if◌then◌else◌,
}
use des_aodv.Dessert.{Dessert, Timeval}
use des_aodv.Helper.{MetricType}
use des_aodv.RateLog
use des_aodv.RateLog.{RateLog}
use des_aodv.DataSeq
use des_aodv.DataSeq.{DataSeq}
use des_aodv.ScheduleTable
use des_aodv.ScheduleTable.{Schedule}
use des_aodv.NeighborTable
use des_aodv.NeighborTable.{NeighborTable}
use des_aodv.RoutingTable
use des_aodv.RoutingTable.{RoutingTable, Flags, LinkBreak, CaptRreqResult, Supply}
use des_aodv.RoutingTable.Query
use des_aodv.PacketBuffer
use des_aodv.PacketBuffer.{Pb}
use des_aodv.PdrTracker
use des_aodv.PdrTracker.{PdrTable, Outcome, done, fault, then_do}
use des_aodv.PdrTracker.Links
use des_aodv.Message.{Msg, Settings, Oracle, supply}

pub record Db : Type 0 where
  pub nt : NeighborTable
  pub pdr : PdrTable
  pub ds : DataSeq
  pub rt : RoutingTable
  pub pb : Pb Msg
  pub rerr_log : RateLog
  pub rreq_log : RateLog

-- the schedules in the state of the neighbor table
abbrev pub schedules : Db → List Schedule
schedules db = db.nt.state.schedules

abbrev pub with_schedules : Db → List Schedule → Db
with_schedules db ss = record db {
  nt = record (db.nt) { state = record (db.nt.state) { schedules = ss } };
}

infixl 5 ◌>>=◌
abbrev pub ◌>>=◌ {ℓ κ} : {A : Type ℓ} {B : Type κ} → Option A → (A → Option B) → Option B
none >>= f = none
some a >>= f = f a

-- `none` inside is a result of false: a failing allocation.
unfoldable pub aodv_db_init : Dessert → Settings → List Schedule → Oracle → Outcome (Option Db)
aodv_db_init D cfg ss o =
    then_do {B = Option Db}
      (PdrTracker.aodv_db_pdr_nt_init D cfg.tracking_factor cfg.hello_interval (o.memory 1))
      (λ tracker. done (do
        nt_ts ← NeighborTable.db_nt_init cfg.hello_interval (o.memory 0)
        pdr ← tracker
        ds ← DataSeq.db_ds_init (o.memory 2)
        rt ← RoutingTable.aodv_db_rt_init (o.memory 3)
        pb ← PacketBuffer.pb_init Msg (o.memory 4)
        rerr_log ← RateLog.aodv_db_rl_init (o.memory 5)
        rreq_log ← RateLog.aodv_db_rl_init (o.memory 6)
        some (record {
          nt = record { state = record { entries = []; schedules = ss }; ts = nt_ts };
          pdr = pdr;
          ds = ds;
          rt = rt;
          pb = pb;
          rerr_log = rerr_log;
          rreq_log = rreq_log;
        })))

-- A schedule's own functions, on the state of the neighbor table.
unfoldable pub aodv_db_schedule_exists : Db → ℕ → ℕ → Bool
aodv_db_schedule_exists db addr type =
    ScheduleTable.aodv_db_sc_schedule_exists (schedules db) addr type

unfoldable pub aodv_db_dropschedule : Db → ℕ → ℕ → Db × Bool
aodv_db_dropschedule db addr type =
    let (ss, dropped) = ScheduleTable.aodv_db_sc_dropschedule (schedules db) addr type in
    (with_schedules db ss, dropped)

unfoldable pub aodv_db_pop_packet : Db → ℕ → Db × Option Msg
aodv_db_pop_packet db dhost =
    let (pb, msg) = PacketBuffer.pb_pop_packet Msg db.pb dhost in (record db { pb = pb }, msg)

module _ (D : Dessert) where
  -- The neighbors, data packets, routes, buffered packets and trackers that have run out.
  unfoldable pub aodv_db_cleanup : Db → Oracle → Timeval → Db
  aodv_db_cleanup db o timestamp = record db {
    nt = NeighborTable.db_nt_cleanup D db.nt o.sc_memory timestamp;
    ds = DataSeq.db_ds_cleanup D db.ds timestamp;
    rt = Query.aodv_db_rt_cleanup D db.rt timestamp;
    pb = PacketBuffer.pb_cleanup Msg D db.pb timestamp;
    pdr = PdrTracker.aodv_db_pdr_nt_cleanup D db.pdr timestamp;
  }

  unfoldable pub aodv_db_addschedule : Db → Timeval → ℕ → ℕ → ℕ → Bool → Db × Bool
  aodv_db_addschedule db execute_ts addr type param memory =
      let (ss, added) =
        ScheduleTable.aodv_db_sc_addschedule D (schedules db) execute_ts addr type param memory in
      (with_schedules db ss, added)

  unfoldable pub aodv_db_popschedule : Db → Timeval → Db × Option Schedule
  aodv_db_popschedule db timestamp =
      let (ss, popped) = ScheduleTable.aodv_db_sc_popschedule D (schedules db) timestamp in
      (with_schedules db ss, popped)

  unfoldable pub aodv_db_push_packet : Db → Oracle → ℕ → Msg → Timeval → Db
  aodv_db_push_packet db o dhost msg timestamp = record db {
    pb =
        PacketBuffer.pb_push_packet Msg D o.clone db.pb dhost msg timestamp (o.malloc 0)
          (o.memory 0) (o.memory 1) (o.now 0);
  }

  unfoldable pub aodv_db_putrreq : Db → Oracle → Timeval → Db
  aodv_db_putrreq db o timestamp = record db {
    rreq_log = RateLog.aodv_db_rl_putrreq D db.rreq_log timestamp (o.memory 0) (o.now 0);
  }

  unfoldable pub aodv_db_getrreqcount : Db → Timeval → Db × ℕ
  aodv_db_getrreqcount db timestamp =
      let (log, count) = RateLog.aodv_db_rl_getrreqcount D db.rreq_log timestamp in
      (record db { rreq_log = log }, count)

  unfoldable pub aodv_db_putrerr : Db → Oracle → Timeval → Db
  aodv_db_putrerr db o timestamp = record db {
    rerr_log = RateLog.aodv_db_rl_putrerr D db.rerr_log timestamp (o.memory 0) (o.now 0);
  }

  unfoldable pub aodv_db_getrerrcount : Db → Timeval → Db × ℕ
  aodv_db_getrerrcount db timestamp =
      let (log, count) = RateLog.aodv_db_rl_getrerrcount D db.rerr_log timestamp in
      (record db { rerr_log = log }, count)

  unfoldable pub aodv_db_capt_data_seq : Db → Oracle → ℕ → ℕ → ℕ → Timeval → Db × Bool
  aodv_db_capt_data_seq db o src seq hops timestamp =
      let (ds, captured) =
        DataSeq.aodv_db_ds_capt_data_seq D db.ds src seq hops timestamp (o.malloc 0) (o.memory 0)
          (o.now 0) in
      (record db { ds = ds }, captured)
