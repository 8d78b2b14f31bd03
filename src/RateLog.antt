-- ===== src/RateLog.antt =====
-- src/database/rreq_log/rreq_log.c and src/database/rerr_log/rerr_log.c: how many RREQ or RERR
-- messages were sent in the last second. The two files have the same code under two names.
pub mod Window
pub mod Examples
use des_aodv.Common.{ℕ, ◌+◌, ◌-◌, ◌%◌, ◌^◌, Bool, true, Option, none, some, if◌then◌else◌, arith}
use des_aodv.Dessert.{Dessert, Timeval}
use des_aodv.Timeslot
use des_aodv.Timeslot.{Timeslot, Purger}

-- The globals `rreq_log_ts`, `rreq_count` and `rreq_pseudo_pointer`. The pointer is never followed:
-- it counts up, so that each message has an object of its own.
pub record RateLog : Type 0 where
  pub ts : Timeslot
  pub count : ℕ
  pub pseudo_pointer : ℕ

pub decrement_counter : Purger ℕ
decrement_counter timestamp object count = (count + 2 ^ 32 - 1) % 2 ^ 32

unfoldable pub aodv_db_rl_init : Bool → Option RateLog
aodv_db_rl_init memory = elim (Timeslot.create memory (record { tv_sec = 1; tv_usec = 0 })) [
  | none ↦ none
  | some ts ↦ some (record { ts = ts; count = 0; pseudo_pointer = 0 })
]

module _ (D : Dessert) where
  unfoldable pub aodv_db_rl_cleanup : RateLog → Timeval → RateLog
  aodv_db_rl_cleanup log timestamp =
      let (ts, count) = Timeslot.purgeobjects D decrement_counter log.ts timestamp log.count in
      record log { ts = ts; count = count }

  -- `memory` and `now` are those of `timeslot_addobject`.
  pub aodv_db_rl_putrreq : RateLog → Timeval → Bool → Timeval → RateLog
  aodv_db_rl_putrreq log timestamp memory now =
      let (ts, count, stored) =
        Timeslot.addobject D decrement_counter log.ts timestamp log.pseudo_pointer memory now
          log.count in
      record {
        ts = ts;
        count = if stored then (count + 1) % 2 ^ 32 else count;
        pseudo_pointer = (log.pseudo_pointer + 1) % 2 ^ 64;
      }

  unfoldable pub aodv_db_rl_getrreqcount : RateLog → Timeval → RateLog × ℕ
  aodv_db_rl_getrreqcount log timestamp =
      let log' = aodv_db_rl_cleanup log timestamp in (log', log'.count)

  -- The functions of rerr_log.c.
  pub aodv_db_rl_putrerr : RateLog → Timeval → Bool → Timeval → RateLog
  aodv_db_rl_putrerr = aodv_db_rl_putrreq

  unfoldable pub aodv_db_rl_getrerrcount : RateLog → Timeval → RateLog × ℕ
  aodv_db_rl_getrerrcount = aodv_db_rl_getrreqcount
