-- ===== src/Periodic.antt =====
-- src/pipeline/aodv_periodic.c: what the daemon does without a message: HELLOs, RREQs for the routes
-- in use, the cleanup of the database, and the schedules.
pub mod SendRerrs
pub mod Examples
use des_aodv.Common.{
  ℕ, zero, suc, ◌+◌, ◌%◌, ◌^◌, Bool, true, false, Option, none, some, List, [], ◌∷◌, ◌==◌, leb,
  length, if◌then◌else◌, is_pos, sub_ℤ,
}
use des_aodv.Config.{
  rerr_ratelimit, sc_repeat_rreq, sc_send_out_rerr, sc_send_out_rwarn, sc_update_rssi,
}
use des_aodv.Dessert.{Dessert, Timeval}
use des_aodv.ScheduleTable.{Schedule}
use des_aodv.RoutingTable.{LinkBreak}
use des_aodv.Database.{
  Db, aodv_db_cleanup, aodv_db_popschedule, aodv_db_getrerrcount, aodv_db_putrerr,
  aodv_db_addschedule,
}
use des_aodv.Database.Routes.{
  aodv_db_get_active_routes, aodv_db_inv_over_nexthop, aodv_db_get_destlist,
  aodv_db_get_warn_endpoints_from_neighbor_and_set_warn,
}
use des_aodv.Database.Neighbors.{aodv_db_update_rssi}
use des_aodv.Message.{Msg, HelloExt, Output, mesh, Settings, Oracle, after, empty_msg}
use des_aodv.Daemon
use des_aodv.Daemon.{Daemon, Step, pure, gets, crash, on_db, follow_db, send, ◌>>=◌, ◌>>◌}
use des_aodv.RouteError.{aodv_create_rerr}
use des_aodv.RreqSeries.{aodv_send_rreq, aodv_send_rreq_repeat}

-- `DESSERT_PER_KEEP`, `DESSERT_PER_UNREGISTER`, and the constant of libdessert that is `return 0`
pub data PerResult : Type 0 where
  per_keep per_unregister per_zero : PerResult

-- `payload` is what `dessert_msg_dummy_payload` makes of `hello_size`.
unfoldable pub aodv_periodic_send_hello : Settings → ℕ → Step PerResult
aodv_periodic_send_hello cfg payload = do
  seq ← gets (λ d. d.seq_num_hello)
  Daemon.modify (λ d. record d { seq_num_hello = (seq + 1) % 2 ^ 16 })
  send (
      mesh none (record empty_msg {
        ttl = 2;
        u16 = seq;
        hello = some (record { hello_rcvd_count = 0; hello_interval = cfg.hello_interval });
        payload = payload;
      }))
  pure per_keep

-- `aodv_db_get_destlist`, which leaves the database as it is
abbrev pub get_destlist_step : ℕ → Db → Option (Db × Option (List LinkBreak))
get_destlist_step hop db = elim (aodv_db_get_destlist db hop) [
  | none ↦ none
  | some dests ↦ some (db, dests)
]

module _ (D : Dessert) where
  -- a RREQ for each host of a list
  unfoldable pub request_all : Settings → Oracle → List LinkBreak → Step (Unit {0})
  request_all cfg o [] = pure tt
  request_all cfg o (dest ∷ dests) = do
    aodv_send_rreq D cfg o dest.host
    request_all cfg (after 4 o) dests

  unfoldable pub aodv_periodic_send_rreq : Settings → Oracle → Step PerResult
  aodv_periodic_send_rreq cfg o = do
    active ← gets (λ d. aodv_db_get_active_routes d.db)
    request_all cfg o active
    pure per_keep

  -- All tables report success.
  unfoldable pub aodv_periodic_cleanup_database : Oracle → Step PerResult
  aodv_periodic_cleanup_database o = do
    on_db (λ db. (aodv_db_cleanup D db o (o.now 0), tt))
    pure per_keep

  -- The loop that sends RERRs; the first argument bounds the rounds. The result says whether the
  -- loop ended.
  unfoldable pub send_rerrs : ℕ → Settings → Oracle → Timeval → List LinkBreak → Step Bool
  send_rerrs zero cfg o timestamp destlist = pure false
  send_rerrs (suc n) cfg o timestamp destlist = do
    (rerr_msg, left) ← aodv_create_rerr cfg destlist
    elim rerr_msg [
      | none ↦ pure true
      | some m ↦ do
        send (mesh none m)
        on_db (λ db. (aodv_db_putrerr D db o timestamp, tt))
        send_rerrs n cfg (after 1 o) timestamp left
    ]

  -- `AODV_SC_SEND_OUT_RERR`; `none` if the loop has not ended.
  unfoldable pub send_out_rerr : ℕ → Settings → Oracle → Timeval → ℕ → Step (Option PerResult)
  send_out_rerr rounds cfg o timestamp ether_addr = do
    rerr_count ← on_db (λ db. aodv_db_getrerrcount D db timestamp)
    if leb rerr_ratelimit rerr_count then pure (some per_keep) else do
      known ← follow_db (λ db. aodv_db_inv_over_nexthop db ether_addr)
      if known
          then (do
            dests ← follow_db (get_destlist_step ether_addr)
            elim dests [
              | none ↦ pure (some per_zero)
              | some destlist ↦ do
                ended ← send_rerrs rounds cfg o timestamp destlist
                pure (if ended then some per_keep else none)
            ])
          else pure (some per_zero)

  -- `AODV_SC_SEND_OUT_RWARN`
  unfoldable pub send_out_rwarn : Settings → Oracle → ℕ → Step (Unit {0})
  send_out_rwarn cfg o ether_addr = do
    head ← follow_db (λ db. aodv_db_get_warn_endpoints_from_neighbor_and_set_warn db ether_addr)
    elim head [ none ↦ pure tt | some dests ↦ request_all cfg o dests ]

  -- `AODV_SC_UPDATE_RSSI`
  unfoldable pub update_rssi : Settings → Oracle → Timeval → Schedule → Step (Unit {0})
  update_rssi cfg o timestamp sc = do
    diff ← on_db (λ db. aodv_db_update_rssi db sc.ether_addr sc.schedule_param o.average)
    if is_pos (sub_ℤ diff cfg.signal_strength_threshold)
        then (do
          added ← on_db (λ db.
              aodv_db_addschedule D db timestamp sc.ether_addr sc_send_out_rwarn 0 (o.memory 0))
          pure tt)
        else pure tt

  unfoldable pub execute_schedule :
      ℕ → Settings → Oracle → Timeval → Schedule → Step (Option PerResult)
  execute_schedule rounds cfg o timestamp sc =
      if sc.schedule_id == sc_repeat_rreq
      then (do aodv_send_rreq_repeat D cfg o sc.schedule_param; pure (some per_keep))
      else if sc.schedule_id == sc_send_out_rerr
      then send_out_rerr rounds cfg o timestamp sc.ether_addr
      else if sc.schedule_id == sc_send_out_rwarn
      then (do send_out_rwarn cfg o sc.ether_addr; pure (some per_keep))
      else if sc.schedule_id == sc_update_rssi
      then (do update_rssi cfg o timestamp sc; pure (some per_keep))
      else pure (some per_keep)

  -- One schedule is executed, if one is due. `none` if that does not end in so many rounds.
  unfoldable pub aodv_periodic_scexecute : ℕ → Settings → Oracle → Step (Option PerResult)
  aodv_periodic_scexecute rounds cfg o = do
    let timestamp = o.now 0
    popped ← on_db (λ db. aodv_db_popschedule D db timestamp)
    elim popped [
      | none ↦ pure (some per_keep)
      | some sc ↦ execute_schedule rounds cfg (after 1 o) timestamp sc
    ]
