-- ===== src/System/Tasks.antt =====
-- The tasks of src/pipeline/aodv_periodic.c keep the state well-formed.
use des_aodv.Common.{
  ℕ, zero, suc, ◌+◌, ◌%◌, ◌^◌, ◌==◌, true, false, none, some, List, [], ◌∷◌, leb, is_pos, sub_ℤ,
  if◌then◌else◌, arith,
}
use des_aodv.Config.{
  rerr_ratelimit, sc_repeat_rreq, sc_send_out_rerr, sc_send_out_rwarn, sc_update_rssi,
}
use des_aodv.Dessert.{Dessert, Timeval}
use des_aodv.ScheduleTable.{Schedule}
use des_aodv.RoutingTable.{LinkBreak}
use des_aodv.Database.{aodv_db_cleanup}
use des_aodv.Database.Routes.{aodv_db_get_active_routes}
use des_aodv.Message.{Settings, Oracle, after, mesh, empty_msg}
use des_aodv.Daemon
use des_aodv.Daemon.{Daemon, Step, pure, gets, crash, on_db, send, ◌>>=◌, ◌>>◌}
use des_aodv.Daemon.Keeps.{
  Keeps, bind-Keeps, pure-Keeps, gets-Keeps, send-Keeps, if-Keeps, option-Keeps, modify-Keeps,
}
use des_aodv.Periodic.{
  per_keep, per_zero, aodv_periodic_send_hello, request_all, aodv_periodic_send_rreq,
  aodv_periodic_cleanup_database, send_rerrs, send_out_rerr, send_out_rwarn, update_rssi,
  execute_schedule, aodv_periodic_scexecute,
}
use des_aodv.System.WellFormed.{WellFormed, buffer_db-WellFormed}
use des_aodv.PacketBuffer.Keys.{pb_cleanup-Apart}
use des_aodv.System.Buffer.{
  getrerrcount-WellFormed, putrerr-WellFormed, update_rssi-WellFormed, addschedule-WellFormed,
  popschedule-WellFormed,
}
use des_aodv.System.Links.{
  inv_over_nexthop-WellFormed, get_destlist-WellFormed, get_warn_endpoints-WellFormed,
}
use des_aodv.System.Series.{send_rreq-WellFormed, send_rreq_repeat-WellFormed}
use des_aodv.System.Packets.{create_rerr-WellFormed}

set_hello_seq-WellFormed :
    (seq : ℕ)
    → Keeps WellFormed (Daemon.modify (λ d. record d { seq_num_hello = (seq + 1) % 2 ^ 16 }))
set_hello_seq-WellFormed seq = modify-Keeps _ (λ d w. record {
  apart = w.apart;
  series = w.series;
  seq_num_global = w.seq_num_global;
  data_seq_global = w.data_seq_global;
  seq_num_hello = omega arith;
  unheld = w.unheld;
})

pub send_hello-WellFormed :
    (cfg : Settings) (payload : ℕ) → Keeps WellFormed (aodv_periodic_send_hello cfg payload)
unfolding aodv_periodic_send_hello
send_hello-WellFormed cfg payload = bind-Keeps _ _ (gets-Keeps (λ d. d.seq_num_hello)) (λ seq.
    bind-Keeps _ _ (set_hello_seq-WellFormed seq) (λ u.
      bind-Keeps _ _
        (send-Keeps (
          mesh none (record empty_msg {
            ttl = 2;
            u16 = seq;
            hello = some (record { hello_rcvd_count = 0; hello_interval = cfg.hello_interval });
            payload = payload;
          })))
        (λ u1. pure-Keeps per_keep)))

module _ (D : Dessert) where
  request_all-WellFormed :
      (cfg : Settings) (o : Oracle) (dests : List LinkBreak)
      → Keeps WellFormed (request_all D cfg o dests)
  unfolding request_all
  request_all-WellFormed cfg o [] = pure-Keeps tt
  request_all-WellFormed cfg o (dest ∷ dests) =
      bind-Keeps _ _ (send_rreq-WellFormed D cfg o dest.host)
        (λ u. request_all-WellFormed cfg (after 4 o) dests)

  pub periodic_send_rreq-WellFormed :
      (cfg : Settings) (o : Oracle) → Keeps WellFormed (aodv_periodic_send_rreq D cfg o)
  unfolding aodv_periodic_send_rreq
  periodic_send_rreq-WellFormed cfg o =
      bind-Keeps _ _ (gets-Keeps (λ d. aodv_db_get_active_routes d.db))
        (λ active. bind-Keeps _ _ (request_all-WellFormed cfg o active) (λ u. pure-Keeps per_keep))

  db_cleanup-WellFormed :
      (o : Oracle) (t : Timeval) → Keeps WellFormed (on_db (λ db. (aodv_db_cleanup D db o t, tt)))
  unfolding aodv_db_cleanup
  db_cleanup-WellFormed o t =
      buffer_db-WellFormed (λ db. (aodv_db_cleanup D db o t, tt))
        (λ db apart. pb_cleanup-Apart D db.pb t apart)

  pub cleanup_database-WellFormed :
      (o : Oracle) → Keeps WellFormed (aodv_periodic_cleanup_database D o)
  unfolding aodv_periodic_cleanup_database
  cleanup_database-WellFormed o =
      bind-Keeps _ _ (db_cleanup-WellFormed o (o.now 0)) (λ u. pure-Keeps per_keep)

  send_rerrs-WellFormed :
      (n : ℕ) (cfg : Settings) (o : Oracle) (t : Timeval) (dests : List LinkBreak)
      → Keeps WellFormed (send_rerrs D n cfg o t dests)
  unfolding send_rerrs
  send_rerrs-WellFormed zero cfg o t dests = pure-Keeps false
  send_rerrs-WellFormed (suc n) cfg o t dests =
      bind-Keeps _ _ (create_rerr-WellFormed cfg dests) (λ made.
        option-Keeps made.0 _ _ (λ e. pure-Keeps true)
          (λ m e. bind-Keeps _ _ (send-Keeps (mesh none m)) (λ u.
            bind-Keeps _ _ (putrerr-WellFormed D o t)
              (λ u1. send_rerrs-WellFormed n cfg (after 1 o) t made.1))))

  send_out_rerr-WellFormed :
      (n : ℕ) (cfg : Settings) (o : Oracle) (t : Timeval) (addr : ℕ)
      → Keeps WellFormed (send_out_rerr D n cfg o t addr)
  unfolding send_out_rerr
  send_out_rerr-WellFormed n cfg o t addr = bind-Keeps _ _ (getrerrcount-WellFormed D t) (λ count.
      if-Keeps (leb rerr_ratelimit count) _ _ (λ e. pure-Keeps (some per_keep))
        (λ e. bind-Keeps _ _ (inv_over_nexthop-WellFormed addr) (λ known.
          if-Keeps known _ _
            (λ e1. bind-Keeps _ _ (get_destlist-WellFormed addr) (λ dests.
              option-Keeps dests _ _ (λ e2. pure-Keeps (some per_zero))
                (λ destlist e2.
                  bind-Keeps _ _ (send_rerrs-WellFormed n cfg o t destlist)
                    (λ ended. pure-Keeps (if ended then some per_keep else none)))))
            (λ e1. pure-Keeps (some per_zero)))))

  send_out_rwarn-WellFormed :
      (cfg : Settings) (o : Oracle) (addr : ℕ) → Keeps WellFormed (send_out_rwarn D cfg o addr)
  unfolding send_out_rwarn
  send_out_rwarn-WellFormed cfg o addr =
      bind-Keeps _ _ (get_warn_endpoints-WellFormed addr) (λ head.
        option-Keeps head _ _ (λ e. pure-Keeps tt) (λ dests e. request_all-WellFormed cfg o dests))

  update_rssi_task-WellFormed :
      (cfg : Settings) (o : Oracle) (t : Timeval) (sc : Schedule)
      → Keeps WellFormed (update_rssi D cfg o t sc)
  unfolding update_rssi
  update_rssi_task-WellFormed cfg o t sc =
      bind-Keeps _ _ (update_rssi-WellFormed sc.ether_addr sc.schedule_param o.average) (λ diff.
        if-Keeps (is_pos (sub_ℤ diff cfg.signal_strength_threshold)) _ _
          (λ e.
            bind-Keeps _ _
              (addschedule-WellFormed D t sc.ether_addr sc_send_out_rwarn 0 (o.memory 0))
              (λ added. pure-Keeps tt))
          (λ e. pure-Keeps tt))

  execute_schedule-WellFormed :
      (n : ℕ) (cfg : Settings) (o : Oracle) (t : Timeval) (sc : Schedule)
      → Keeps WellFormed (execute_schedule D n cfg o t sc)
  unfolding execute_schedule
  execute_schedule-WellFormed n cfg o t sc =
      if-Keeps (sc.schedule_id == sc_repeat_rreq) _ _
        (λ e.
          bind-Keeps _ _ (send_rreq_repeat-WellFormed D cfg o sc.schedule_param)
            (λ u. pure-Keeps (some per_keep)))
        (λ e.
          if-Keeps (sc.schedule_id == sc_send_out_rerr) _ _
            (λ e1. send_out_rerr-WellFormed n cfg o t sc.ether_addr)
            (λ e1.
              if-Keeps (sc.schedule_id == sc_send_out_rwarn) _ _
                (λ e2.
                  bind-Keeps _ _ (send_out_rwarn-WellFormed cfg o sc.ether_addr)
                    (λ u. pure-Keeps (some per_keep)))
                (λ e2.
                  if-Keeps (sc.schedule_id == sc_update_rssi) _ _
                    (λ e3.
                      bind-Keeps _ _ (update_rssi_task-WellFormed cfg o t sc)
                        (λ u. pure-Keeps (some per_keep)))
                    (λ e3. pure-Keeps (some per_keep)))))

  pub scexecute-WellFormed :
      (n : ℕ) (cfg : Settings) (o : Oracle) → Keeps WellFormed (aodv_periodic_scexecute D n cfg o)
  unfolding aodv_periodic_scexecute
  scexecute-WellFormed n cfg o = bind-Keeps _ _ (popschedule-WellFormed D (o.now 0)) (λ popped.
      option-Keeps popped _ _ (λ e. pure-Keeps (some per_keep))
        (λ sc e. execute_schedule-WellFormed n cfg (after 1 o) (o.now 0) sc))
