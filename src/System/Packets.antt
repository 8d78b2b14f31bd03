-- ===== src/System/Packets.antt =====
-- The data packets of src/pipeline/aodv_forward.c keep the state well-formed.
use des_aodv.Common.{
  ℕ, zero, suc, ◌+◌, ◌-◌, ◌%◌, ◌^◌, ◌<◌, ◌||◌, true, not, none, some, List, [], ◌∷◌, ◌==◌, is_some,
  leb, length, if◌then◌else◌, arith,
}
use des_aodv.Config.{rerr_ratelimit, max_mesh_ifaces_count}
use des_aodv.Dessert.{Dessert, Timeval}
use des_aodv.RoutingTable.{LinkBreak, no_flags}
use des_aodv.PacketBuffer.{waiting}
use des_aodv.PacketBuffer.Fifo.{pop_packet-Apart}
use des_aodv.Database.{aodv_db_pop_packet, aodv_db_push_packet}
use des_aodv.Message.{
  Msg, RxFlags, keep, drop, Settings, Oracle, after, mesh, sys, ether_broadcast, less_ttl,
  more_hops,
}
use des_aodv.Daemon
use des_aodv.Daemon.{Daemon, Step, pure, gets, crash, on_db, send, ◌>>=◌, ◌>>◌}
use des_aodv.Daemon.Keeps.{
  Keeps, bind-Keeps, bind-gets-Keeps, pure-Keeps, gets-Keeps, crash-Keeps, send-Keeps, if-Keeps,
  option-Keeps, modify-Keeps,
}
use des_aodv.RouteError.{aodv_create_rerr}
use des_aodv.Forward.{
  next_data_seq, send_loop, aodv_send_packets_from_buffer, take_packet, aodv_forward_broadcast,
  report_unreachable, aodv_forward, aodv_sys2rp, aodv_local_unicast,
}
use des_aodv.System.WellFormed.{WellFormed, buffer_db-WellFormed}
use des_aodv.PacketBuffer.Keys.{pb_push_packet-Apart}
use des_aodv.System.Buffer.{
  capt_data_seq-WellFormed, getrerrcount-WellFormed, putrerr-WellFormed, getroute2dest-WellFormed,
}
use des_aodv.System.Series.{delete_series_ether-WellFormed, send_rreq-WellFormed}

set_data_seq-WellFormed :
    (seq : ℕ)
    → seq < 2 ^ 16
    → Keeps WellFormed (Daemon.modify (λ d. record d { data_seq_global = seq }))
set_data_seq-WellFormed seq small = modify-Keeps _ (λ d w. record {
  apart = w.apart;
  series = w.series;
  seq_num_global = w.seq_num_global;
  data_seq_global = small;
  seq_num_hello = w.seq_num_hello;
  unheld = w.unheld;
})

next_data_seq-WellFormed : Keeps WellFormed next_data_seq
next_data_seq-WellFormed =
    bind-gets-Keeps (λ seq. seq < 2 ^ 16) (λ d. (d.data_seq_global + 1) % 2 ^ 16) _
      (λ d w. omega arith)
      (λ seq small. bind-Keeps _ _ (set_data_seq-WellFormed seq small) (λ u. pure-Keeps seq))

pop_packet-WellFormed : (dhost : ℕ) → Keeps WellFormed (on_db (λ db. aodv_db_pop_packet db dhost))
unfolding aodv_db_pop_packet
pop_packet-WellFormed dhost =
    buffer_db-WellFormed (λ db. aodv_db_pop_packet db dhost)
      (λ db apart. pop_packet-Apart Msg db.pb dhost apart)

send_loop-WellFormed :
    (n dhost next_hop iface : ℕ) → Keeps WellFormed (send_loop n dhost next_hop iface)
unfolding send_loop
send_loop-WellFormed zero dhost next_hop iface = pure-Keeps tt
send_loop-WellFormed (suc n) dhost next_hop iface =
    bind-Keeps _ _ (pop_packet-WellFormed dhost) (λ buffered.
      option-Keeps buffered _ _ (λ e. pure-Keeps tt)
        (λ msg e. bind-Keeps _ _ next_data_seq-WellFormed (λ seq.
          bind-Keeps _ _
            (send-Keeps (mesh (some iface) (record msg { u16 = seq; l2_dhost = next_hop })))
            (λ u. send_loop-WellFormed n dhost next_hop iface))))

pub send_packets-WellFormed :
    (dhost next_hop iface : ℕ)
    → Keeps WellFormed (aodv_send_packets_from_buffer dhost next_hop iface)
unfolding aodv_send_packets_from_buffer
send_packets-WellFormed dhost next_hop iface =
    bind-Keeps _ _ (delete_series_ether-WellFormed dhost) (λ u.
      bind-Keeps _ _ (gets-Keeps (λ d. length (waiting Msg d.db.pb dhost) + 1))
        (λ rounds. send_loop-WellFormed rounds dhost next_hop iface))

pub create_rerr-WellFormed :
    (cfg : Settings) (dests : List LinkBreak) → Keeps WellFormed (aodv_create_rerr cfg dests)
unfolding aodv_create_rerr
create_rerr-WellFormed cfg [] = pure-Keeps (none, [])
create_rerr-WellFormed cfg (el ∷ els) =
    if-Keeps (leb (length cfg.meshifs) max_mesh_ifaces_count) _ _ (λ e. pure-Keeps _)
      (λ e. crash-Keeps)

module _ (D : Dessert) where
  take_packet-WellFormed :
      (o : Oracle) (msg : Msg) (t : Timeval) → Keeps WellFormed (take_packet D o msg t)
  unfolding take_packet
  take_packet-WellFormed o msg t =
      let msg' = more_hops (less_ttl msg) in
      if-Keeps (msg.ttl == 0) _ _ (λ e. pure-Keeps none)
        (λ e.
          bind-Keeps _ _ (capt_data_seq-WellFormed D o msg'.l25_shost msg'.u16 msg'.u8 t)
            (λ fresh. pure-Keeps (if fresh then some msg' else none)))

  pub forward_broadcast-WellFormed :
      (o : Oracle) (msg : Msg) (rx : RxFlags) → Keeps WellFormed (aodv_forward_broadcast D o msg rx)
  unfolding aodv_forward_broadcast
  forward_broadcast-WellFormed o msg rx =
      if-Keeps rx.l25_broadcast _ _
        (λ e. bind-Keeps _ _ (take_packet-WellFormed (after 1 o) msg (o.now 0)) (λ taken.
          option-Keeps taken _ _ (λ e1. pure-Keeps drop)
            (λ msg' e1.
              bind-Keeps _ _ (send-Keeps (mesh none msg'))
                (λ u. bind-Keeps _ _ (send-Keeps (sys msg')) (λ u1. pure-Keeps drop)))))
        (λ e. pure-Keeps keep)

  pub local_unicast-WellFormed :
      (o : Oracle) (msg : Msg) (rx : RxFlags) → Keeps WellFormed (aodv_local_unicast D o msg rx)
  unfolding aodv_local_unicast
  local_unicast-WellFormed o msg rx =
      if-Keeps rx.l25_dst _ _
        (λ e. bind-Keeps _ _ (take_packet-WellFormed (after 1 o) msg (o.now 0)) (λ taken.
          option-Keeps taken _ _ (λ e1. pure-Keeps drop)
            (λ msg' e1. bind-Keeps _ _ (send-Keeps (sys msg')) (λ u. pure-Keeps drop))))
        (λ e. pure-Keeps drop)

  push_packet-WellFormed :
      (o : Oracle) (dhost : ℕ) (msg : Msg) (t : Timeval)
      → Keeps WellFormed (on_db (λ db. (aodv_db_push_packet D db o dhost msg t, tt)))
  unfolding aodv_db_push_packet
  push_packet-WellFormed o dhost msg t =
      buffer_db-WellFormed (λ db. (aodv_db_push_packet D db o dhost msg t, tt))
        (λ db apart.
          pb_push_packet-Apart D o.clone db.pb dhost msg t (o.malloc 0) (o.memory 0) (o.memory 1)
            (o.now 0) apart)

  report_unreachable-WellFormed :
      (cfg : Settings) (o : Oracle) (dhost : ℕ) (t : Timeval)
      → Keeps WellFormed (report_unreachable D cfg o dhost t)
  unfolding report_unreachable
  report_unreachable-WellFormed cfg o dhost t =
      let dests : List LinkBreak = record { host = dhost; sequence_number = 2 ^ 32 - 1 } ∷ [] in
      bind-Keeps _ _ (getrerrcount-WellFormed D t) (λ count.
        if-Keeps (leb rerr_ratelimit count) _ _ (λ e. pure-Keeps tt)
          (λ few.
            if-Keeps (is_some (o.malloc 0)) _ _
              (λ e. bind-Keeps _ _ (create_rerr-WellFormed cfg dests) (λ made.
                option-Keeps made.0 _ _ (λ e1. pure-Keeps tt)
                  (λ m e1.
                    bind-Keeps _ _ (send-Keeps (mesh none m)) (λ u. putrerr-WellFormed D o t))))
              (λ e. crash-Keeps)))

  pub forward-WellFormed :
      (cfg : Settings) (o : Oracle) (msg : Msg) (rx : RxFlags)
      → Keeps WellFormed (aodv_forward D cfg o msg rx)
  unfolding aodv_forward
  forward-WellFormed cfg o msg rx =
      if-Keeps (not rx.l2_dst || rx.l25_dst) _ _ (λ e. pure-Keeps keep)
        (λ e. bind-Keeps _ _ (take_packet-WellFormed (after 1 o) msg (o.now 0)) (λ taken.
          option-Keeps taken _ _ (λ e1. pure-Keeps drop)
            (λ msg' e1.
              bind-Keeps _ _
                (getroute2dest-WellFormed D (after 2 o) msg'.l25_dhost (o.now 0) no_flags)
                (λ route.
                  option-Keeps route _ _
                    (λ e2.
                      bind-Keeps _ _
                        (report_unreachable-WellFormed cfg (after 3 o) msg'.l25_dhost (o.now 0))
                        (λ u. pure-Keeps drop))
                    (λ hop e2.
                      bind-Keeps _ _
                        (send-Keeps (mesh (some hop.1) (record msg' { l2_dhost = hop.0 })))
                        (λ u. pure-Keeps drop))))))

  pub sys2rp-WellFormed :
      (cfg : Settings) (o : Oracle) (msg : Msg) → Keeps WellFormed (aodv_sys2rp D cfg o msg)
  unfolding aodv_sys2rp
  sys2rp-WellFormed cfg o msg =
      let msg' : Msg = record msg { ttl = 255; u8 = 0 } in
      if-Keeps (msg'.l25_dhost == ether_broadcast) _ _
        (λ e. bind-Keeps _ _ next_data_seq-WellFormed (λ seq.
          bind-Keeps _ _ (send-Keeps (mesh none (record msg' { u16 = seq })))
            (λ u. pure-Keeps drop)))
        (λ e.
          bind-Keeps _ _
            (getroute2dest-WellFormed D (after 1 o) msg'.l25_dhost (o.now 0)
              (record no_flags { local_used = true }))
            (λ route.
              option-Keeps route _ _
                (λ e1.
                  bind-Keeps _ _ (push_packet-WellFormed (after 2 o) msg'.l25_dhost msg' (o.now 0))
                    (λ u.
                      bind-Keeps _ _ (send_rreq-WellFormed D cfg (after 4 o) msg'.l25_dhost)
                        (λ u1. pure-Keeps drop)))
                (λ hop e1. bind-Keeps _ _ next_data_seq-WellFormed (λ seq.
                  bind-Keeps _ _
                    (send-Keeps (mesh (some hop.1) (record msg' { u16 = seq; l2_dhost = hop.0 })))
                    (λ u. pure-Keeps drop)))))
