-- ===== src/Forward/Unrouted.antt =====
-- A packet of this host for a host without a route, in src/pipeline/aodv_forward.c.
use des_aodv.Common.{
  ℕ, ◌≡◌, ◌<◌, refl, ◌∙◌, ap, subst, ◌+◌, ◌^◌, true, false, Option, none, some, List, [], ◌∷◌, ◌++◌,
  ◌==◌,
}
use des_aodv.Dessert.{Dessert, Ordered}
use des_aodv.Timeslot.Refine.{IsValid}
use des_aodv.RoutingTable.{no_flags}
use des_aodv.PdrTracker.{done}
use des_aodv.PacketBuffer.{pb_cleanup, pb_push_packet, waiting}
use des_aodv.PacketBuffer.Push.{HasRoom, push_packet-waiting}
use des_aodv.Database.{Db, aodv_db_push_packet}
use des_aodv.Database.Routes.{aodv_db_getroute2dest}
use des_aodv.Message.{Msg, drop, Settings, Oracle, Output, after, ether_broadcast}
use des_aodv.Daemon.{Daemon}
use des_aodv.Daemon.Runs.{then_sent, run_last}
use des_aodv.RreqSeries.{aodv_send_rreq}
use des_aodv.RreqSeries.Started.{IsRunning, send_rreq-Searching}
use des_aodv.Forward.{aodv_send_packets_from_buffer, aodv_sys2rp}
use des_aodv.Forward.Buffer.{BufferIsApart, Empties, send_packets_all}
use des_aodv.PacketBuffer.Keys.{pb_push_packet-Apart}

module _ (D : Dessert) (cfg : Settings) (o : Oracle) (msg : Msg) (d : Daemon) where
  -- the packet as it is buffered, before it is copied
  abbrev pub outgoing : Msg
  outgoing = record msg { ttl = 255; u8 = 0 }

  -- the lookup of the route
  abbrev pub lookup : Db × Option (ℕ × ℕ)
  lookup =
      aodv_db_getroute2dest D d.db (after 1 o) msg.l25_dhost (o.now 0)
        (record no_flags { local_used = true })

  unrouted_run :
      (a : ℕ)
      → msg.l25_dhost == ether_broadcast ≡ false
      → lookup.1 ≡ none
      → o.malloc 4 ≡ some a
      → (d' : Daemon) × (outs : List Output) × (aodv_sys2rp D cfg o msg d ≡ done (d', outs, drop))
        × IsRunning msg.l25_dhost d'
        × (d'.db.pb
            ≡ (aodv_db_push_packet D lookup.0 (after 2 o) msg.l25_dhost outgoing (o.now 0)).pb)
  unfolding aodv_sys2rp
  unrouted_run a unicast no_route memory =
      let d2 : Daemon = record d {
        db = aodv_db_push_packet D lookup.0 (after 2 o) msg.l25_dhost outgoing (o.now 0);
      } in
      let (d', outs, ran, searching, same) =
        send_rreq-Searching D cfg (after 4 o) msg.l25_dhost a d2 memory in
      (
        d',
        outs,
        rw (unicast, no_route)
            (ap (λ r. then_sent [] (then_sent [] r))
              (run_last (aodv_send_rreq D cfg (after 4 o) msg.l25_dhost) (λ u. drop) ran)),
        searching,
        same,
      )

  -- A packet of this host for a host without a route, not a broadcast, with memory for what is
  -- allocated, a valid timeslot with room, fewer than 2 ^ 32 - 1 packets that wait for the
  -- host and a counter that is their number, no host twice in the packet buffer, and a clock
  -- that has not passed the time at which the packet runs out: the run ends with a search for
  -- the host. If packets are then sent from the buffer to a next hop, those that waited for
  -- the host and had not run out go there in their order, and the new packet behind them.
  pub unrouted_delivered :
      (O : Ordered D) (a b : ℕ)
      → let pb = d.db.pb in
        let kept = pb_cleanup Msg D pb (o.now 0) in
        BufferIsApart d
        → msg.l25_dhost == ether_broadcast ≡ false
        → lookup.1 ≡ none
        → o.malloc 2 ≡ some b
        → o.memory 2 ≡ true
        → o.malloc 4 ≡ some a
        → IsValid O pb.ts
        → kept.ts.size + 1 < 2 ^ 32
        → O.instant (o.now 2) < O.instant (D.timevaladd2 pb.ts.purge_timeout (o.now 0))
        → HasRoom O Msg o.clone kept msg.l25_dhost
        → (d' : Daemon) × (outs : List Output) × (aodv_sys2rp D cfg o msg d ≡ done (d', outs, drop))
          × IsRunning msg.l25_dhost d'
          × ((next_hop iface : ℕ)
              → Empties msg.l25_dhost next_hop iface d'
                  (waiting Msg kept msg.l25_dhost ++ (o.clone outgoing ∷ []))
                  (aodv_send_packets_from_buffer msg.l25_dhost next_hop iface d'))
  unfolding aodv_db_push_packet aodv_db_getroute2dest
  unrouted_delivered O a b apart unicast no_route memory fl_memory series_memory valid room early
        counted =
      let host = msg.l25_dhost in
      let (d', outs, ran, searching, same) = unrouted_run a unicast no_route series_memory in
      let pb = d.db.pb in
      let pushed =
        pb_push_packet Msg D o.clone pb host outgoing (o.now 0) (some b) true (o.memory 3)
          (o.now 2) in
      let is_pushed : d'.db.pb ≡ pushed = same ∙ rw (memory, fl_memory) refl in
      (
        d',
        outs,
        ran,
        searching,
        λ next_hop iface.
            subst
              (λ ms.
                Empties host next_hop iface d' ms
                  (aodv_send_packets_from_buffer host next_hop iface d'))
              (ap (λ x. waiting Msg x host) is_pushed
                ∙ push_packet-waiting O Msg o.clone pb host outgoing (o.now 0) b (o.memory 3)
                    (o.now 2) valid room early counted)
              (send_packets_all host next_hop iface d' (
                rw is_pushed (
                  pb_push_packet-Apart D o.clone pb host outgoing (o.now 0) (some b) true
                    (o.memory 3) (o.now 2) apart))),
      )
