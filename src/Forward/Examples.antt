-- ===== src/Forward/Examples.antt =====
-- Examples on src/pipeline/aodv_forward.c.
use des_aodv.Common.{ℕ, ◌≡◌, ◌++◌, List, refl, true, false, [], ◌∷◌, arith, if◌then◌else◌}
use des_aodv.Clock.{clock, in_order, at_second}
use des_aodv.DataSeq.Examples.{no_packets-IsSafe}
use des_aodv.PdrTracker.{done}
use des_aodv.Database.{aodv_db_capt_data_seq}
use des_aodv.Message.{Msg, Output, drop, after}
use des_aodv.Daemon.{Daemon}
use des_aodv.Daemon.Sample.{settings, oracle, daemon, data_packet, flags_of}
use des_aodv.Forward.{aodv_send_packets_from_buffer, aodv_forward_broadcast, aodv_sys2rp}
use des_aodv.Forward.Buffer.{BufferIsApart, Empties, send_packets_all}
use des_aodv.PacketBuffer.{pb_cleanup, waiting}
use des_aodv.Timeslot.{purgeobjects, purge_loop}
use des_aodv.Database.Routes.{aodv_db_getroute2dest}
use des_aodv.RoutingTable.Query.{aodv_db_rt_getroute2dest}
use des_aodv.RreqSeries.Started.{IsRunning}
use des_aodv.Forward.Unrouted.{unrouted_delivered}
use des_aodv.Forward.Once.{Drops, copies, broadcast_once}

pub daemon-BufferIsApart : BufferIsApart daemon
daemon-BufferIsApart = (refl, (refl, tt))

send_packets_all_example :
    Empties 17 20 1 daemon
      (data_packet 1 ∷ data_packet 2 ∷ [])
      (aodv_send_packets_from_buffer 17 20 1 daemon)
send_packets_all_example = send_packets_all 17 20 1 daemon daemon-BufferIsApart

-- a broadcast of host 9
abbrev broadcast : Msg
broadcast = record (data_packet 1) { l25_shost = 9; u16 = 4; ttl = 5 }

broadcast_once_example :
    (d1 : Daemon) × (aodv_forward_broadcast clock oracle broadcast (flags_of true false) daemon
      ≡ done (
        d1,
        (if (aodv_db_capt_data_seq clock daemon.db (after 1 oracle) 9 4 1 (oracle.now 0)).1
            then copies broadcast
            else []),
        drop,
      ))
    × ((aodv_db_capt_data_seq clock daemon.db (after 1 oracle) 9 4 1 (oracle.now 0)).1 ≡ true
        → (again : Msg) → again.l25_shost ≡ 9
        → again.u16 ≡ 4
        → Drops clock settings again d1)
broadcast_once_example =
    broadcast_once in_order settings oracle broadcast (flags_of true false) daemon no_packets-IsSafe
      (omega arith) refl (omega arith) refl (omega arith)

-- a packet of this host for host 19, to which there is no route
abbrev unrouted : Msg
unrouted = record (data_packet 4) { l25_dhost = 19 }

unrouted_delivered_example :
    let msg : Msg = record unrouted { ttl = 255; u8 = 0 } in
    (d' : Daemon) × (outs : List Output) × (aodv_sys2rp clock settings oracle unrouted daemon
      ≡ done (d', outs, drop))
    × IsRunning 19 d'
    × ((next_hop iface : ℕ)
        → Empties 19 next_hop iface d'
            (waiting Msg (pb_cleanup Msg clock daemon.db.pb (at_second 8)) 19 ++ (msg ∷ []))
            (aodv_send_packets_from_buffer 19 next_hop iface d'))
unfolding aodv_db_getroute2dest aodv_db_rt_getroute2dest pb_cleanup purgeobjects purge_loop
unrouted_delivered_example =
    unrouted_delivered clock settings oracle unrouted daemon in_order 2004 2002 daemon-BufferIsApart
      refl refl refl refl refl
      (record { sorted = tt; distinct = tt; counted = refl; small = omega arith }) (omega arith)
      (omega arith) (λ e h. cc)
