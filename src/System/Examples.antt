-- ===== src/System/Examples.antt =====
-- An example of a run of the whole daemon.
use des_aodv.Common.{◌≡◌, refl, true, false, none, some, [], ◌∷◌, leb}
use des_aodv.Clock.{clock}
use des_aodv.Message.{Settings, mesh, Msg, empty_msg}
use des_aodv.Daemon.{Daemon}
use des_aodv.Daemon.Sample.{oracle, interface}
use des_aodv.Database.{aodv_db_init}
use des_aodv.PdrTracker.{done, expected, aodv_db_pdr_nt_init}
use des_aodv.NeighborTable.{db_nt_init}
use des_aodv.DataSeq.{db_ds_init}
use des_aodv.RoutingTable.{aodv_db_rt_init}
use des_aodv.PacketBuffer.{pb_init}
use des_aodv.RateLog.{aodv_db_rl_init}
use des_aodv.Timeslot.{create}
use des_aodv.Pipeline.{start_settings, start}
use des_aodv.Pipeline.Examples.{callbacks}
use des_aodv.Cli.Examples.{reader}
use des_aodv.Periodic.{per_keep, aodv_periodic_send_hello}
use des_aodv.System.{System, Reachable, started, moved, send_hello}
use des_aodv.System.Kept.{IsSound, start_settings-TasksMatch}
use des_aodv.System.Soundness.{Reachable-IsSound}
use des_aodv.System.Reached.{Reachable-gossip_3}
use des_aodv.Gossip.{gossip_3, aodv_gossip_3}
use des_aodv.Handlers.Rreq.{gossip_step}
use des_aodv.PdrTracker.{fault}
use des_aodv.Message.{Oracle, RreqExt}
use des_aodv.Clock.{at_second}

abbrev cfg : Settings
cfg = start_settings 5 (interface ∷ []) 2 (λ exts k. leb k 2)

started_daemon : (d : Daemon) × (start clock cfg oracle ≡ done (some d))
unfolding start aodv_db_init aodv_db_pdr_nt_init expected db_nt_init db_ds_init aodv_db_rt_init
    pb_init aodv_db_rl_init create
started_daemon = (_, refl)

-- the HELLO that the daemon sends first, without a payload
abbrev hello : Msg
hello = record empty_msg {
  ttl = 2;
  hello = some (record { hello_rcvd_count = 0; hello_interval = 1000 });
}

abbrev after_hello : System
after_hello = record { cfg = cfg; daemon = record (started_daemon.0) { seq_num_hello = 1 } }

said_hello : Reachable clock callbacks reader cfg after_hello
unfolding aodv_periodic_send_hello started_daemon
said_hello =
    moved {outs = mesh none hello ∷ []} (started oracle started_daemon.1)
      (send_hello 0 per_keep refl)

Reachable-IsSound_example : IsSound after_hello
Reachable-IsSound_example =
    Reachable-IsSound clock callbacks reader cfg after_hello
      (start_settings-TasksMatch 5 (interface ∷ []) 2 (λ exts k. leb k 2)) said_hello

-- the daemon with GOSSIP_3
abbrev gossip_cfg : Settings
gossip_cfg = record cfg { gossip_type = gossip_3 }

abbrev gossiping : System
gossiping = record { cfg = gossip_cfg; daemon = started_daemon.0 }

gossip_started : Reachable clock callbacks reader gossip_cfg gossiping
unfolding started_daemon start aodv_db_init aodv_db_pdr_nt_init expected db_nt_init db_ds_init
    aodv_db_rt_init pb_init aodv_db_rl_init create
gossip_started = started oracle refl

abbrev unlucky : Oracle
unlucky = record oracle { lucky = false }

abbrev request : RreqExt
request = record {
  unknown_seq_num = true;
  dest_only = false;
  destination_sequence_number = 0;
  originator_sequence_number = 7;
}

Reachable-gossip_3_example :
    (gossip_step gossip_cfg unlucky hello request gossiping.daemon ≡ fault)
    × ((aodv_gossip_3 clock (at_second 5) gossiping.daemon.gossip).1 ≡ [])
Reachable-gossip_3_example =
    Reachable-gossip_3 clock callbacks reader gossip_cfg gossiping unlucky hello request
      (at_second 5) (record { hello = refl; rreq = refl }) gossip_started refl refl
