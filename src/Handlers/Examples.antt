-- ===== src/Handlers/Examples.antt =====
-- Examples on the callbacks of src/pipeline/aodv_pipeline.c.
use des_aodv.Common.{◌≡◌, refl, ◌++◌, ℕ, [], ◌∷◌, arith, some, none, if◌then◌else◌, true, false}
use des_aodv.Clock.{clock, at_second}
use des_aodv.Helper.{hf_comp_u32}
use des_aodv.PacketBuffer.{waiting}
use des_aodv.PdrTracker.{done}
use des_aodv.RoutingTable.{new, RtEntry}
use des_aodv.RoutingTable.Query.{route, invalidate}
use des_aodv.Message.{Msg, Output, mesh, drop, empty_msg}
use des_aodv.Daemon.{Daemon}
use des_aodv.Daemon.Sample.{
  settings, oracle, daemon, broken, rreq_msg, rreq_ext, flags_of, interface,
}
use des_aodv.Forward.Buffer.{numbered}
use des_aodv.Forward.Examples.{daemon-BufferIsApart}
use des_aodv.Handlers.Rerr.Unreachable.{report, unreachable_ignored}
use des_aodv.Forward.{report_unreachable}
use des_aodv.Database.{aodv_db_getrerrcount}
use des_aodv.RateLog.{aodv_db_rl_getrerrcount, aodv_db_rl_getrreqcount, aodv_db_rl_cleanup}
use des_aodv.Timeslot.{purgeobjects, purge_loop}
use des_aodv.Handlers.Rreq.{process_rreq}
use des_aodv.Handlers.Rreq.Answer.{reverse_route, IsAnswer, process_rreq_for_us}
use des_aodv.Handlers.Rerr.{aodv_handle_rerr}
use des_aodv.Handlers.Rerr.Effects.{any_hits, after_rerr, affects}
use des_aodv.Handlers.Rerr.Routes.{
  handle_copies, sent_copies, with_our_ifaces, handle_rerr_routes, handle_rerr_again,
}

-- Host 20 reports that it lost hosts 17 and 18.
abbrev rerr : Msg
rerr = record empty_msg {
  l2_shost = 20;
  rerr = some (record { ifaces = 20 ∷ [] });
  rerrdl = (broken 17 ∷ []) ∷ (broken 18 ∷ []) ∷ [];
}

handle_rerr_routes_example :
    (d' : Daemon) × (aodv_handle_rerr settings rerr daemon
      ≡ done (
        d',
        (if any_hits (20 ∷ []) (broken 17 ∷ broken 18 ∷ []) daemon.db
            then mesh none (with_our_ifaces settings rerr) ∷ []
            else []),
        drop,
      ))
    × ((host : ℕ)
        → route d'.db.rt host
          ≡ after_rerr (20 ∷ []) (broken 17 ∷ broken 18 ∷ []) host (route daemon.db.rt host))
handle_rerr_routes_example =
    handle_rerr_routes settings rerr (record { ifaces = 20 ∷ [] }) refl daemon

handle_rerr_again_example :
    (d1 : Daemon) × (d2 : Daemon) × (aodv_handle_rerr settings rerr daemon
      ≡ done (d1, mesh none (with_our_ifaces settings rerr) ∷ [], drop))
    × ((host : ℕ) (e : RtEntry)
        → route daemon.db.rt host ≡ some e
        → affects (20 ∷ []) (broken 17 ∷ broken 18 ∷ []) host e ≡ true
        → route d1.db.rt host ≡ some (invalidate e))
    × (handle_copies settings rerr 3 d1 ≡ done (d2, sent_copies settings rerr 3, tt))
    × ((host : ℕ) → route d2.db.rt host ≡ route d1.db.rt host)
unfolding hf_comp_u32
handle_rerr_again_example =
    handle_rerr_again settings rerr (record { ifaces = 20 ∷ [] }) refl 3 daemon refl

process_rreq_for_us_example :
    (d' : Daemon) × (out : Output) × (process_rreq clock settings oracle rreq_msg rreq_ext new
        (flags_of false true)
        interface
        (at_second 8)
        daemon
      ≡ done (
        d',
        (if (reverse_route clock settings oracle rreq_msg rreq_ext new
                (flags_of false true)
                interface
                (at_second 8)
                daemon).1
              then numbered 17 21 1 65535 (waiting Msg daemon.db.pb 17)
              else [])
            ++ (out ∷ []),
        drop,
      ))
    × IsAnswer settings rreq_msg rreq_ext 1 out
process_rreq_for_us_example =
    process_rreq_for_us clock settings oracle rreq_msg rreq_ext new (flags_of false true) interface
      (at_second 8) daemon refl daemon-BufferIsApart

-- The interface of host 5 lost host 17, to which the receiver has a route with number 5.
unreachable_ignored_example :
    (d' : Daemon) × (r' : Daemon) × (report_unreachable clock settings oracle 17
        (at_second 8)
        daemon
      ≡ done (d', mesh none (report settings 17) ∷ [], tt))
    × (aodv_handle_rerr settings (report settings 17) daemon ≡ done (r', [], drop))
    × ((other : ℕ) → route r'.db.rt other ≡ route daemon.db.rt other)
unfolding aodv_db_getrerrcount aodv_db_rl_getrerrcount aodv_db_rl_getrreqcount aodv_db_rl_cleanup
    purgeobjects purge_loop
unreachable_ignored_example =
    unreachable_ignored clock settings settings oracle 17 (at_second 8) daemon daemon refl refl refl
      (λ k small count. ground (arith, count)) (λ e here. ground (arith, here))
