-- ===== src/Handlers/Rrep.antt =====
-- src/pipeline/aodv_pipeline.c, `aodv_handle_rrep`.
use des_aodv.Common.{not, none, some, if◌then◌else◌}
use des_aodv.Dessert.{Dessert}
use des_aodv.RoutingTable.{no_flags}
use des_aodv.Database.Routes.{aodv_db_capt_rrep, aodv_db_getroute2dest, aodv_db_add_precursor}
use des_aodv.Message.{Msg, RxFlags, Verdict, keep, drop, mesh, MeshIface, Settings, Oracle, after}
use des_aodv.Daemon.{Step, pure, on_db, send, ◌>>=◌, ◌>>◌}
use des_aodv.Forward.{aodv_send_packets_from_buffer}
use des_aodv.Handlers.{age, measure}

module _ (D : Dessert) where
  unfoldable pub aodv_handle_rrep : Settings → Oracle → Msg → RxFlags → MeshIface → Step Verdict
  aodv_handle_rrep cfg o msg rx iface = elim msg.rrep [
    | none ↦ pure keep
    | some ext ↦ if not rx.l2_dst then pure drop else (do
      let ts = o.now 0
      aged ← measure D cfg o (age msg) ts
      used ← on_db (λ db.
          aodv_db_capt_rrep D db cfg.signal_strength_threshold (after 1 o) aged.l25_shost
            aged.l2_shost iface.self ext.destination_sequence_number aged.u16 aged.u8 ts)
      if not used
          then pure drop
          else if rx.l25_dst
          then (do aodv_send_packets_from_buffer aged.l25_shost aged.l2_shost iface.self; pure drop)
          else (do
            route ← on_db (λ db. aodv_db_getroute2dest D db (after 2 o) aged.l25_dhost ts no_flags)
            elim route [
              | none ↦ pure drop
              | some (next_hop, output_iface) ↦ do
                added ← on_db (λ db.
                    aodv_db_add_precursor db aged.l25_shost next_hop output_iface o.precursor_found)
                send (mesh (some output_iface) (record aged { l2_dhost = next_hop }))
                pure drop
            ]))
  ]
