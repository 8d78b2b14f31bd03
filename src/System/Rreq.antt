-- ===== src/System/Rreq.antt =====
-- `aodv_handle_rreq` of src/pipeline/aodv_pipeline.c keeps the state well-formed.
use des_aodv.Common.{
  ◌≡◌, [], ℕ, ◌^◌, ◌<◌, ◌&&◌, true, none, some, ◌==◌, arith, Option-cases, inl, inr,
}
use des_aodv.Dessert.{Dessert, Timeval}
use des_aodv.RoutingTable.{CaptRreqResult, old, new, metric_hit}
use des_aodv.Gossip.Unheld.{gossip-empty, capt_rreq-empty}
use des_aodv.Gossip.{Gossip, aodv_gossip, aodv_gossip_capt_rreq}
use des_aodv.Database.Routes.{
  aodv_db_get_destination_sequence_number, aodv_db_get_metric, aodv_db_get_hopcount,
}
use des_aodv.Message.{
  Msg, RreqExt, RxFlags, Verdict, keep, drop, Settings, Oracle, MeshIface, after, mesh,
}
use des_aodv.Daemon.{Daemon, pure}
use des_aodv.Daemon.Keeps.{
  Keeps, Satisfies, bind-Keeps, bind-gets-Keeps, pure-Keeps, gets-Keeps, send-Keeps, if-Keeps,
  option-Keeps, modify-Keeps,
}
use des_aodv.Handlers.{_create_rrep, age}
use des_aodv.Handlers.Rreq.{
  reply_seq_num, can_repair, is_gossip_none, answer_rreq, gossip_step, relay_rreq, process_rreq,
  aodv_handle_rreq, to_rreq,
}
use des_aodv.System.{HasWidth}
use des_aodv.System.WellFormed.{WellFormed}
use des_aodv.System.Buffer.{capt_rreq-WellFormed, capt_rrep-WellFormed}
use des_aodv.System.Links.{measure-WellFormed}
use des_aodv.System.Series.{set_seq_num-WellFormed}
use des_aodv.System.Packets.{send_packets-WellFormed}

with_gossip :
    (d : Daemon) (g : Gossip)
    → g.hold_queue ≡ []
    → WellFormed d
    → WellFormed (record d { gossip = g })
with_gossip d g empty w = record {
  apart = w.apart;
  series = w.series;
  seq_num_global = w.seq_num_global;
  data_seq_global = w.data_seq_global;
  seq_num_hello = w.seq_num_hello;
  unheld = empty;
}

reply_seq_num_small :
    (result : CaptRreqResult) (ext : RreqExt) (own : ℕ)
    → ext.destination_sequence_number < 2 ^ 32
    → own < 2 ^ 32
    → reply_seq_num result ext own < 2 ^ 32
unfolding reply_seq_num
reply_seq_num_small old ext own small own_small = ground (arith, small, own_small)
reply_seq_num_small new ext own small own_small = ground (arith, small, own_small)
reply_seq_num_small metric_hit ext own small own_small = ground (arith, small, own_small)

answer_rreq-WellFormed :
    (cfg : Settings) (msg : Msg) (ext : RreqExt) (result : CaptRreqResult) (iface : MeshIface)
    → ext.destination_sequence_number < 2 ^ 32
    → Keeps WellFormed (answer_rreq cfg msg ext result iface)
unfolding answer_rreq
answer_rreq-WellFormed cfg msg ext result iface small =
    bind-gets-Keeps (λ seq. seq < 2 ^ 32) (λ d. reply_seq_num result ext d.seq_num_global) _
      (λ d w. reply_seq_num_small result ext d.seq_num_global small w.seq_num_global)
      (λ seq seq_small. bind-Keeps _ _ (set_seq_num-WellFormed seq seq_small) (λ u. send-Keeps (
        mesh (some iface.self)
          (_create_rrep cfg.l25_defsrc msg.l25_shost msg.l2_shost seq 0 cfg.metric_startvalue))))

gossip_step-WellFormed :
    (cfg : Settings) (o : Oracle) (msg : Msg) (ext : RreqExt)
    → Keeps WellFormed (gossip_step cfg o msg ext)
unfolding gossip_step
gossip_step-WellFormed cfg o msg ext = record {
  run = λ d w.
      elim (Option-cases (aodv_gossip d.gossip cfg.gossip_type o.lucky (to_rreq msg ext))) [
        | inl failed ↦ rw (failed, Satisfies) tt
        | inr ((g, relay), done_) ↦
            rw (done_, Satisfies)
              (with_gossip d g
                (gossip-empty d.gossip g cfg.gossip_type o.lucky relay (to_rreq msg ext) w.unheld
                  done_)
                w)
      ];
}

relay_rreq-WellFormed :
    (cfg : Settings) (o : Oracle) (msg : Msg) (ext : RreqExt) (iface : MeshIface)
    → Keeps WellFormed (relay_rreq cfg o msg ext iface)
unfolding relay_rreq
relay_rreq-WellFormed cfg o msg ext iface =
    bind-Keeps _ _ (gets-Keeps (λ d. aodv_db_get_destination_sequence_number d.db msg.l25_dhost))
      (λ own.
        if-Keeps (can_repair ext own.0 own.1) _ _
          (λ e. bind-Keeps _ _ (gets-Keeps (λ d. aodv_db_get_metric d.db msg.l25_dhost)) (λ metric.
            bind-Keeps _ _ (gets-Keeps (λ d. aodv_db_get_hopcount d.db msg.l25_dhost)) (λ hops.
              send-Keeps (
                mesh (some iface.self)
                  (_create_rrep msg.l25_dhost msg.l25_shost msg.l2_shost own.1 hops.1 metric.1)))))
          (λ e.
            if-Keeps (is_gossip_none cfg.gossip_type && msg.ttl == 0) _ _ (λ e1. pure-Keeps tt)
              (λ e1.
                bind-Keeps _ _
                  (if-Keeps (is_gossip_none cfg.gossip_type) _ _ (λ e2. pure-Keeps true)
                    (λ e2. gossip_step-WellFormed cfg o msg ext))
                  (λ relay.
                    if-Keeps relay _ _ (λ e2. send-Keeps (mesh none msg)) (λ e2. pure-Keeps tt)))))

module _ (D : Dessert) where
  process_rreq-WellFormed :
      (cfg : Settings) (o : Oracle) (msg : Msg) (ext : RreqExt) (result : CaptRreqResult)
      (rx : RxFlags) (iface : MeshIface) (ts : Timeval)
      → ext.destination_sequence_number < 2 ^ 32
      → Keeps WellFormed (process_rreq D cfg o msg ext result rx iface ts)
  unfolding process_rreq
  process_rreq-WellFormed cfg o msg ext result rx iface ts small =
      bind-Keeps _ _
        (capt_rrep-WellFormed D cfg.signal_strength_threshold o msg.l25_shost msg.l2_shost
          iface.self 0 msg.u16 msg.u8 ts)
        (λ updated.
          bind-Keeps _ _
            (if-Keeps updated _ _
              (λ e. send_packets-WellFormed msg.l25_shost msg.l2_shost iface.self)
              (λ e. pure-Keeps tt))
            (λ u.
              bind-Keeps _ _
                (if-Keeps rx.l25_dst _ _
                  (λ e. answer_rreq-WellFormed cfg msg ext result iface small)
                  (λ e. relay_rreq-WellFormed cfg o msg ext iface))
                (λ u1. pure-Keeps drop)))

  take_rreq-WellFormed :
      (cfg : Settings) (o : Oracle) (msg : Msg) (ext : RreqExt) (result : CaptRreqResult)
      (rx : RxFlags) (iface : MeshIface) (ts : Timeval)
      → ext.destination_sequence_number < 2 ^ 32
      → Keeps WellFormed {A = Verdict} (elim result [
        | old ↦ pure drop
        | new ↦ process_rreq D cfg o msg ext new rx iface ts
        | metric_hit ↦ process_rreq D cfg o msg ext metric_hit rx iface ts
      ])
  take_rreq-WellFormed cfg o msg ext old rx iface ts small = pure-Keeps drop
  take_rreq-WellFormed cfg o msg ext new rx iface ts small =
      process_rreq-WellFormed cfg o msg ext new rx iface ts small
  take_rreq-WellFormed cfg o msg ext metric_hit rx iface ts small =
      process_rreq-WellFormed cfg o msg ext metric_hit rx iface ts small

  pub handle_rreq-WellFormed :
      (cfg : Settings) (o : Oracle) (msg : Msg) (rx : RxFlags) (iface : MeshIface)
      → HasWidth msg
      → Keeps WellFormed (aodv_handle_rreq D cfg o msg rx iface)
  unfolding aodv_handle_rreq
  handle_rreq-WellFormed cfg o msg rx iface width =
      option-Keeps msg.rreq _ _ (λ e. pure-Keeps keep)
        (λ ext is_rreq. bind-Keeps _ _ (measure-WellFormed D cfg o (age msg) (o.now 0)) (λ aged.
          bind-Keeps _ _
            (capt_rreq-WellFormed D cfg.metric_type (after 1 o) aged.l25_dhost aged.l25_shost
              aged.l2_shost iface.self ext.originator_sequence_number aged.u16 aged.u8 (o.now 0))
            (λ result.
              bind-Keeps _ _
                (modify-Keeps
                  (λ d. record d { gossip = aodv_gossip_capt_rreq d.gossip (to_rreq aged ext) })
                  (λ d w. with_gossip d _ (capt_rreq-empty d.gossip (to_rreq aged ext) w.unheld) w))
                (λ u.
                  take_rreq-WellFormed cfg (after 3 o) aged ext
                    (elim result [ none ↦ o.uninitialised | some r ↦ r ]) rx iface (o.now 0)
                    (width ext is_rreq)))))
