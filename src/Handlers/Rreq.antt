-- ===== src/Handlers/Rreq.antt =====
-- src/pipeline/aodv_pipeline.c, `aodv_handle_rreq`.
pub mod Answer
use des_aodv.Common.{
  ℕ, ◌+◌, ◌%◌, ◌^◌, Bool, true, false, not, ◌&&◌, ◌||◌, Option, none, some, ◌==◌, if◌then◌else◌,
  is_pos,
}
use des_aodv.Dessert.{Dessert, Timeval}
use des_aodv.Helper.{hf_comp_u32}
use des_aodv.RoutingTable.{CaptRreqResult, old, new, metric_hit}
use des_aodv.Gossip.{
  Gossip, Rreq, GossipType, gossip_none, gossip_0, gossip_1, gossip_3, aodv_gossip,
  aodv_gossip_capt_rreq,
}
use des_aodv.Database.{Db}
use des_aodv.Database.Routes.{
  aodv_db_capt_rreq, aodv_db_capt_rrep, aodv_db_get_destination_sequence_number, aodv_db_get_metric,
  aodv_db_get_hopcount,
}
use des_aodv.Message.{
  Msg, RreqExt, RxFlags, Verdict, keep, drop, Output, mesh, MeshIface, Settings, Oracle, after,
}
use des_aodv.Daemon
use des_aodv.Daemon.{Daemon, Step, pure, gets, crash, on_db, send, ◌>>=◌, ◌>>◌}
use des_aodv.Forward.{aodv_send_packets_from_buffer}
use des_aodv.Handlers.{_create_rrep, age, measure}

-- What the gossip functions read of a message.
abbrev pub to_rreq : Msg → RreqExt → Rreq
to_rreq msg ext = record {
  ether_shost = msg.l25_shost;
  ether_dhost = msg.l25_dhost;
  hop_count = msg.u8;
  originator_sequence_number = ext.originator_sequence_number;
}

-- Our sequence number after a RREQ for us: one more on a metric hit, and at least that of the RREQ.
unfoldable pub reply_seq_num : CaptRreqResult → RreqExt → ℕ → ℕ
reply_seq_num result ext own =
    let counted : ℕ = elim result [ metric_hit ↦ (own + 1) % 2 ^ 32 | _ ↦ own ] in
    if not ext.unknown_seq_num && is_pos (hf_comp_u32 ext.destination_sequence_number counted)
    then ext.destination_sequence_number
    else counted

-- Whether a RREQ for another host is answered here: with a known sequence number that is not older.
unfoldable pub can_repair : RreqExt → Bool → ℕ → Bool
can_repair ext known own =
    if known && not ext.unknown_seq_num && is_pos (hf_comp_u32 ext.destination_sequence_number own)
    then false
    else not ext.dest_only && known

abbrev pub is_gossip_none : GossipType → Bool
is_gossip_none gossip_none = true
is_gossip_none _ = false

unfoldable pub answer_rreq : Settings → Msg → RreqExt → CaptRreqResult → MeshIface → Step (Unit {0})
answer_rreq cfg msg ext result iface = do
  seq ← gets (λ d. reply_seq_num result ext d.seq_num_global)
  Daemon.modify (λ d. record d { seq_num_global = seq })
  send (
      mesh (some iface.self)
        (_create_rrep cfg.l25_defsrc msg.l25_shost msg.l2_shost seq 0 cfg.metric_startvalue))

-- `aodv_gossip` where it is called
unfoldable pub gossip_step : Settings → Oracle → Msg → RreqExt → Step Bool
gossip_step cfg o msg ext d =
    elim (aodv_gossip d.gossip cfg.gossip_type o.lucky (to_rreq msg ext)) [
      | none ↦ crash d
      | some (g, relay) ↦ pure relay (record d { gossip = g })
    ]

unfoldable pub relay_rreq : Settings → Oracle → Msg → RreqExt → MeshIface → Step (Unit {0})
relay_rreq cfg o msg ext iface = do
  (known, own) ← gets (λ d. aodv_db_get_destination_sequence_number d.db msg.l25_dhost)
  if can_repair ext known own
      then (do
        (_, metric) ← gets (λ d. aodv_db_get_metric d.db msg.l25_dhost)
        (_, hops) ← gets (λ d. aodv_db_get_hopcount d.db msg.l25_dhost)
        send (
            mesh (some iface.self)
              (_create_rrep msg.l25_dhost msg.l25_shost msg.l2_shost own hops metric)))
      else if is_gossip_none cfg.gossip_type && msg.ttl == 0
      then pure tt
      else (do
        relay ← (if is_gossip_none cfg.gossip_type then pure true else gossip_step cfg o msg ext)
        if relay then send (mesh none msg) else pure tt)

module _ (D : Dessert) where
  -- The rest of the handler where the captured RREQ is not old.
  unfoldable pub process_rreq :
      Settings
      → Oracle
      → Msg
      → RreqExt
      → CaptRreqResult
      → RxFlags
      → MeshIface
      → Timeval
      → Step Verdict
  process_rreq cfg o msg ext result rx iface ts = do
    updated ← on_db (λ db.
        aodv_db_capt_rrep D db cfg.signal_strength_threshold o msg.l25_shost msg.l2_shost iface.self
          0 msg.u16 msg.u8 ts)
    if updated then aodv_send_packets_from_buffer msg.l25_shost msg.l2_shost iface.self else pure tt
    if rx.l25_dst then answer_rreq cfg msg ext result iface else relay_rreq cfg o msg ext iface
    pure drop

  -- `aodv_db_capt_rreq` may fail; the variable for its result is then not initialised.
  unfoldable pub aodv_handle_rreq : Settings → Oracle → Msg → RxFlags → MeshIface → Step Verdict
  aodv_handle_rreq cfg o msg rx iface = elim msg.rreq [
    | none ↦ pure keep
    | some ext ↦ do
      let ts = o.now 0
      aged ← measure D cfg o (age msg) ts
      result ← on_db (λ db.
          aodv_db_capt_rreq D db cfg.metric_type (after 1 o) aged.l25_dhost aged.l25_shost
            aged.l2_shost iface.self ext.originator_sequence_number aged.u16 aged.u8 ts)
      Daemon.modify (λ d. record d { gossip = aodv_gossip_capt_rreq d.gossip (to_rreq aged ext) })
      let capt_result : CaptRreqResult = elim result [ none ↦ o.uninitialised | some r ↦ r ]
      elim capt_result [
        | old ↦ pure drop
        | new ↦ process_rreq cfg (after 3 o) aged ext new rx iface ts
        | metric_hit ↦ process_rreq cfg (after 3 o) aged ext metric_hit rx iface ts
      ]
  ]
