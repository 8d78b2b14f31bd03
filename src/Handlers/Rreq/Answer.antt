-- ===== src/Handlers/Rreq/Answer.antt =====
-- The answers to RREQs in src/pipeline/aodv_pipeline.c.
use des_aodv.Common.{
  ℕ, ◌≡◌, refl, inl, inr, ◌+◌, ◌%◌, ◌^◌, Bool, true, false, some, [], ◌∷◌, ◌++◌, Bool-cases, arith,
  if◌then◌else◌, is_pos,
}
use des_aodv.Helper.{hf_comp_u32}
use des_aodv.Helper.Serial.{comp-zero}
use des_aodv.RoutingTable.{CaptRreqResult, metric_hit}
use des_aodv.PdrTracker.{done}
use des_aodv.Message.{Msg, RreqExt, Output, mesh, Settings, Oracle, MeshIface, RxFlags, drop}
use des_aodv.Database.{Db}
use des_aodv.Database.Routes.{aodv_db_capt_rrep}
use des_aodv.Dessert.{Dessert, Timeval}
use des_aodv.PacketBuffer.{waiting}
use des_aodv.Forward.Buffer.{BufferIsApart, numbered, send_packets_all}
use des_aodv.Daemon.{Daemon}
use des_aodv.Handlers.{_create_rrep}
use des_aodv.Handlers.Rreq.{reply_seq_num, answer_rreq, process_rreq}

-- Our answer: the number that the RREQ asks for, if it asks for one, is not ahead of that of the answer.
abbrev pub IsAnswer : Settings → Msg → RreqExt → ℕ → Output → Type 0
IsAnswer cfg msg ext iface out =
    (n : ℕ) × (out
      ≡ mesh (some iface)
          (_create_rrep cfg.l25_defsrc msg.l25_shost msg.l2_shost n 0 cfg.metric_startvalue))
    × (ext.unknown_seq_num ≡ false → is_pos (hf_comp_u32 ext.destination_sequence_number n) ≡ false)

not_ahead_of :
    (result : CaptRreqResult) (ext : RreqExt) (own : ℕ)
    → ext.unknown_seq_num ≡ false
    → is_pos (hf_comp_u32 ext.destination_sequence_number (reply_seq_num result ext own)) ≡ false
unfolding reply_seq_num
not_ahead_of result ext own known =
    let counted : ℕ = elim result [ metric_hit ↦ (own + 1) % 2 ^ 32 | _ ↦ own ] in
    elim (Bool-cases (is_pos (hf_comp_u32 ext.destination_sequence_number counted))) [
      | inl ahead ↦ ground (
        arith,
        known,
        ahead,
        comp-zero ext.destination_sequence_number ext.destination_sequence_number,
      )
      | inr not_ahead ↦ ground (arith, known, not_ahead)
    ]

answer_rreq_lem :
    (cfg : Settings) (msg : Msg) (ext : RreqExt) (result : CaptRreqResult) (iface : MeshIface)
    (d : Daemon)
    → (d' : Daemon) × (out : Output) × (answer_rreq cfg msg ext result iface d
        ≡ done (d', out ∷ [], tt))
      × IsAnswer cfg msg ext iface.self out
unfolding answer_rreq
answer_rreq_lem cfg msg ext result iface d =
    let n = reply_seq_num result ext d.seq_num_global in
    (
      record d { seq_num_global = n },
      mesh (some iface.self)
          (_create_rrep cfg.l25_defsrc msg.l25_shost msg.l2_shost n 0 cfg.metric_startvalue),
      refl,
      (n, refl, not_ahead_of result ext d.seq_num_global),
    )

module _ (D : Dessert) (cfg : Settings) (o : Oracle) (msg : Msg) (ext : RreqExt)
    (result : CaptRreqResult) (rx : RxFlags) (iface : MeshIface) (ts : Timeval) where
  -- the capture of the RREQ as a RREP, which may change the route to its originator
  abbrev pub reverse_route : Daemon → Db × Bool
  reverse_route d =
      aodv_db_capt_rrep D d.db cfg.signal_strength_threshold o msg.l25_shost msg.l2_shost iface.self
        0 msg.u16 msg.u8 ts

  -- A new RREQ for this host, if no host is twice in the packet buffer: if it changes the
  -- route to its originator, the packets that wait for the originator go to the host that the
  -- RREQ came from, in their order and with consecutive numbers. Then a RREP goes there, and
  -- nothing else is sent; the sequence number that the RREQ asks for, if it asks for one, does
  -- not compare as ahead of that of the RREP.
  pub process_rreq_for_us :
      (d : Daemon)
      → rx.l25_dst ≡ true
      → BufferIsApart d
      → (d' : Daemon) × (out : Output) × (process_rreq D cfg o msg ext result rx iface ts d
          ≡ done (
            d',
            (if (reverse_route d).1
                  then numbered msg.l25_shost msg.l2_shost iface.self d.data_seq_global
                      (waiting Msg d.db.pb msg.l25_shost)
                  else [])
                ++ (out ∷ []),
            drop,
          ))
        × IsAnswer cfg msg ext iface.self out
  unfolding process_rreq aodv_db_capt_rrep
  process_rreq_for_us d for_us apart =
      let d1 : Daemon = record d { db = (reverse_route d).0 } in
      let (d2, emptied, counted, empty, others) =
        send_packets_all msg.l25_shost msg.l2_shost iface.self d1 apart in
      elim (Bool-cases (reverse_route d).1) [
        | inl updated ↦
            let (d3, out, answered, good) = answer_rreq_lem cfg msg ext result iface d2 in
            (d3, out, ground (arith, for_us, updated, emptied, answered), good)
        | inr same ↦
            let (d3, out, answered, good) = answer_rreq_lem cfg msg ext result iface d1 in
            (d3, out, ground (arith, for_us, same, answered), good)
      ]
