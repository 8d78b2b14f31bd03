-- ===== src/Forward/Once.antt =====
-- No data packet is handled twice, in src/pipeline/aodv_forward.c.
use des_aodv.Common.{
  ℕ, ◌≡◌, ◌<◌, refl, inl, inr, ◌+◌, ◌%◌, ◌^◌, Bool, true, false, not, ◌&&◌, Option, none, List, [],
  ◌∷◌, ◌==◌, Bool-cases, arith, if◌then◌else◌,
}
use des_aodv.Dessert.{Dessert, Timeval, Ordered}
use des_aodv.PdrTracker.{Outcome, done}
use des_aodv.DataSeq.{DataSeq, aodv_db_ds_capt_data_seq}
use des_aodv.DataSeq.Safety.{IsSafe, Fresh, capt_data_seq_twice}
use des_aodv.Database.{aodv_db_capt_data_seq}
use des_aodv.Message.{Msg, RxFlags, Verdict, keep, drop, Output, mesh, sys, Settings, Oracle, after}
use des_aodv.Daemon.{Daemon}
use des_aodv.Forward.{take_packet, aodv_forward_broadcast, aodv_forward, aodv_local_unicast}

module _ (D : Dessert) where
  -- The number of a packet of this host is captured, and will be taken for old.
  abbrev pub IsKnown : ℕ → ℕ → DataSeq → Type 0
  IsKnown src seq ds =
      (hops : ℕ) (t : Timeval) (malloc : Option ℕ) (memory : Bool) (now : Timeval)
      → aodv_db_ds_capt_data_seq D ds src seq hops t malloc memory now ≡ (ds, false)

  -- what the handlers do with a packet that they drop
  abbrev pub unsent : Bool → Daemon → Outcome (Daemon × List Output × Verdict)
  unsent b d = done (d, [], (if b then drop else keep))

  take_packet_known :
      (o : Oracle) (msg : Msg) (t : Timeval) (d : Daemon)
      → IsKnown msg.l25_shost msg.u16 d.db.ds
      → take_packet D o msg t d ≡ done (d, [], none)
  unfolding take_packet aodv_db_capt_data_seq
  take_packet_known o msg t d known = elim (Bool-cases (msg.ttl == 0)) [
    | inl expired ↦ rw expired refl
    | inr alive ↦ rw (alive, known ((msg.u8 + 1) % 256) t (o.malloc 0) (o.memory 0) (o.now 0)) refl
  ]

  take_packet_expired :
      (o : Oracle) (msg : Msg) (t : Timeval) (d : Daemon)
      → msg.ttl ≡ 0
      → take_packet D o msg t d ≡ done (d, [], none)
  unfolding take_packet
  take_packet_expired o msg t d expired =
      let zero_ttl : (msg.ttl == 0) ≡ true = ground (arith, expired) in rw zero_ttl refl

  -- The three handlers of data packets drop a packet that the first step does not take.
  abbrev pub Drops : Settings → Msg → Daemon → Type 0
  Drops cfg msg d =
      (o : Oracle) (rx : RxFlags)
      → (aodv_forward_broadcast D o msg rx d ≡ unsent rx.l25_broadcast d)
        × (aodv_forward D cfg o msg rx d ≡ unsent (rx.l2_dst && not rx.l25_dst) d)
        × (aodv_local_unicast D o msg rx d ≡ unsent true d)

  take_packet-Drops :
      (cfg : Settings) (msg : Msg) (d : Daemon)
      → ((o : Oracle) (t : Timeval) → take_packet D o msg t d ≡ done (d, [], none))
      → Drops cfg msg d
  unfolding aodv_forward_broadcast aodv_forward aodv_local_unicast
  take_packet-Drops cfg msg d not_taken o rx = (
    elim (Bool-cases rx.l25_broadcast) [
      | inl tagged ↦ ground (arith, tagged, not_taken (after 1 o) (o.now 0))
      | inr untagged ↦ ground (arith, untagged)
    ],
    elim (Bool-cases rx.l2_dst) [
      | inl here ↦ elim (Bool-cases rx.l25_dst) [
        | inl last ↦ ground (arith, here, last)
        | inr further ↦ ground (arith, here, further, not_taken (after 1 o) (o.now 0))
      ]
      | inr elsewhere ↦ ground (arith, elsewhere)
    ],
    elim (Bool-cases rx.l25_dst) [
      | inl last ↦ ground (arith, last, not_taken (after 1 o) (o.now 0))
      | inr further ↦ ground (arith, further)
    ],
  )

  -- A packet with a TTL of 0 is sent nowhere by any of the three handlers of data packets, whatever
  -- its flags, and changes nothing.
  pub forward_expired : (cfg : Settings) (msg : Msg) (d : Daemon) → msg.ttl ≡ 0 → Drops cfg msg d
  forward_expired cfg msg d expired =
      take_packet-Drops cfg msg d (λ o t. take_packet_expired o msg t d expired)

  pub forward_known :
      (cfg : Settings) (msg : Msg) (d : Daemon)
      → IsKnown msg.l25_shost msg.u16 d.db.ds
      → Drops cfg msg d
  forward_known cfg msg d known =
      take_packet-Drops cfg msg d (λ o t. take_packet_known o msg t d known)

-- what goes out of a broadcast that is new
abbrev pub copies : Msg → List Output
copies msg =
    let msg' = record msg { ttl = (msg.ttl + 255) % 256; u8 = (msg.u8 + 1) % 256 } in
    mesh none msg' ∷ sys msg' ∷ []

module _ {D : Dessert} (O : Ordered D) where
  open O use {instant}

  -- If the table of data packets is safe and has room, `malloc` gives an unused address and
  -- the clock has not passed the time at which a new entry runs out, then a broadcast with a
  -- TTL above 0 is dropped after this: if its number is new it goes over all interfaces and to
  -- this host, with a TTL of one less and a hop count of one more, and otherwise nowhere. If
  -- it was new, then in the state that this leaves none of the three handlers of data packets
  -- sends a packet of the same host with the same number, or changes the state, at whatever
  -- time it is run.
  pub broadcast_once :
      (cfg : Settings) (o : Oracle) (msg : Msg) (rx : RxFlags) (d : Daemon)
      → IsSafe O d.db.ds
      → d.db.ds.ts.size + 1 < 2 ^ 32
      → Fresh O (o.malloc 1) d.db.ds.entries
      → instant (o.now 1) < instant (D.timevaladd2 d.db.ds.ts.purge_timeout (o.now 0))
      → rx.l25_broadcast ≡ true
      → 0 < msg.ttl
      → let fresh =
          (aodv_db_capt_data_seq D d.db
            (after 1 o)
            msg.l25_shost
            msg.u16
            ((msg.u8 + 1) % 256)
            (o.now 0)).1 in
        (d1 : Daemon) × (aodv_forward_broadcast D o msg rx d
          ≡ done (d1, (if fresh then copies msg else []), drop))
        × (fresh ≡ true
            → (again : Msg) → again.l25_shost ≡ msg.l25_shost
            → again.u16 ≡ msg.u16
            → Drops D cfg again d1)
  unfolding aodv_forward_broadcast take_packet aodv_db_capt_data_seq
  broadcast_once cfg o msg rx d safe room unused early tagged alive =
      let captured =
        aodv_db_capt_data_seq D d.db (after 1 o) msg.l25_shost msg.u16 ((msg.u8 + 1) % 256)
          (o.now 0) in
      let not_expired : (msg.ttl == 0) ≡ false = ground (arith, alive) in
      (
        record d { db = captured.0 },
        elim (Bool-cases captured.1) [
          | inl new ↦ ground (arith, tagged, not_expired, new)
          | inr seen ↦ ground (arith, tagged, not_expired, seen)
        ],
        λ new again same_host same_number.
            forward_known D cfg again (record d { db = captured.0 })
              (λ hops t malloc memory now.
                rw (same_host, same_number)
                  (capt_data_seq_twice O d.db.ds msg.l25_shost msg.u16 ((msg.u8 + 1) % 256)
                    (o.now 0) (o.malloc 1) (o.memory 1) (o.now 1) hops t malloc memory now safe room
                    unused early new)),
      )
