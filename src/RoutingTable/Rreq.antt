-- ===== src/RoutingTable/Rreq.antt =====
-- What a captured RREQ does to the routes of src/database/routing_table/aodv_rt.c.
use des_aodv.Common.{
  ℕ, ◌≡◌, refl, Bool, false, not, ◌&&◌, ◌||◌, Option, some, ◌==◌, if◌then◌else◌, is_neg, is_pos,
  Option-cases, Bool-cases, inl, inr, arith,
}
use des_aodv.Dessert.{Dessert, Timeval, Ordered}
use des_aodv.Helper.{MetricType, hf_comp_u32, hf_comp_metric}
use des_aodv.Helper.Serial.{comp_sign}
use des_aodv.Table.{find, modify, find-modify_self}
use des_aodv.RoutingTable.{
  RtEntry, RoutingTable, Supply, CaptRreqResult, old, new, metric_hit, to_host, find_or_create,
  capt_originator, aodv_db_rt_capt_rreq,
}
use des_aodv.RoutingTable.Capture.{IsSafe, Sound, find_or_create_lem, modified-IsSafe}

module _ {D : Dessert} (O : Ordered D) where
  -- A captured RREQ counts if its sequence number is ahead of the known one, or is the same with a
  -- better metric.
  abbrev pub is_ahead : RtEntry → ℕ → Bool
  is_ahead e seq = is_neg (hf_comp_u32 e.sequence_number seq)

  abbrev pub same_seq : RtEntry → ℕ → Bool
  same_seq e seq = e.sequence_number == seq

  -- what is stored for the originator
  abbrev pub updated : RtEntry → ℕ → ℕ → ℕ → ℕ → ℕ → RtEntry
  updated e prev_hop iface seq metric hops = record e {
    next_hop = prev_hop;
    output_iface = iface;
    sequence_number = seq;
    metric = metric;
    hop_count = hops;
    flags = record (e.flags) { route_new = false };
  }

  -- The result and the entry of the originator after a captured RREQ.
  pub capt_originator_lem :
      (m : MetricType) (rt : RoutingTable) (o : RtEntry)
      (originator prev_hop iface seq metric hops : ℕ)
      → find (to_host originator) rt.routes.entries ≡ some o
      → let better = same_seq o seq && is_neg (hf_comp_metric m o.metric metric) in
        let (rt', result) = capt_originator D m rt o originator prev_hop iface seq metric hops in
        (result ≡ (if better then metric_hit else if is_ahead o seq then new else old))
        × (find (to_host originator) rt'.routes.entries
            ≡ some
                (if is_ahead o seq || better then updated o prev_hop iface seq metric hops else o))
  unfolding capt_originator
  capt_originator_lem m rt o originator prev_hop iface seq metric hops found =
      let update = λ (e : RtEntry). updated e prev_hop iface seq metric hops in
      ground (
        arith,
        found,
        comp_sign o.sequence_number seq,
        find-modify_self (to_host originator) update rt.routes.entries o (λ e. refl) found,
      )

  capt_originator-IsSafe :
      (m : MetricType) (rt : RoutingTable) (o : RtEntry)
      (originator prev_hop iface seq metric hops : ℕ)
      → IsSafe O rt
      → IsSafe O (capt_originator D m rt o originator prev_hop iface seq metric hops).0
  unfolding capt_originator
  capt_originator-IsSafe m rt o originator prev_hop iface seq metric hops s =
      let stored =
        modified-IsSafe O rt (to_host originator) (λ e. updated e prev_hop iface seq metric hops)
          (record (rt.routes) {
            entries =
                modify (to_host originator) (λ e. updated e prev_hop iface seq metric hops)
                  rt.routes.entries;
          })
          refl (λ e. refl) s in
      elim (Bool-cases (
        is_neg (hf_comp_u32 o.sequence_number seq)
        || (not (is_neg (hf_comp_u32 o.sequence_number seq))
            && not (is_pos (hf_comp_u32 o.sequence_number seq)))
          && is_neg (hf_comp_metric m o.metric metric))) [
            | inl better ↦ rw better stored
            | inr worse ↦ rw worse s
          ]

  module _ (m : MetricType) (rt : RoutingTable)
      (destination originator prev_hop iface seq metric hops : ℕ) (timestamp : Timeval)
      (dest_supply orig_supply : Supply) where
    abbrev pub with_dest : RoutingTable
    with_dest = (find_or_create D rt destination timestamp dest_supply).0

    abbrev pub captured : RoutingTable × Option CaptRreqResult
    captured =
        aodv_db_rt_capt_rreq D m rt destination originator prev_hop iface seq metric hops timestamp
          dest_supply orig_supply

    -- If `malloc` gives unused addresses and the clock has not passed the time at which the
    -- new entries run out, capturing a RREQ keeps the table safe: each object in the timeslot
    -- is the address of an entry, no two entries share an address, and the timeslot is valid.
    pub capt_rreq-IsSafe :
        IsSafe O rt
        → Sound O rt timestamp dest_supply
        → Sound O with_dest timestamp orig_supply
        → IsSafe O captured.0
    unfolding aodv_db_rt_capt_rreq
    capt_rreq-IsSafe s ok1 ok2 =
        let first = find_or_create_lem O rt destination timestamp dest_supply s ok1 in
        let second = find_or_create_lem O with_dest originator timestamp orig_supply first.0 ok2 in
        elim (Option-cases (find_or_create D rt destination timestamp dest_supply).1) [
          | inl null ↦ rw (null, aodv_db_rt_capt_rreq) first.0
          | inr (d, dest) ↦
              rw (dest, aodv_db_rt_capt_rreq)
                (elim (Option-cases
                  (find_or_create D with_dest originator timestamp orig_supply).1) [
                    | inl null ↦ rw (null, aodv_db_rt_capt_rreq) second.0
                    | inr (o, orig) ↦
                        rw (orig, aodv_db_rt_capt_rreq)
                          (capt_originator-IsSafe m _ o originator prev_hop iface seq metric hops
                            second.0)
                  ])
        ]

    -- If the table is safe, `malloc` gives unused addresses, the clock has not passed the time
    -- at which the new entries run out, and capturing a RREQ gives a result, then there is an
    -- entry of the originator, and the result is metric_hit if the RREQ has the same sequence
    -- number and a better metric, new if it is ahead, and old otherwise; the entry is updated
    -- in the first two cases and kept in the third.
    pub capt_rreq_result :
        (result : CaptRreqResult)
        → IsSafe O rt
        → Sound O rt timestamp dest_supply
        → Sound O with_dest timestamp orig_supply
        → captured.1 ≡ some result
        → (o : RtEntry) × ((find_or_create D with_dest originator timestamp orig_supply).1 ≡ some o)
          × (let better = same_seq o seq && is_neg (hf_comp_metric m o.metric metric) in
              (result ≡ (if better then metric_hit else if is_ahead o seq then new else old))
              × (find (to_host originator) captured.0.routes.entries
                  ≡ some (
                      if is_ahead o seq || better
                      then updated o prev_hop iface seq metric hops
                      else o)))
    unfolding aodv_db_rt_capt_rreq
    capt_rreq_result result s ok1 ok2 =
        let first = find_or_create_lem O rt destination timestamp dest_supply s ok1 in
        let second = find_or_create_lem O with_dest originator timestamp orig_supply first.0 ok2 in
        elim (Option-cases (find_or_create D rt destination timestamp dest_supply).1) [
          | inl null ↦ rw (null, aodv_db_rt_capt_rreq) (λ h. cc)
          | inr (d, dest) ↦
              rw (dest, aodv_db_rt_capt_rreq)
                (elim (Option-cases
                  (find_or_create D with_dest originator timestamp orig_supply).1) [
                    | inl null ↦ rw (null, aodv_db_rt_capt_rreq) (λ h. cc)
                    | inr (o, orig) ↦
                        rw (orig, aodv_db_rt_capt_rreq)
                          (λ h.
                            let done =
                              capt_originator_lem m _ o originator prev_hop iface seq metric hops
                                (second.1 o orig) in
                            (o, refl, (ground (arith, done.0, h), done.1)))
                  ])
        ]
