-- ===== src/Forward/Buffer.antt =====
-- The packets that leave the packet buffer in src/pipeline/aodv_forward.c.
use des_aodv.Common.{
  ℕ, ◌≡◌, ◌<◌, ◌≢◌, zero, suc, refl, ◌∙◌, ap, ◌+◌, ◌%◌, ◌^◌, some, List, [], ◌∷◌, length, arith,
}
use des_aodv.Table.{Apart}
use des_aodv.PdrTracker.{Outcome, done}
use des_aodv.PacketBuffer.{PbEl, waiting}
use des_aodv.PacketBuffer.Fifo.{pop_packet_refines, pop_packet-Apart}
use des_aodv.Message.{Msg, Output, mesh}
use des_aodv.Database.{aodv_db_pop_packet}
use des_aodv.Daemon.{Daemon, gets, ◌>>=◌}
use des_aodv.Daemon.Runs.{then_sent, run_then}
use des_aodv.RreqSeries.{aodv_pipeline_delete_series_ether}
use des_aodv.RreqSeries.Delete.{delete_series_ether-KeepsPackets}
use des_aodv.Forward.{send_loop, aodv_send_packets_from_buffer}

-- No host is twice in the packet buffer.
abbrev pub BufferIsApart : Daemon → Type 0
BufferIsApart d = Apart (λ (e : PbEl Msg). e.dhost_ether) d.db.pb.entries

-- the data sequence number after so many packets
abbrev pub counted_on : ℕ → List Msg → ℕ
counted_on seq [] = seq
counted_on seq (m ∷ ms) = counted_on ((seq + 1) % 2 ^ 16) ms

module _ (dhost next_hop iface : ℕ) where
  -- packets that are sent to the next hop with the numbers after `seq`
  abbrev pub numbered : ℕ → List Msg → List Output
  numbered seq [] = []
  numbered seq (m ∷ ms) =
      let number = (seq + 1) % 2 ^ 16 in
      mesh (some iface) (record m { u16 = number; l2_dhost = next_hop }) ∷ numbered number ms

  -- The run sends these packets, leaves none of them, and those for other hosts as they were.
  abbrev pub Empties : Daemon → List Msg → Outcome (Daemon × List Output × Unit {0}) → Type 0
  Empties d ms r =
      (d' : Daemon) × (r ≡ done (d', numbered d.data_seq_global ms, tt))
      × (d'.data_seq_global ≡ counted_on d.data_seq_global ms)
      × (waiting Msg d'.db.pb dhost ≡ [])
      × ((other : ℕ) → other ≢ dhost → waiting Msg d'.db.pb other ≡ waiting Msg d.db.pb other)

  -- the state without the first packet
  abbrev popped : Daemon → Daemon
  popped d = record d { db = (aodv_db_pop_packet d.db dhost).0 }

  send_loop_all :
      (n : ℕ) (ms : List Msg) (d : Daemon)
      → BufferIsApart d
      → waiting Msg d.db.pb dhost ≡ ms
      → length ms < n
      → Empties d ms (send_loop n dhost next_hop iface d)
  unfolding send_loop aodv_db_pop_packet
  send_loop_all zero ms d apart here rounds = absurd (omega arith)
  send_loop_all (suc n) [] d apart here rounds =
      let own = pop_packet_refines Msg d.db.pb dhost dhost apart in
      (
        popped d,
        rw (own.0, here) refl,
        refl,
        ground (arith, own.1, here),
        λ other apart_hosts. ground (arith, (pop_packet_refines Msg d.db.pb dhost other apart).1),
      )
  send_loop_all (suc n) (m ∷ ms) d apart here rounds =
      let own = pop_packet_refines Msg d.db.pb dhost dhost apart in
      let number = (d.data_seq_global + 1) % 2 ^ 16 in
      let (d', ran, counted, empty, others) =
        send_loop_all n ms (record (popped d) { data_seq_global = number })
          (pop_packet-Apart Msg d.db.pb dhost apart) (ground (arith, own.1, here))
          (omega (arith, rounds)) in
      (
        d',
        rw (own.0, here)
            (ap
              (λ r. then_sent [] (then_sent [] (then_sent (numbered d.data_seq_global (m ∷ [])) r)))
              ran),
        counted,
        empty,
        λ other apart_hosts.
            others other apart_hosts
            ∙ ground (arith, (pop_packet_refines Msg d.db.pb dhost other apart).1),
      )

  -- If no host is twice in the packet buffer, the loop ends, and the packets that waited for
  -- the host go to the next hop in the order in which they came, with consecutive numbers
  -- modulo 2 ^ 16; none of them stays, and the packets for other hosts wait on.
  pub send_packets_all :
      (d : Daemon)
      → BufferIsApart d
      → Empties d (waiting Msg d.db.pb dhost) (aodv_send_packets_from_buffer dhost next_hop iface d)
  unfolding aodv_send_packets_from_buffer
  send_packets_all d apart =
      let (d1, ended, same, seq) = delete_series_ether-KeepsPackets dhost d in
      let ms = waiting Msg d.db.pb dhost in
      let same_ms = ap (λ pb. waiting Msg pb dhost) same in
      let (d', ran, counted, empty, others) =
        send_loop_all (length (waiting Msg d1.db.pb dhost) + 1) ms d1 (rw same apart) same_ms
          (omega (arith, ap (length {A = Msg}) same_ms)) in
      (
        d',
        run_then (aodv_pipeline_delete_series_ether dhost)
              (λ x. gets (λ e. length (waiting Msg e.db.pb dhost) + 1) >>= λ rounds.
                send_loop rounds dhost next_hop iface)
              ended (ap (then_sent []) ran)
            ∙ ap (λ number. done (d', numbered number ms, tt)) seq,
        counted ∙ ap (λ number. counted_on number ms) seq,
        empty,
        λ other apart_hosts. others other apart_hosts ∙ ap (λ pb. waiting Msg pb other) same,
      )
