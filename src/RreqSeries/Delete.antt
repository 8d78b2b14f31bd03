-- ===== src/RreqSeries/Delete.antt =====
-- The deletion of a series in src/pipeline/aodv_pipeline.c.
use des_aodv.Common.{
  ℕ, ◌≡◌, refl, ap, if◌then◌else◌, inl, inr, Bool, true, false, [], List, Option-cases, Bool-cases,
}
use des_aodv.Table.{modify, at_address}
use des_aodv.PdrTracker.{Outcome, done}
use des_aodv.Message.{Output}
use des_aodv.Config.{sc_repeat_rreq}
use des_aodv.Database.{aodv_db_dropschedule}
use des_aodv.Daemon.{Series, Daemon, pure}
use des_aodv.Daemon.Runs.{then_sent}
use des_aodv.RreqSeries.{
  free_series, address, aodv_pipeline_find_series_unlocked, aodv_pipeline_delete_series_unlocked,
  aodv_pipeline_delete_series_ether,
}

-- The run sends nothing, and changes neither the packet buffer nor the data sequence number.
abbrev pub KeepsPackets : Daemon → Outcome (Daemon × List Output × Unit {0}) → Type 0
KeepsPackets d r =
    (d' : Daemon) × (r ≡ done (d', [], tt))
    × (d'.db.pb ≡ d.db.pb)
    × (d'.data_seq_global ≡ d.data_seq_global)

free_series-KeepsPackets :
    (b : Bool) (a : ℕ) (d : Daemon) → KeepsPackets d ((if b then free_series a else pure tt) d)
free_series-KeepsPackets true a d = (_, refl, refl, refl)
free_series-KeepsPackets false a d = (d, refl, refl, refl)

delete_series-KeepsPackets :
    (s : Series) (d : Daemon) → KeepsPackets d (aodv_pipeline_delete_series_unlocked s d)
unfolding aodv_pipeline_delete_series_unlocked aodv_db_dropschedule
delete_series-KeepsPackets s d =
    let stopped : Daemon = record d {
      series = modify (at_address address s.self) (λ x. record x { stop = true }) d.series;
    } in
    let (db, dropped) = aodv_db_dropschedule d.db s.msg.l25_dhost sc_repeat_rreq in
    let (d', ran, same, seq) =
      free_series-KeepsPackets dropped s.self (record stopped { db = db }) in
    elim (Bool-cases s.stop) [
      | inl before ↦ (d, rw before refl, refl, refl)
      | inr live ↦ rw live (d', ap (λ r. then_sent [] (then_sent [] r)) ran, same, seq)
    ]

pub delete_series_ether-KeepsPackets :
    (addr : ℕ) (d : Daemon) → KeepsPackets d (aodv_pipeline_delete_series_ether addr d)
unfolding aodv_pipeline_delete_series_ether
delete_series_ether-KeepsPackets addr d =
    elim (Option-cases (aodv_pipeline_find_series_unlocked d.series addr)) [
      | inl absent ↦ (d, rw absent refl, refl, refl)
      | inr (s, here) ↦ rw here (
          let (d', ran, same, seq) = delete_series-KeepsPackets s d in
          (d', ap (λ r. then_sent [] r) ran, same, seq))
    ]
