-- ===== src/RreqSeries/Started.antt =====
-- A search for a host is running after `aodv_send_rreq` of src/pipeline/aodv_pipeline.c.
use des_aodv.Common.{
  ℕ, ◌≡◌, refl, ◌∙◌, ap, inl, inr, ◌+◌, ◌%◌, ◌^◌, true, false, none, some, List, [], ◌∷◌, leb,
  is_some, Bool-cases, Option-cases, arith, if◌then◌else◌,
}
use des_aodv.Config.{rreq_retries, sc_repeat_rreq, ttl_start, ttl_max}
use des_aodv.Dessert.{Dessert}
use des_aodv.Helper.{hf_tv_add_ms}
use des_aodv.Table.{find, modify, add, at_address, is_some-find-modify, find-add}
use des_aodv.PdrTracker.{Outcome, done}
use des_aodv.Database.{aodv_db_getrreqcount, aodv_db_putrreq, aodv_db_addschedule}
use des_aodv.Message.{Msg, RreqExt, mesh, Settings, Oracle, Output, after}
use des_aodv.Daemon.{Series, Daemon, pure}
use des_aodv.Daemon.Runs.{then_sent, run_then}
use des_aodv.RreqSeries.{
  running, address, next_ttl, ring_traversal_time, aodv_pipeline_find_series_unlocked,
  aodv_pipeline_new_series, aodv_pipeline_reschedule_series, wait_for_rrep, _create_rreq,
  aodv_send_rreq_real, aodv_send_rreq,
}
use des_aodv.RreqSeries.Life.{stamped, held}

-- A search for this host is running.
abbrev pub IsRunning : ℕ → Daemon → Type 0
IsRunning host d = is_some (find (running host) d.series) ≡ true

-- The run ends, with a search for this host, and leaves the packets alone.
abbrev pub Searching : ℕ → Daemon → Outcome (Daemon × List Output × Unit {0}) → Type 0
Searching host d r =
    (d' : Daemon) × (outs : List Output) × (r ≡ done (d', outs, tt))
    × IsRunning host d'
    × (d'.db.pb ≡ d.db.pb)

module _ (D : Dessert) (cfg : Settings) where
  real-Searching :
      (o : Oracle) (s : Series) (ext : RreqExt) (d : Daemon) (host : ℕ)
      → s.msg.rreq ≡ some ext
      → s.stop ≡ false
      → leb rreq_retries s.retries ≡ false
      → IsRunning host d
      → Searching host d (aodv_send_rreq_real D cfg o s d)
  unfolding aodv_send_rreq_real wait_for_rrep aodv_pipeline_reschedule_series aodv_db_addschedule
      aodv_db_getrreqcount aodv_db_putrreq
  real-Searching o s ext d host is_rreq live again running_now =
      let sent = stamped s ext ((d.seq_num_global + 1) % 2 ^ 32) in
      let next : Msg = record sent { ttl = next_ttl cfg.ring_search s.msg.ttl } in
      let count = aodv_db_getrreqcount D d.db (o.now 0) in
      elim (Bool-cases (held D cfg o s ext d)) [
        | inl too_many ↦ (
          record d {
            db =
                (aodv_db_addschedule D count.0 (hf_tv_add_ms D (o.now 0) 20) s.msg.l25_dhost
                  sc_repeat_rreq s.self (o.memory 0)).0;
          },
          [],
          ground (arith, too_many, live),
          running_now,
          refl,
        )
        | inr few ↦ (
          record d {
            db =
                (aodv_db_addschedule D (aodv_db_putrreq D count.0 (after 2 o) (o.now 1))
                  (hf_tv_add_ms D (o.now 1) (ring_traversal_time s.msg.ttl)) s.msg.l25_dhost
                  sc_repeat_rreq s.self (o.memory 1)).0;
            seq_num_global = (d.seq_num_global + 1) % 2 ^ 32;
            series =
                modify (at_address address s.self)
                  (λ x. record x { msg = next; retries = s.retries + 1 })
                  (modify (at_address address s.self) (λ x. record x { msg = sent }) d.series);
          },
          mesh none sent ∷ [],
          ground (arith, few, is_rreq, again, live),
          is_some-find-modify (at_address address s.self) (running host)
                (λ x. record x { msg = next; retries = s.retries + 1 }) _ (λ x. refl)
              ∙ is_some-find-modify (at_address address s.self) (running host)
                  (λ x. record x { msg = sent }) d.series (λ x. refl)
              ∙ running_now,
          refl,
        )
      ]

  -- the new series of `aodv_send_rreq`
  abbrev new_search : ℕ → Daemon → ℕ → Series
  new_search host d a = record {
    self = a;
    msg =
        _create_rreq cfg d.db host (if cfg.ring_search then ttl_start else ttl_max)
          cfg.metric_startvalue;
    retries = 0;
    key = host;
    stop = false;
  }

  new_series_run :
      (o : Oracle) (host a : ℕ) (d : Daemon)
      → o.malloc 0 ≡ some a
      → find (running host) d.series ≡ none
      → aodv_pipeline_new_series (o.malloc 0) (new_search host d a).msg d
        ≡ done (
          record d { series = add (new_search host d a) d.series },
          [],
          some (new_search host d a),
        )
  unfolding aodv_pipeline_new_series aodv_pipeline_find_series_unlocked _create_rreq
  new_series_run o host a d memory absent = ground (arith, memory, absent)

  -- With memory for a series, a request for a RREQ ends with a search for the host that is
  -- running, whether one was running before or not, and it leaves the waiting packets alone.
  pub send_rreq-Searching :
      (o : Oracle) (host a : ℕ) (d : Daemon)
      → o.malloc 0 ≡ some a
      → Searching host d (aodv_send_rreq D cfg o host d)
  unfolding aodv_send_rreq aodv_pipeline_new_series aodv_pipeline_find_series_unlocked _create_rreq
  send_rreq-Searching o host a d memory = elim (Option-cases (find (running host) d.series)) [
    | inr (s, here) ↦ (d, [], ground (arith, here), rw here refl, refl)
    | inl absent ↦
        let s = new_search host d a in
        let d1 : Daemon = record d { series = add s d.series } in
        let (d', outs, ran, running_now, same) =
          real-Searching (after 1 o) s _ d1 host refl refl refl
            (ground (arith, find-add (running host) s d.series, absent)) in
        (
          d',
          outs,
          ap (then_sent []) (
              run_then (aodv_pipeline_new_series (o.malloc 0) s.msg)
                (λ series. elim series [
                  | none ↦ pure tt
                  | some x ↦ aodv_send_rreq_real D cfg (after 1 o) x
                ])
                {d = d} (new_series_run o host a d memory absent) ran),
          running_now,
          same,
        )
  ]
