-- ===== src/System/Series.antt =====
-- The series of RREQs of src/pipeline/aodv_pipeline.c keep the state well-formed.
use des_aodv.Common.{
  ℕ, ◌≡◌, ◌+◌, ◌%◌, ◌^◌, ◌<◌, ◌≤◌, refl, Bool, true, false, Option, none, some, is_some, leb, ltb,
  if◌then◌else◌, arith, Option-cases, inl, inr,
}
use des_aodv.Config.{rreq_retries, rreq_ratelimit, sc_repeat_rreq, ttl_start, ttl_max}
use des_aodv.Dessert.{Dessert, Timeval}
use des_aodv.Helper.{hf_tv_add_ms}
use des_aodv.Table.{find, at_address}
use des_aodv.Message.{Msg, Settings, Oracle, after, mesh}
use des_aodv.Daemon
use des_aodv.Daemon.{Series, Daemon, Step, pure, gets, crash, on_db, send, ◌>>=◌, ◌>>◌}
use des_aodv.Daemon.Keeps.{
  Keeps, Satisfies, bind-Keeps, bind-gets-Keeps, pure-Keeps, gets-Keeps, crash-Keeps, send-Keeps,
  if-Keeps, option-Keeps, modify-Keeps,
}
use des_aodv.RreqSeries.{
  address, set_series, aodv_pipeline_find_series_unlocked, aodv_pipeline_new_series,
  aodv_pipeline_delete_series_unlocked, aodv_pipeline_delete_series_ether, next_ttl,
  ring_traversal_time, _create_rreq, aodv_pipeline_reschedule_series, wait_for_rrep,
  aodv_send_rreq_real, aodv_send_rreq, aodv_send_rreq_repeat,
}
use des_aodv.System.Buffer.{
  dropschedule-WellFormed, addschedule-WellFormed, getrreqcount-WellFormed, putrreq-WellFormed,
}
use des_aodv.System.WellFormed.{
  WellFormed, Harmless, set_series-WellFormed, free_series-WellFormed, add-SeriesAreSound,
}

-- New numbers of their width.
pub set_seq_num-WellFormed :
    (seq : ℕ)
    → seq < 2 ^ 32
    → Keeps WellFormed (Daemon.modify (λ d. record d { seq_num_global = seq }))
set_seq_num-WellFormed seq small = modify-Keeps _ (λ d w. record {
  apart = w.apart;
  series = w.series;
  seq_num_global = small;
  data_seq_global = w.data_seq_global;
  seq_num_hello = w.seq_num_hello;
  unheld = w.unheld;
})

new_series-WellFormed :
    (malloc : Option ℕ) (msg : Msg)
    → is_some msg.rreq ≡ true
    → Keeps WellFormed (aodv_pipeline_new_series malloc msg)
unfolding aodv_pipeline_new_series aodv_pipeline_find_series_unlocked
new_series-WellFormed none msg is_rreq = record {
  run = λ d w. elim (Option-cases (aodv_pipeline_find_series_unlocked d.series msg.l25_dhost)) [
    | inl absent ↦ rw (absent, Satisfies) tt
    | inr (s, here) ↦ rw (here, Satisfies) w
  ];
}
new_series-WellFormed (some a) msg is_rreq = record {
  run = λ d w. elim (Option-cases (aodv_pipeline_find_series_unlocked d.series msg.l25_dhost)) [
    | inl absent ↦
        rw (absent, Satisfies)
          (record {
            apart = w.apart;
            series =
                add-SeriesAreSound _ d.series (record { is_rreq = is_rreq; tried = omega arith })
                  (rw absent refl) w.series;
            seq_num_global = w.seq_num_global;
            data_seq_global = w.data_seq_global;
            seq_num_hello = w.seq_num_hello;
            unheld = w.unheld;
          })
    | inr (s, here) ↦ rw (here, Satisfies) w
  ];
}

stop-Harmless : Harmless (λ x. record x { stop = true })
stop-Harmless s sound =
    (record { is_rreq = sound.is_rreq; tried = sound.tried }, refl, λ e. absurd (cc))

delete_series-WellFormed : (s : Series) → Keeps WellFormed (aodv_pipeline_delete_series_unlocked s)
unfolding aodv_pipeline_delete_series_unlocked
delete_series-WellFormed s =
    if-Keeps s.stop _ _ (λ before. pure-Keeps tt)
      (λ live.
        bind-Keeps _ _ (set_series-WellFormed s.self (λ x. record x { stop = true }) stop-Harmless)
          (λ u. bind-Keeps _ _ (dropschedule-WellFormed s.msg.l25_dhost sc_repeat_rreq) (λ dropped.
            if-Keeps dropped _ _ (λ e. free_series-WellFormed s.self) (λ e. pure-Keeps tt))))

pub delete_series_ether-WellFormed :
    (addr : ℕ) → Keeps WellFormed (aodv_pipeline_delete_series_ether addr)
unfolding aodv_pipeline_delete_series_ether
delete_series_ether-WellFormed addr =
    bind-Keeps _ _ (gets-Keeps _)
      (λ found. option-Keeps found _ _ (λ e. pure-Keeps tt) (λ s e. delete_series-WellFormed s))

abbrev retried : Msg → ℕ → Series → Series
retried msg retries x = record x { msg = msg; retries = retries }

module _ (D : Dessert) where
  reschedule_series-WellFormed :
      (when : Timeval) (s : Series) (memory : Bool)
      → Keeps WellFormed (aodv_pipeline_reschedule_series D when s memory)
  unfolding aodv_pipeline_reschedule_series
  reschedule_series-WellFormed when s memory =
      if-Keeps s.stop _ _ (λ e. free_series-WellFormed s.self)
        (λ e.
          bind-Keeps _ _
            (addschedule-WellFormed D when s.msg.l25_dhost sc_repeat_rreq s.self memory)
            (λ added. pure-Keeps tt))

  set_retried-WellFormed :
      (a : ℕ) (msg : Msg) (retries : ℕ)
      → is_some msg.rreq ≡ true
      → retries ≤ rreq_retries
      → Keeps WellFormed (set_series a (λ x. record x { msg = msg; retries = retries }))
  set_retried-WellFormed a msg retries is_rreq few =
      set_series-WellFormed a (λ x. record x { msg = msg; retries = retries })
        (λ x sound. (record { is_rreq = is_rreq; tried = few }, refl, λ live. live))

  set_msg-WellFormed :
      (a : ℕ) (msg : Msg)
      → is_some msg.rreq ≡ true
      → Keeps WellFormed (set_series a (λ x. record x { msg = msg }))
  set_msg-WellFormed a msg is_rreq =
      set_series-WellFormed a (λ x. record x { msg = msg })
        (λ x sound. (record { is_rreq = is_rreq; tried = sound.tried }, refl, λ live. live))

  wait_for_rrep-WellFormed :
      (cfg : Settings) (o : Oracle) (s : Series) (ts : Timeval)
      → is_some s.msg.rreq ≡ true
      → leb rreq_retries s.retries ≡ false
      → Keeps WellFormed (wait_for_rrep D cfg o s ts)
  unfolding wait_for_rrep
  wait_for_rrep-WellFormed cfg o s ts is_rreq again =
      bind-Keeps _ _
        (set_retried-WellFormed s.self (record (s.msg) { ttl = next_ttl cfg.ring_search s.msg.ttl })
          (s.retries + 1) is_rreq (ground (arith, again)))
        (λ u.
          reschedule_series-WellFormed (hf_tv_add_ms D ts (ring_traversal_time s.msg.ttl))
            (record s {
              msg = record (s.msg) { ttl = next_ttl cfg.ring_search s.msg.ttl };
              retries = s.retries + 1;
            })
            (o.memory 1))

  send_rreq_real-WellFormed :
      (cfg : Settings) (o : Oracle) (s : Series) → Keeps WellFormed (aodv_send_rreq_real D cfg o s)
  unfolding aodv_send_rreq_real
  send_rreq_real-WellFormed cfg o s = bind-Keeps _ _ (getrreqcount-WellFormed D (o.now 0)) (λ count.
      if-Keeps (ltb rreq_ratelimit count)
        (aodv_pipeline_reschedule_series D (hf_tv_add_ms D (o.now 0) 20) s (o.memory 0)) _
        (λ e. reschedule_series-WellFormed (hf_tv_add_ms D (o.now 0) 20) s (o.memory 0))
        (λ few.
          option-Keeps s.msg.rreq _ _ (λ e. crash-Keeps)
            (λ ext e.
              bind-gets-Keeps (λ seq. seq < 2 ^ 32) (λ d. (d.seq_num_global + 1) % 2 ^ 32) _
                (λ d w. omega arith)
                (λ seq small.
                  let msg : Msg = record (s.msg) {
                    rreq = some (record ext { originator_sequence_number = seq });
                  } in
                  bind-Keeps _ _ (set_seq_num-WellFormed seq small) (λ u.
                    bind-Keeps _ _ (set_msg-WellFormed s.self msg refl) (λ u1.
                      bind-Keeps _ _ (send-Keeps (mesh none msg)) (λ u2.
                        bind-Keeps _ _ (putrreq-WellFormed D (after 2 o) (o.now 1)) (λ u3.
                          if-Keeps (leb rreq_retries s.retries) _ _
                            (λ final. delete_series-WellFormed (record s { msg = msg }))
                            (λ again.
                              wait_for_rrep-WellFormed cfg o (record s { msg = msg }) (o.now 1) refl
                                again)))))))))

  pub send_rreq-WellFormed :
      (cfg : Settings) (o : Oracle) (dhost : ℕ) → Keeps WellFormed (aodv_send_rreq D cfg o dhost)
  unfolding aodv_send_rreq _create_rreq
  send_rreq-WellFormed cfg o dhost =
      let ttl : ℕ = if cfg.ring_search then ttl_start else ttl_max in
      bind-gets-Keeps (λ msg. is_some msg.rreq ≡ true)
        (λ d. _create_rreq cfg d.db dhost ttl cfg.metric_startvalue) _ (λ d w. refl)
        (λ msg is_rreq. bind-Keeps _ _ (new_series-WellFormed (o.malloc 0) msg is_rreq) (λ series.
          option-Keeps series _ _ (λ e. pure-Keeps tt)
            (λ s e. send_rreq_real-WellFormed cfg (after 1 o) s)))

  pub send_rreq_repeat-WellFormed :
      (cfg : Settings) (o : Oracle) (a : ℕ) → Keeps WellFormed (aodv_send_rreq_repeat D cfg o a)
  unfolding aodv_send_rreq_repeat
  send_rreq_repeat-WellFormed cfg o a =
      bind-Keeps _ _ (gets-Keeps (λ d. find (at_address address a) d.series)) (λ found.
        option-Keeps found _ _ (λ e. crash-Keeps) (λ s e. send_rreq_real-WellFormed cfg o s))
