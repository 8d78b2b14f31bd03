-- ===== src/RreqSeries/Life.antt =====
-- The life of a series of RREQs in src/pipeline/aodv_pipeline.c.
use des_aodv.Common.{
  ℕ, ◌≡◌, refl, ◌∙◌, inl, inr, ◌+◌, ◌%◌, ◌^◌, Bool, true, false, Option, none, some, [], ◌∷◌, ltb,
  leb, Bool-cases, arith, if◌then◌else◌,
}
use des_aodv.Config.{rreq_retries, rreq_ratelimit, sc_repeat_rreq}
use des_aodv.Dessert.{Dessert}
use des_aodv.Helper.{hf_tv_add_ms}
use des_aodv.Table.{
  find, remove, modify, at_address, find-modify_self, find-remove, modify-Apart, remove-Apart,
  Apart,
}
use des_aodv.PdrTracker.{done}
use des_aodv.Database.{
  aodv_db_getrreqcount, aodv_db_putrreq, aodv_db_dropschedule, aodv_db_addschedule,
}
use des_aodv.Message.{Msg, RreqExt, mesh, Settings, Oracle, after}
use des_aodv.Daemon.{Series, Daemon}
use des_aodv.RreqSeries.{
  address, next_ttl, ring_traversal_time, aodv_pipeline_delete_series_unlocked,
  aodv_pipeline_reschedule_series, wait_for_rrep, aodv_send_rreq_real,
}

-- the RREQ with a sequence number of ours
abbrev pub stamped : Series → RreqExt → ℕ → Msg
stamped s ext seq = record (s.msg) { rreq = some (record ext { originator_sequence_number = seq }) }

-- the series at an address
abbrev pub series_at : ℕ → Daemon → Option Series
series_at a d = find (at_address address a) d.series

module _ (D : Dessert) (cfg : Settings) (o : Oracle) (s : Series) (ext : RreqExt) (d : Daemon) where
  -- whether there were too many RREQs
  abbrev pub held : Bool
  held = ltb rreq_ratelimit (aodv_db_getrreqcount D d.db (o.now 0)).1

  -- whether the schedule table has a repetition for the host
  abbrev pub scheduled : Bool
  scheduled = (aodv_db_dropschedule d.db s.msg.l25_dhost sc_repeat_rreq).1

  abbrev pub sent_msg : Msg
  sent_msg = stamped s ext ((d.seq_num_global + 1) % 2 ^ 32)

  -- the series after a RREQ
  abbrev pub next_series : Option Series
  next_series =
      if leb rreq_retries s.retries
      then if scheduled then none else some (record s { msg = sent_msg; stop = true })
      else some (record s {
        msg = record sent_msg { ttl = next_ttl cfg.ring_search s.msg.ttl };
        retries = s.retries + 1;
      })

  module _ (is_rreq : s.msg.rreq ≡ some ext) (here : series_at s.self d ≡ some s)
      (live : s.stop ≡ false) where
    -- a RREQ that is held back
    held_lem :
        Apart address d.series
        → held ≡ true
        → (d' : Daemon) × (aodv_send_rreq_real D cfg o s d ≡ done (d', [], tt))
          × (series_at s.self d' ≡ some s)
          × Apart address d'.series
    unfolding aodv_send_rreq_real aodv_pipeline_reschedule_series
    held_lem apart too_many =
        let db1 = (aodv_db_getrreqcount D d.db (o.now 0)).0 in
        let db2 =
          (aodv_db_addschedule D db1 (hf_tv_add_ms D (o.now 0) 20) s.msg.l25_dhost sc_repeat_rreq
            s.self (o.memory 0)).0 in
        (record d { db = db2 }, ground (arith, too_many, live), here, apart)

    -- the state after the RREQ was sent and logged
    abbrev sent_state : Daemon
    sent_state = record d {
      db = aodv_db_putrreq D (aodv_db_getrreqcount D d.db (o.now 0)).0 (after 2 o) (o.now 1);
      seq_num_global = (d.seq_num_global + 1) % 2 ^ 32;
      series = modify (at_address address s.self) (λ x. record x { msg = sent_msg }) d.series;
    }

    sent_here : series_at s.self sent_state ≡ some (record s { msg = sent_msg })
    sent_here =
        find-modify_self (at_address address s.self) (λ x. record x { msg = sent_msg }) d.series s
          (λ x. refl) here

    sent-Apart : Apart address d.series → Apart address sent_state.series
    sent-Apart apart =
        modify-Apart address (at_address address s.self) (λ x. record x { msg = sent_msg }) d.series
          (λ x. refl) apart

    more_lem :
        Apart address d.series
        → held ≡ false
        → leb rreq_retries s.retries ≡ false
        → (d' : Daemon) × (aodv_send_rreq_real D cfg o s d ≡ done (d', mesh none sent_msg ∷ [], tt))
          × (series_at s.self d' ≡ next_series)
          × Apart address d'.series
    unfolding aodv_send_rreq_real wait_for_rrep aodv_pipeline_reschedule_series
    more_lem apart few again =
        let s' : Series = record s {
          msg = record sent_msg { ttl = next_ttl cfg.ring_search s.msg.ttl };
          retries = s.retries + 1;
        } in
        let db2 =
          (aodv_db_addschedule D sent_state.db
            (hf_tv_add_ms D (o.now 1) (ring_traversal_time s.msg.ttl)) s.msg.l25_dhost
            sc_repeat_rreq s.self (o.memory 1)).0 in
        (
          record sent_state {
            db = db2;
            series =
                modify (at_address address s.self)
                  (λ x. record x { msg = s'.msg; retries = s'.retries }) sent_state.series;
          },
          ground (arith, few, is_rreq, again, live),
          rw again (
              find-modify_self (at_address address s.self)
                (λ x. record x { msg = s'.msg; retries = s'.retries }) sent_state.series _
                (λ x. refl) sent_here),
          modify-Apart address (at_address address s.self)
              (λ x. record x { msg = s'.msg; retries = s'.retries }) sent_state.series (λ x. refl)
              (sent-Apart apart),
        )

    -- The schedules are not touched by the log.
    same_scheduled :
        (aodv_db_dropschedule sent_state.db s.msg.l25_dhost sc_repeat_rreq).1 ≡ scheduled
    unfolding aodv_db_dropschedule aodv_db_putrreq aodv_db_getrreqcount
    same_scheduled = refl

    last_lem :
        Apart address d.series
        → held ≡ false
        → leb rreq_retries s.retries ≡ true
        → (d' : Daemon) × (aodv_send_rreq_real D cfg o s d ≡ done (d', mesh none sent_msg ∷ [], tt))
          × (series_at s.self d' ≡ next_series)
          × Apart address d'.series
    unfolding aodv_send_rreq_real aodv_pipeline_delete_series_unlocked
    last_lem apart few final =
        let stopped =
          modify (at_address address s.self) (λ x. record x { stop = true }) sent_state.series in
        let db2 = (aodv_db_dropschedule sent_state.db s.msg.l25_dhost sc_repeat_rreq).0 in
        let stopped-Apart : Apart address stopped =
          modify-Apart address (at_address address s.self) (λ x. record x { stop = true })
            sent_state.series (λ x. refl) (sent-Apart apart) in
        elim (Bool-cases scheduled) [
          | inl dropped ↦ (
            record sent_state { db = db2; series = remove (at_address address s.self) stopped },
            ground (arith, few, is_rreq, live, final, same_scheduled ∙ dropped),
            ground (arith, final, dropped, find-remove address s.self s.self stopped stopped-Apart),
            remove-Apart address s.self stopped stopped-Apart,
          )
          | inr kept ↦ (
            record sent_state { db = db2; series = stopped },
            ground (arith, few, is_rreq, live, final, same_scheduled ∙ kept),
            ground (
              arith,
              final,
              kept,
              find-modify_self (at_address address s.self) (λ x. record x { stop = true })
                  sent_state.series (record s { msg = sent_msg }) (λ x. refl) sent_here,
            ),
            stopped-Apart,
          )
        ]

    -- If no two series share an address, a RREQ of a live series is held back, or sent over
    -- all interfaces with a new sequence number of ours. If it is held back the series stays
    -- as it is. If it is sent and was the last one the series is stopped, and it is freed if
    -- it had a schedule and kept otherwise; if it was not, the series has the next TTL and one
    -- retry more.
    pub send_rreq_life :
        Apart address d.series
        → (d' : Daemon) × (aodv_send_rreq_real D cfg o s d
            ≡ done (d', (if held then [] else mesh none sent_msg ∷ []), tt))
          × (series_at s.self d' ≡ (if held then some s else next_series))
          × Apart address d'.series
    send_rreq_life apart = elim (Bool-cases held) [
      | inl too_many ↦ rw too_many (held_lem apart too_many)
      | inr few ↦ elim (Bool-cases (leb rreq_retries s.retries)) [
        | inl final ↦ rw few (last_lem apart few final)
        | inr again ↦ rw few (more_lem apart few again)
      ]
    ]
