-- ===== src/RreqSeries.antt =====
-- src/pipeline/aodv_pipeline.c, the first part: a RREQ is sent again and again, in a series, until
-- the route is found or it was sent often enough. Between two RREQs the schedule table has a
-- pointer to the series.
pub mod Delete
pub mod Life
pub mod Search
pub mod Started
pub mod Examples
use des_aodv.Common.{
  ℕ, ◌+◌, ◌-◌, ◌*◌, ◌/◌, ◌%◌, ◌^◌, Bool, true, false, not, ◌&&◌, ◌||◌, Option, none, some, List, [],
  ◌∷◌, ◌==◌, ltb, leb, if◌then◌else◌,
}
use des_aodv.Config.{
  rreq_retries, rreq_ratelimit, node_traversal_time, net_diameter, ttl_start, ttl_increment,
  ttl_threshold, ttl_max, sc_repeat_rreq,
}
use des_aodv.Dessert.{Dessert, Timeval}
use des_aodv.Helper.{hf_tv_add_ms}
use des_aodv.Table.{find, remove, modify, add, at_address}
use des_aodv.Database.{
  Db, aodv_db_dropschedule, aodv_db_addschedule, aodv_db_getrreqcount, aodv_db_putrreq,
}
use des_aodv.Database.Routes.{aodv_db_get_destination_sequence_number, aodv_db_get_warn_status}
use des_aodv.Message.{Msg, RreqExt, Output, mesh, Settings, Oracle, after, empty_msg}
use des_aodv.Daemon
use des_aodv.Daemon.{Series, Daemon, Step, pure, gets, crash, on_db, send, ◌>>=◌, ◌>>◌}

abbrev pub address : Series → ℕ
address s = s.self

-- an element of `series_list` with this key
abbrev pub running : ℕ → Series → Bool
running key s = not s.stop && (s.key == key)

unfoldable pub aodv_pipeline_find_series_unlocked : List Series → ℕ → Option Series
aodv_pipeline_find_series_unlocked series addr = find (running addr) series

-- assignments to the series at an address
abbrev pub set_series : ℕ → (Series → Series) → Step (Unit {0})
set_series a f = Daemon.modify (λ d. record d { series = modify (at_address address a) f d.series })

abbrev pub free_series : ℕ → Step (Unit {0})
free_series a = Daemon.modify (λ d. record d { series = remove (at_address address a) d.series })

-- The result of `malloc` is not tested for NULL.
unfoldable pub aodv_pipeline_new_series : Option ℕ → Msg → Step (Option Series)
aodv_pipeline_new_series malloc msg = do
  pre_existing ← gets (λ d. aodv_pipeline_find_series_unlocked d.series msg.l25_dhost)
  elim pre_existing [
    | some s ↦ pure none
    | none ↦ elim malloc [
      | none ↦ crash
      | some a ↦ do
        let s : Series = record {
          self = a;
          msg = msg;
          retries = 0;
          key = msg.l25_dhost;
          stop = false;
        }
        Daemon.modify (λ d. record d { series = add s d.series })
        pure (some s)
    ]
  ]

unfoldable pub aodv_pipeline_delete_series_unlocked : Series → Step (Unit {0})
aodv_pipeline_delete_series_unlocked s = if s.stop then pure tt else do
  set_series s.self (λ x. record x { stop = true })
  dropped ← on_db (λ db. aodv_db_dropschedule db s.msg.l25_dhost sc_repeat_rreq)
  if dropped then free_series s.self else pure tt

unfoldable pub aodv_pipeline_delete_series_ether : ℕ → Step (Unit {0})
aodv_pipeline_delete_series_ether addr = do
  found ← gets (λ d. aodv_pipeline_find_series_unlocked d.series addr)
  elim found [ none ↦ pure tt | some s ↦ aodv_pipeline_delete_series_unlocked s ]

-- `TTL_INCREMENT` is added up to `TTL_THRESHOLD`.
unfoldable pub next_ttl : Bool → ℕ → ℕ
next_ttl ring_search ttl =
    if ring_search && leb ttl ttl_threshold
    then (let more = (ttl + ttl_increment) % 256 in
        if ltb ttl_threshold more then ttl_max else more)
    else ttl

-- the time to wait for an answer, in milliseconds
abbrev pub ring_traversal_time : ℕ → ℕ
ring_traversal_time ttl =
    2 * node_traversal_time * (if ltb net_diameter ttl then net_diameter else ttl)

-- The dummy payload is left out.
unfoldable pub _create_rreq : Settings → Db → ℕ → ℕ → ℕ → Msg
_create_rreq cfg db dhost ttl metric =
    let (known, seq) = aodv_db_get_destination_sequence_number db dhost in
    record empty_msg {
      ttl = ttl;
      u16 = metric;
      l25_shost = cfg.l25_defsrc;
      l25_dhost = dhost;
      rreq = some (record {
        unknown_seq_num = not known;
        dest_only = cfg.dest_only || aodv_db_get_warn_status db dhost;
        destination_sequence_number = seq;
        originator_sequence_number = 0;
      });
    }

module _ (D : Dessert) where
  unfoldable pub aodv_pipeline_reschedule_series : Timeval → Series → Bool → Step (Unit {0})
  aodv_pipeline_reschedule_series when s memory = if s.stop then free_series s.self else do
    added ← on_db (λ db. aodv_db_addschedule D db when s.msg.l25_dhost sc_repeat_rreq s.self memory)
    pure tt

  -- The end of `aodv_send_rreq_real`, after a RREQ that is not the last one, sent at `ts`.
  unfoldable pub wait_for_rrep : Settings → Oracle → Series → Timeval → Step (Unit {0})
  wait_for_rrep cfg o s ts = do
    let s' : Series = record s {
      msg = record (s.msg) { ttl = next_ttl cfg.ring_search s.msg.ttl };
      retries = s.retries + 1;
    }
    set_series s.self (λ x. record x { msg = s'.msg; retries = s'.retries })
    aodv_pipeline_reschedule_series (hf_tv_add_ms D ts (ring_traversal_time s.msg.ttl)) s'
        (o.memory 1)

  -- A message without a RREQ is not in a series; reading its extension is `crash`.
  unfoldable pub aodv_send_rreq_real : Settings → Oracle → Series → Step (Unit {0})
  aodv_send_rreq_real cfg o s = do
    let ts = o.now 0
    rreq_count ← on_db (λ db. aodv_db_getrreqcount D db ts)
    if ltb rreq_ratelimit rreq_count
        then aodv_pipeline_reschedule_series (hf_tv_add_ms D ts 20) s (o.memory 0)
        else (elim s.msg.rreq [
          | none ↦ crash
          | some ext ↦ do
            seq ← gets (λ d. (d.seq_num_global + 1) % 2 ^ 32)
            Daemon.modify (λ d. record d { seq_num_global = seq })
            let msg : Msg = record (s.msg) {
              rreq = some (record ext { originator_sequence_number = seq });
            }
            set_series s.self (λ x. record x { msg = msg })
            send (mesh none msg)
            let ts' = o.now 1
            on_db (λ db. (aodv_db_putrreq D db (after 2 o) ts', tt))
            if leb rreq_retries s.retries
                then aodv_pipeline_delete_series_unlocked (record s { msg = msg })
                else wait_for_rrep cfg o (record s { msg = msg }) ts'
        ])

  -- The message is lost if a series is running.
  unfoldable pub aodv_send_rreq : Settings → Oracle → ℕ → Step (Unit {0})
  aodv_send_rreq cfg o dhost = do
    let ttl = if cfg.ring_search then ttl_start else ttl_max
    msg ← gets (λ d. _create_rreq cfg d.db dhost ttl cfg.metric_startvalue)
    series ← aodv_pipeline_new_series (o.malloc 0) msg
    elim series [ none ↦ pure tt | some s ↦ aodv_send_rreq_real cfg (after 1 o) s ]

  -- `series` is the pointer of the schedule; it is not null.
  unfoldable pub aodv_send_rreq_repeat : Settings → Oracle → ℕ → Step (Unit {0})
  aodv_send_rreq_repeat cfg o series = do
    found ← gets (λ d. find (at_address address series) d.series)
    elim found [ none ↦ crash | some s ↦ aodv_send_rreq_real cfg o s ]
