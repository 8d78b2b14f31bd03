-- ===== src/System/Commands.antt =====
-- The commands of src/cli/aodv_cli.c keep the state well-formed, and the periodic tasks run at the
-- intervals that are set.
use Prim.Native.String.{String}
use des_aodv.Common.{
  ℕ, refl, some, List, [], ◌∷◌, ◌%◌, ◌^◌, ◌&&◌, not, ltb, to_int8, is_pos, is_neg, Bool-cases,
  Option-cases, inl, inr,
}
use mathlib.Core.List.{Memᴰ}
use des_aodv.Dessert.{Dessert}
use des_aodv.Config.{max_metric}
use des_aodv.Helper.{MetricType, rfc, hop_count, rssi, etx_add, etx_mul, pdr}
use des_aodv.Gossip.{GossipType, gossip_none, gossip_0, gossip_1, gossip_3, pissog_0, pissog_3}
use des_aodv.Message.{Settings, Oracle}
use des_aodv.Database.Neighbors.{aodv_db_neighbor_reset}
use des_aodv.RreqSeries.{aodv_send_rreq}
use des_aodv.Cli.{
  Reader, Command, strcmp, choose_metric, millis, read_mode, cli_set_dest_only, cli_set_ring_search,
  cli_set_tracking_factor, cli_set_hello_interval,
  cli_set_preemptive_rreq_signal_strength_threshold, cli_set_metric, cli_send_rreq,
}
use des_aodv.Cli.Sizes.{
  choose_gossip, read_size, cli_set_hello_size, cli_set_rreq_size, cli_set_gossip,
  cli_set_periodic_rreq_interval,
}
use des_aodv.Pipeline.{set_commands}
use des_aodv.System.WellFormed.{same_buffer}
use des_aodv.System.Series.{send_rreq-WellFormed}
use des_aodv.System.Kept.{
  Ends, CommandKeeps, SameTasks, same_tasks, all_of, pb-neighbor_reset, sent-Ends,
  upd_expected-Ends, routing_reset-WellFormed,
}

module _ (R : Reader) where
  set_hello_size-Keeps : CommandKeeps (cli_set_hello_size R)
  unfolding cli_set_hello_size
  set_hello_size-Keeps argv cfg d s = elim (Option-cases (read_size R argv)) [
    | inl refused ↦ rw (refused, Ends) s
    | inr (n, given) ↦
        rw (given, Ends)
          (record {
            well_formed = s.well_formed;
            tasks = same_tasks cfg _ refl refl refl refl s.tasks;
          })
  ]

  set_rreq_size-Keeps : CommandKeeps (cli_set_rreq_size R)
  unfolding cli_set_rreq_size
  set_rreq_size-Keeps argv cfg d s = elim (Option-cases (read_size R argv)) [
    | inl refused ↦ rw (refused, Ends) s
    | inr (n, given) ↦
        rw (given, Ends)
          (record {
            well_formed = s.well_formed;
            tasks = same_tasks cfg _ refl refl refl refl s.tasks;
          })
  ]

  set_dest_only-Keeps : CommandKeeps (cli_set_dest_only R)
  unfolding cli_set_dest_only
  set_dest_only-Keeps argv cfg d s = elim (Option-cases (read_mode R argv)) [
    | inl refused ↦ rw (refused, Ends) s
    | inr (n, given) ↦
        rw (given, Ends)
          (record {
            well_formed = s.well_formed;
            tasks = same_tasks cfg _ refl refl refl refl s.tasks;
          })
  ]

  set_ring_search-Keeps : CommandKeeps (cli_set_ring_search R)
  unfolding cli_set_ring_search
  set_ring_search-Keeps argv cfg d s = elim (Option-cases (read_mode R argv)) [
    | inl refused ↦ rw (refused, Ends) s
    | inr (n, given) ↦
        rw (given, Ends)
          (record {
            well_formed = s.well_formed;
            tasks = same_tasks cfg _ refl refl refl refl s.tasks;
          })
  ]

  choose_metric-SameTasks :
      (a name : String) (m : MetricType) (n : ℕ) (cfg cfg' : Settings)
      → SameTasks cfg cfg'
      → SameTasks cfg (choose_metric R a name m n cfg')
  choose_metric-SameTasks a name m n cfg cfg' same = elim (Bool-cases (strcmp a name)) [
    | inl this ↦ rw this same
    | inr other ↦ rw other same
  ]

  choose_gossip-SameTasks :
      (a name : String) (g : GossipType) (cfg cfg' : Settings)
      → SameTasks cfg cfg'
      → SameTasks cfg (choose_gossip R a name g cfg')
  choose_gossip-SameTasks a name g cfg cfg' same = elim (Bool-cases (strcmp a name)) [
    | inl this ↦ rw this same
    | inr other ↦ rw other same
  ]

  set_metric-Keeps : CommandKeeps (cli_set_metric R)
  unfolding cli_set_metric
  set_metric-Keeps [] cfg d s = s
  set_metric-Keeps (a ∷ b ∷ argv) cfg d s = s
  set_metric-Keeps (a ∷ []) cfg d s =
      let (h, i, r, j) = choose_metric-SameTasks a "AODV_METRIC_PDR" pdr max_metric cfg _ (
        choose_metric-SameTasks a "AODV_METRIC_RFC" rfc 0 cfg _ (
          choose_metric-SameTasks a "AODV_METRIC_ETX_MUL" etx_mul max_metric cfg _ (
            choose_metric-SameTasks a "AODV_METRIC_ETX_ADD" etx_add 0 cfg _ (
              choose_metric-SameTasks a "AODV_METRIC_RSSI" rssi 0 cfg _ (
                choose_metric-SameTasks a "AODV_METRIC_HOP_COUNT" hop_count 0 cfg cfg
                  (refl, refl, refl, refl)))))) in
      record {
        well_formed = routing_reset-WellFormed d s.well_formed;
        tasks = same_tasks cfg _ h i r j s.tasks;
      }

  set_gossip-Keeps : CommandKeeps (cli_set_gossip R)
  unfolding cli_set_gossip
  set_gossip-Keeps [] cfg d s = s
  set_gossip-Keeps (a ∷ b ∷ argv) cfg d s = s
  set_gossip-Keeps (a ∷ []) cfg d s =
      let (h, i, r, j) = choose_gossip-SameTasks a "PISSOG_3" pissog_3 cfg _ (
        choose_gossip-SameTasks a "PISSOG_0" pissog_0 cfg _ (
          choose_gossip-SameTasks a "GOSSIP_3" gossip_3 cfg _ (
            choose_gossip-SameTasks a "GOSSIP_1" gossip_1 cfg _ (
              choose_gossip-SameTasks a "GOSSIP_0" gossip_0 cfg _ (
                choose_gossip-SameTasks a "GOSSIP_NONE" gossip_none cfg cfg
                  (refl, refl, refl, refl)))))) in
      record {
        well_formed = routing_reset-WellFormed d s.well_formed;
        tasks = same_tasks cfg _ h i r j s.tasks;
      }

  set_periodic_rreq_interval-Keeps : CommandKeeps (cli_set_periodic_rreq_interval R)
  unfolding cli_set_periodic_rreq_interval
  set_periodic_rreq_interval-Keeps [] cfg d s = s
  set_periodic_rreq_interval-Keeps (a ∷ b ∷ argv) cfg d s = s
  set_periodic_rreq_interval-Keeps (a ∷ []) cfg d s = record {
    well_formed = s.well_formed;
    tasks = record { hello = s.tasks.hello; rreq = refl };
  }

  send_rreq-Keeps : (D : Dessert) (o : Oracle) → CommandKeeps (cli_send_rreq R D o)
  unfolding cli_send_rreq
  send_rreq-Keeps D o [] cfg d s = s
  send_rreq-Keeps D o (a ∷ []) cfg d s = s
  send_rreq-Keeps D o (a ∷ b ∷ c ∷ argv) cfg d s = s
  send_rreq-Keeps D o (a ∷ b ∷ []) cfg d s = elim (Option-cases (R.parse_mac a)) [
    | inl refused ↦ rw (refused, Ends) s
    | inr (host, given) ↦
        rw (given, Ends)
          (sent-Ends cfg (aodv_send_rreq D cfg o host d) s.tasks
            ((send_rreq-WellFormed D cfg o host).run d s.well_formed))
  ]

  set_tracking_factor-Keeps : CommandKeeps (cli_set_tracking_factor R)
  unfolding cli_set_tracking_factor
  set_tracking_factor-Keeps [] cfg d s = s
  set_tracking_factor-Keeps (a ∷ b ∷ argv) cfg d s = s
  set_tracking_factor-Keeps (a ∷ []) cfg d s = elim (Bool-cases (ltb 1000 (R.strtoul a % 2 ^ 16))) [
    | inl refused ↦ rw (refused, Ends) s
    | inr given ↦
        rw (given, Ends)
          (upd_expected-Ends (record cfg { tracking_factor = R.strtoul a % 2 ^ 16 }) d d.db
            cfg.hello_interval refl s.well_formed (same_tasks cfg _ refl refl refl refl s.tasks))
  ]

  set_hello_interval-Keeps : (o : Oracle) → CommandKeeps (cli_set_hello_interval R o)
  unfolding cli_set_hello_interval
  set_hello_interval-Keeps o [] cfg d s = s
  set_hello_interval-Keeps o (a ∷ b ∷ argv) cfg d s = s
  set_hello_interval-Keeps o (a ∷ []) cfg d s =
      let cfg' : Settings = record cfg {
        hello_interval = R.strtoul a % 2 ^ 16;
        send_hello_periodic = some (millis (R.strtoul a % 2 ^ 16));
      } in
      elim (Option-cases (aodv_db_neighbor_reset d.db cfg' o).0) [
        | inl failed ↦ rw (failed, Ends) tt
        | inr (db, made) ↦
            rw (made, Ends)
              (upd_expected-Ends cfg' d db cfg'.hello_interval
                (pb-neighbor_reset d.db db cfg' o made) s.well_formed
                (record { hello = refl; rreq = s.tasks.rreq }))
      ]

  set_threshold-Keeps :
      (o : Oracle) → CommandKeeps (cli_set_preemptive_rreq_signal_strength_threshold R o)
  unfolding cli_set_preemptive_rreq_signal_strength_threshold
  set_threshold-Keeps o [] cfg d s = s
  set_threshold-Keeps o (a ∷ b ∷ argv) cfg d s = s
  set_threshold-Keeps o (a ∷ []) cfg d s =
      let threshold = to_int8 (R.strtol a) in
      let cfg' : Settings = record cfg { signal_strength_threshold = threshold } in
      let tasks' = same_tasks cfg cfg' refl refl refl refl s.tasks in
      elim (Bool-cases (not (is_pos threshold) && not (is_neg threshold))) [
        | inl off ↦ rw (off, Ends) (record { well_formed = s.well_formed; tasks = tasks' })
        | inr on ↦ elim (Option-cases (aodv_db_neighbor_reset d.db cfg' o).0) [
          | inl failed ↦ rw (on, failed, Ends) tt
          | inr (db, made) ↦
              rw (on, made, Ends)
                (record {
                  well_formed =
                      same_buffer d db (pb-neighbor_reset d.db db cfg' o made) s.well_formed;
                  tasks = tasks';
                })
        ]
      ]

  pub commands-Keeps :
      (D : Dessert) (o : Oracle) (c : List String → Command)
      → Memᴰ c (set_commands D R o)
      → CommandKeeps c
  unfolding set_commands
  commands-Keeps D o = all_of CommandKeeps (set_commands D R o) (
    set_hello_size-Keeps,
    (
      set_hello_interval-Keeps o,
      (
        set_rreq_size-Keeps,
        (
          set_tracking_factor-Keeps,
          (
            set_metric-Keeps,
            (
              set_gossip-Keeps,
              (
                set_periodic_rreq_interval-Keeps,
                (
                  set_threshold-Keeps o,
                  (set_dest_only-Keeps, (set_ring_search-Keeps, (send_rreq-Keeps D o, tt))),
                ),
              ),
            ),
          ),
        ),
      ),
    ),
  )
