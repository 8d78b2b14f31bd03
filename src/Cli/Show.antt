-- ===== src/Cli/Show.antt =====
-- src/cli/aodv_cli.c: what the commands print that show a setting. `cli_print` is given the text; how
-- `printf` writes a number is a parameter.
use Prim.Native.String.{String, ◌++◌}
use des_aodv.Common.{ℕ, ℤ, ◌==◌, not, ◌&&◌, is_pos, is_neg, if◌then◌else◌}
use des_aodv.Message.{Settings}
use des_aodv.Cli.Names.{metric_string, gossip_string}

-- `PRIu16` and `PRId8`
pub record Numbers : Type 0 where
  pub u16 : ℕ → String
  pub d8 : ℤ → String

unfoldable pub cli_show_metric : Settings → String
cli_show_metric cfg = "metric is set to " ++ metric_string cfg.metric_type

unfoldable pub cli_show_gossip : Settings → String
cli_show_gossip cfg = "gossip is set to " ++ gossip_string cfg.gossip_type

module _ (N : Numbers) where
  unfoldable pub cli_show_periodic_rreq_interval : Settings → String
  cli_show_periodic_rreq_interval cfg =
      if cfg.rreq_interval == 0
      then "periodic RREQ is off"
      else "periodic RREQ Interval = " ++ (N.u16 cfg.rreq_interval ++ " ms")

  unfoldable pub cli_show_preemptive_rreq_signal_strength_threshold : Settings → String
  cli_show_preemptive_rreq_signal_strength_threshold cfg =
      let threshold = cfg.signal_strength_threshold in
      if not (is_pos threshold) && not (is_neg threshold)
      then "preemptive RREQ is off"
      else "preemptive RREQ treshold is " ++ (N.d8 threshold ++ " dbm")

  unfoldable pub cli_show_hello_size : Settings → String
  cli_show_hello_size cfg = "HELLO size = " ++ (N.u16 cfg.hello_size ++ " bytes\n")

  unfoldable pub cli_show_hello_interval : Settings → String
  cli_show_hello_interval cfg = "HELLO interval = " ++ (N.u16 cfg.hello_interval ++ " millisec\n")

  unfoldable pub cli_show_rreq_size : Settings → String
  cli_show_rreq_size cfg = "RREQ size = " ++ (N.u16 cfg.rreq_size ++ " bytes\n")

  unfoldable pub cli_show_tracking_factor : Settings → String
  cli_show_tracking_factor cfg = "PDR_TRACKING_FACTOR = " ++ (N.u16 cfg.tracking_factor ++ "\n")
