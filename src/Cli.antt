-- ===== src/Cli.antt =====
-- src/cli/aodv_cli.c: the commands of the command line. Here are those that change the settings or the
-- state, in `Show` those that print. What the former print is left out.
pub mod Names
pub mod Sizes
pub mod Show
pub mod ShowTables
pub mod Laws
pub mod Examples
use des_aodv.Common.{
  ℕ, ◌≡◌, arith, ◌%◌, ◌/◌, ◌*◌, ◌^◌, Bool, true, false, not, ◌&&◌, Option, none, some, List, [],
  ◌∷◌, ◌==◌, ltb, if◌then◌else◌, ℤ, to_int8, is_pos, is_neg,
}
use des_aodv.Config.{max_metric}
use Prim.Native.String.{String}
use Prim.Native.String
use Prim.Native.Nat.{eq, lt, gt}
use des_aodv.Dessert.{Dessert, Timeval}
use des_aodv.Helper.{MetricType, rfc, hop_count, rssi, etx_add, etx_mul, pdr}
use des_aodv.PdrTracker.{Outcome, done, fault, then_do, expected, aodv_db_pdr_nt_upd_expected}
use des_aodv.Database.Routes.{aodv_db_routing_reset}
use des_aodv.Database.Neighbors.{aodv_db_neighbor_reset, aodv_db_pdr_upd_expected}
use des_aodv.Message.{Settings, Oracle, Output}
use des_aodv.Daemon.{Daemon}
use des_aodv.RreqSeries.{aodv_send_rreq}

-- `CLI_OK`, `CLI_ERROR` and `CLI_ERROR_ARG` of libcli
pub data CliResult : Type 0 where
  cli_ok cli_error cli_error_arg : CliResult

-- The functions of the C library and of libdessert on a string: `none` if nothing can be read.
-- `sizeof_msg` is the size of a `dessert_msg_t`.
pub record Reader : Type 0 where
  pub scan_u32 : String → Option ℕ
  pub strtoul : String → ℕ
  pub strtol : String → ℤ
  pub parse_mac : String → Option ℕ
  pub sizeof_msg : ℕ

-- A time of so many milliseconds, as `tv_sec` and `tv_usec`.
abbrev pub millis : ℕ → Timeval
millis n = record { tv_sec = n / 1000; tv_usec = n % 1000 * 1000 }

-- `strcmp(a, b) == 0`
unfoldable pub strcmp : String → String → Bool
strcmp a b = elim (String.compare a b) [ eq ↦ true | lt ↦ false | gt ↦ false ]

abbrev pub Command : Type 0
Command = Settings × Daemon → Outcome ((Settings × Daemon) × List Output × CliResult)

abbrev pub answer : CliResult → Command
answer result s = done (s, [], result)

-- a change of the settings
abbrev pub setting : (Settings → Settings) → Command
setting f (cfg, d) = done ((f cfg, d), [], cli_ok)

module _ (R : Reader) where
  -- `sscanf(argv[0], …, &mode) != 1 || (mode != 0 && mode != 1)` is the case `none`.
  abbrev pub read_mode : List String → Option Bool
  read_mode (a ∷ []) = elim (R.scan_u32 a) [
    | none ↦ none
    | some mode ↦ if mode == 1 then some true else if mode == 0 then some false else none
  ]
  read_mode argv = none

  unfoldable pub cli_set_dest_only : List String → Command
  cli_set_dest_only argv = elim (read_mode argv) [
    | none ↦ answer cli_error_arg
    | some mode ↦ setting (λ cfg. record cfg { dest_only = mode })
  ]

  unfoldable pub cli_set_ring_search : List String → Command
  cli_set_ring_search argv = elim (read_mode argv) [
    | none ↦ answer cli_error_arg
    | some mode ↦ setting (λ cfg. record cfg { ring_search = mode })
  ]

  -- The number is cut to 16 bits.
  unfoldable pub cli_set_tracking_factor : List String → Command
  cli_set_tracking_factor (a ∷ []) (cfg, d) =
      let factor = R.strtoul a % 2 ^ 16 in
      if ltb 1000 factor
      then answer cli_error (cfg, d)
      else (let cfg' : Settings = record cfg { tracking_factor = factor } in
          then_do {B = (Settings × Daemon) × List Output × CliResult}
            (aodv_db_pdr_upd_expected d.db cfg' cfg'.hello_interval)
            (λ db. done ((cfg', record d { db = db }), [], cli_ok)))
  cli_set_tracking_factor argv s = answer cli_error s

  -- If the timeslot of the neighbors cannot be made again, it is freed memory, and the result is
  -- `fault`. The interval is not tested for 0.
  unfoldable pub cli_set_hello_interval : Oracle → List String → Command
  cli_set_hello_interval o (a ∷ []) (cfg, d) =
      let interval = R.strtoul a % 2 ^ 16 in
      let cfg' : Settings = record cfg {
        hello_interval = interval;
        send_hello_periodic = some (millis interval);
      } in
      elim ((aodv_db_neighbor_reset d.db cfg' o).0) [
        | none ↦ fault
        | some db ↦
            then_do {B = (Settings × Daemon) × List Output × CliResult}
              (aodv_db_pdr_upd_expected db cfg' cfg'.hello_interval)
              (λ db'. done ((cfg', record d { db = db' }), [], cli_ok))
      ]
  cli_set_hello_interval o argv s = answer cli_error s

  -- A threshold of 0 turns preemptive RREQs off and keeps the neighbors.
  unfoldable pub cli_set_preemptive_rreq_signal_strength_threshold : Oracle → List String → Command
  cli_set_preemptive_rreq_signal_strength_threshold o (a ∷ []) (cfg, d) =
      let threshold = to_int8 (R.strtol a) in
      let cfg' : Settings = record cfg { signal_strength_threshold = threshold } in
      if not (is_pos threshold) && not (is_neg threshold)
      then done ((cfg', d), [], cli_ok)
      else elim ((aodv_db_neighbor_reset d.db cfg' o).0) [
        | none ↦ fault
        | some db ↦ done ((cfg', record d { db = db }), [], cli_ok)
      ]
  cli_set_preemptive_rreq_signal_strength_threshold o argv s = answer cli_error s

  -- One comparison with a name, and the assignments under it.
  abbrev pub choose_metric : String → String → MetricType → ℕ → Settings → Settings
  choose_metric a name metric start cfg =
      if strcmp a name then record cfg { metric_type = metric; metric_startvalue = start } else cfg

  -- A name that is no metric's changes no setting; the routing table is reset all the same.
  unfoldable pub cli_set_metric : List String → Command
  cli_set_metric (a ∷ []) (cfg, d) =
      let cfg' = choose_metric a "AODV_METRIC_PDR" pdr max_metric (
        choose_metric a "AODV_METRIC_RFC" rfc 0 (
          choose_metric a "AODV_METRIC_ETX_MUL" etx_mul max_metric (
            choose_metric a "AODV_METRIC_ETX_ADD" etx_add 0 (
              choose_metric a "AODV_METRIC_RSSI" rssi 0
                (choose_metric a "AODV_METRIC_HOP_COUNT" hop_count 0 cfg))))) in
      done ((cfg', record d { db = (aodv_db_routing_reset d.db).0 }), [], cli_ok)
  cli_set_metric argv s = answer cli_error_arg s

  -- The second argument, the metric to start with, is printed and not used.
  unfoldable pub cli_send_rreq : Dessert → Oracle → List String → Command
  cli_send_rreq D o (a ∷ b ∷ []) (cfg, d) = elim (R.parse_mac a) [
    | none ↦ answer cli_error_arg (cfg, d)
    | some host ↦ elim (aodv_send_rreq D cfg o host d) [
      | done (d', outs, u) ↦ done ((cfg, d'), outs, cli_ok)
      | fault ↦ fault
    ]
  ]
  cli_send_rreq D o argv s = answer cli_error_arg s

  -- The interval 0 ends the daemon, by a division by zero.
  set_hello_interval_zero :
      (o : Oracle) (a : String) (cfg : Settings) (d : Daemon)
      → R.strtoul a % 2 ^ 16 ≡ 0
      → cli_set_hello_interval o (a ∷ []) (cfg, d) ≡ fault
  unfolding cli_set_hello_interval aodv_db_neighbor_reset aodv_db_pdr_upd_expected
      aodv_db_pdr_nt_upd_expected expected
  set_hello_interval_zero o a cfg d zero_interval = ground (arith, zero_interval)
