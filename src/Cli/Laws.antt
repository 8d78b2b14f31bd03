-- ===== src/Cli/Laws.antt =====
-- What the commands of src/cli/aodv_cli.c set and show.
use Prim.Native.String.{String, ◌++◌}
use des_aodv.Common.{◌≡◌, refl, [], ◌∷◌, List}
use des_aodv.Helper.{MetricType, rfc, hop_count, rssi, etx_add, etx_mul, pdr}
use des_aodv.Gossip.{GossipType, gossip_none, gossip_0, gossip_1, gossip_3, pissog_0, pissog_3}
use des_aodv.PdrTracker.{Outcome, done}
use des_aodv.Message.{Settings, Output}
use des_aodv.Daemon.{Daemon}
use des_aodv.Cli.{Reader, CliResult, cli_ok, strcmp, cli_set_metric}
use des_aodv.Cli.Names.{metric_string, gossip_string}
use des_aodv.Cli.Sizes.{cli_set_gossip}
use des_aodv.Cli.Show.{cli_show_metric, cli_show_gossip}

-- The command succeeds, sends nothing, and leaves settings that satisfy `P` and of which this is shown.
abbrev pub Shows :
    (Settings → Type 0)
    → (Settings → String)
    → String
    → Outcome ((Settings × Daemon) × List Output × CliResult)
    → Type 0
Shows P show text r =
    (cfg : Settings) × (d : Daemon) × (r ≡ done ((cfg, d), [], cli_ok)) × P cfg × (show cfg ≡ text)

module _ (R : Reader) (cfg : Settings) (d : Daemon) where
  pub show_metric-set_metric :
      (m : MetricType)
      → Shows
          (λ c. c.metric_type ≡ m)
          cli_show_metric
          ("metric is set to " ++ metric_string m)
          (cli_set_metric R (metric_string m ∷ []) (cfg, d))
  unfolding cli_set_metric cli_show_metric metric_string strcmp
  show_metric-set_metric rfc = (_, _, refl, refl, refl)
  show_metric-set_metric hop_count = (_, _, refl, refl, refl)
  show_metric-set_metric rssi = (_, _, refl, refl, refl)
  show_metric-set_metric etx_add = (_, _, refl, refl, refl)
  show_metric-set_metric etx_mul = (_, _, refl, refl, refl)
  show_metric-set_metric pdr = (_, _, refl, refl, refl)

  pub show_gossip-set_gossip :
      (g : GossipType)
      → Shows
          (λ c. c.gossip_type ≡ g)
          cli_show_gossip
          ("gossip is set to " ++ gossip_string g)
          (cli_set_gossip R (gossip_string g ∷ []) (cfg, d))
  unfolding cli_set_gossip cli_show_gossip gossip_string strcmp
  show_gossip-set_gossip gossip_none = (_, _, refl, refl, refl)
  show_gossip-set_gossip gossip_0 = (_, _, refl, refl, refl)
  show_gossip-set_gossip gossip_1 = (_, _, refl, refl, refl)
  show_gossip-set_gossip gossip_3 = (_, _, refl, refl, refl)
  show_gossip-set_gossip pissog_0 = (_, _, refl, refl, refl)
  show_gossip-set_gossip pissog_3 = (_, _, refl, refl, refl)

  -- For each metric and each gossip type, the name that the command for showing it prints is
  -- one by which the command for setting it sets this metric or type, and after that this name
  -- is shown.
  pub cli_show-cli_set :
      ((m : MetricType)
        → Shows
            (λ c. c.metric_type ≡ m)
            cli_show_metric
            ("metric is set to " ++ metric_string m)
            (cli_set_metric R (metric_string m ∷ []) (cfg, d)))
      × ((g : GossipType)
          → Shows
              (λ c. c.gossip_type ≡ g)
              cli_show_gossip
              ("gossip is set to " ++ gossip_string g)
              (cli_set_gossip R (gossip_string g ∷ []) (cfg, d)))
  cli_show-cli_set = (show_metric-set_metric, show_gossip-set_gossip)
