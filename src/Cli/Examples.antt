-- ===== src/Cli/Examples.antt =====
-- Examples on src/cli/aodv_cli.c.
use Prim.Native.String.{◌++◌}
use des_aodv.Common.{◌≡◌, none, [], ◌∷◌, pos}
use des_aodv.Helper.{MetricType}
use des_aodv.Gossip.{GossipType}
use des_aodv.Daemon.Sample.{settings, daemon}
use des_aodv.Cli.{Reader, cli_set_metric}
use des_aodv.Cli.Names.{metric_string, gossip_string}
use des_aodv.Cli.Sizes.{cli_set_gossip}
use des_aodv.Cli.Show.{cli_show_metric, cli_show_gossip}
use des_aodv.Cli.Laws.{Shows, cli_show-cli_set}

-- a reader that finds nothing
abbrev pub reader : Reader
reader = record {
  scan_u32 = λ a. none;
  strtoul = λ a. 0;
  strtol = λ a. pos 0;
  parse_mac = λ a. none;
  sizeof_msg = 40;
}

cli_show-cli_set_example :
    ((m : MetricType)
      → Shows
          (λ c. c.metric_type ≡ m)
          cli_show_metric
          ("metric is set to " ++ metric_string m)
          (cli_set_metric reader (metric_string m ∷ []) (settings, daemon)))
    × ((g : GossipType)
        → Shows
            (λ c. c.gossip_type ≡ g)
            cli_show_gossip
            ("gossip is set to " ++ gossip_string g)
            (cli_set_gossip reader (gossip_string g ∷ []) (settings, daemon)))
cli_show-cli_set_example = cli_show-cli_set reader settings daemon
