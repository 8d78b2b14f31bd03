-- ===== src/Cli/Names.antt =====
-- The names that `cli_show_metric` and `cli_show_gossip` of src/cli/aodv_cli.c print; the commands that
-- set them have names of their own.
use Prim.Native.String.{String}
use des_aodv.Helper.{MetricType, rfc, hop_count, rssi, etx_add, etx_mul, pdr}
use des_aodv.Gossip.{GossipType, gossip_none, gossip_0, gossip_1, gossip_3, pissog_0, pissog_3}

unfoldable pub metric_string : MetricType → String
metric_string hop_count = "AODV_METRIC_HOP_COUNT"
metric_string rssi = "AODV_METRIC_RSSI"
metric_string etx_add = "AODV_METRIC_ETX_ADD"
metric_string rfc = "AODV_METRIC_RFC"
metric_string etx_mul = "AODV_METRIC_ETX_MUL"
metric_string pdr = "AODV_METRIC_PDR"

unfoldable pub gossip_string : GossipType → String
gossip_string gossip_none = "GOSSIP_NONE"
gossip_string gossip_0 = "GOSSIP_0"
gossip_string gossip_1 = "GOSSIP_1"
gossip_string gossip_3 = "GOSSIP_3"
gossip_string pissog_0 = "PISSOG_0"
gossip_string pissog_3 = "PISSOG_3"
