-- ===== src/Cli/Sizes.antt =====
-- src/cli/aodv_cli.c: the commands that set sizes, the gossip type and the interval of RREQs.
use Prim.Native.String.{String}
use des_aodv.Common.{
  ℕ, ◌+◌, ◌%◌, ◌^◌, ◌||◌, Option, none, some, List, [], ◌∷◌, ◌==◌, ltb, if◌then◌else◌, ℤ, pos,
  negsuc, ◌-◌,
}
use des_aodv.Gossip.{GossipType, gossip_none, gossip_0, gossip_1, gossip_3, pissog_0, pissog_3}
use des_aodv.PdrTracker.{done}
use des_aodv.Database.Routes.{aodv_db_routing_reset}
use des_aodv.Message.{Settings}
use des_aodv.Cli.{
  Reader, Command, answer, setting, strcmp, millis, cli_ok, cli_error, cli_error_arg,
}

-- the conversion of a `long` to a `uint16_t`
abbrev pub to_uint16 : ℤ → ℕ
to_uint16 (pos n) = n % 2 ^ 16
to_uint16 (negsuc n) = 2 ^ 16 - 1 - n % 2 ^ 16

module _ (R : Reader) where
  -- A message with an Ethernet header of 14 bytes and 2 bytes more.
  abbrev pub min_size : ℕ
  min_size = (R.sizeof_msg + 14 + 2) % 2 ^ 16

  -- `none` is the jump to `label_out_usage`.
  abbrev pub read_size : List String → Option ℕ
  read_size (a ∷ []) =
      let psize = R.strtoul a % 2 ^ 16 in
      if ltb psize min_size || ltb 1500 psize then none else some psize
  read_size argv = none

  unfoldable pub cli_set_hello_size : List String → Command
  cli_set_hello_size argv = elim (read_size argv) [
    | none ↦ answer cli_error
    | some psize ↦ setting (λ cfg. record cfg { hello_size = psize })
  ]

  unfoldable pub cli_set_rreq_size : List String → Command
  cli_set_rreq_size argv = elim (read_size argv) [
    | none ↦ answer cli_error
    | some psize ↦ setting (λ cfg. record cfg { rreq_size = psize })
  ]

  -- One comparison with a name, and the assignment under it.
  abbrev pub choose_gossip : String → String → GossipType → Settings → Settings
  choose_gossip a name gossip cfg =
      if strcmp a name then record cfg { gossip_type = gossip } else cfg

  unfoldable pub cli_set_gossip : List String → Command
  cli_set_gossip (a ∷ []) (cfg, d) =
      let cfg' = choose_gossip a "PISSOG_3" pissog_3 (
        choose_gossip a "PISSOG_0" pissog_0 (
          choose_gossip a "GOSSIP_3" gossip_3 (
            choose_gossip a "GOSSIP_1" gossip_1 (
              choose_gossip a "GOSSIP_0" gossip_0
                (choose_gossip a "GOSSIP_NONE" gossip_none cfg))))) in
      done ((cfg', record d { db = (aodv_db_routing_reset d.db).0 }), [], cli_ok)
  cli_set_gossip argv s = answer cli_error_arg s

  -- The task is registered again with the new interval; an interval of 0 leaves it off.
  unfoldable pub cli_set_periodic_rreq_interval : List String → Command
  cli_set_periodic_rreq_interval (a ∷ []) (cfg, d) =
      let interval = to_uint16 (R.strtol a) in
      done (
        (
          record cfg {
            rreq_interval = interval;
            send_rreq_periodic = if interval == 0 then none else some (millis interval);
          },
          d,
        ),
        [],
        cli_ok,
      )
  cli_set_periodic_rreq_interval argv s = answer cli_error s
