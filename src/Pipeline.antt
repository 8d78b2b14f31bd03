-- ===== src/Pipeline.antt =====
-- src/aodv.c: the daemon as it starts, and what it registers with libdessert: the callbacks of
-- messages with their priorities, and the commands.
pub mod Options
pub mod Dispatch
pub mod Examples
use Prim.Native.String.{String}
use des_aodv.Common.{ℕ, Bool, true, false, Option, none, some, List, [], ◌∷◌, pos}
use des_aodv.Dessert.{Dessert}
use des_aodv.Config
use des_aodv.Helper.{rfc}
use des_aodv.Gossip.{gossip_none}
use des_aodv.RoutingTable.{LinkBreak}
use des_aodv.PdrTracker.{Outcome, then_do, done}
use des_aodv.Database.{Db, aodv_db_init}
use des_aodv.Message.{Msg, RxFlags, Verdict, keep, drop, MeshIface, Settings, Oracle}
use des_aodv.Daemon.{Daemon, Step, pure, ◌>>=◌}
use des_aodv.Forward.{
  aodv_forward_broadcast, aodv_forward_multicast, aodv_forward, aodv_local_unicast,
  aodv_sys_drop_multicast, aodv_sys2rp,
}
use des_aodv.Handlers.{aodv_drop_errors, aodv_handle_hello}
use des_aodv.Handlers.Rreq.{aodv_handle_rreq}
use des_aodv.Handlers.Rrep.{aodv_handle_rrep}
use des_aodv.Handlers.Rerr.{aodv_handle_rerr}
use des_aodv.Cli.{
  Reader, Command, millis, cli_set_dest_only, cli_set_ring_search, cli_set_tracking_factor,
  cli_set_hello_interval, cli_set_preemptive_rreq_signal_strength_threshold, cli_set_metric,
  cli_send_rreq,
}
use des_aodv.Cli.Sizes.{
  cli_set_hello_size, cli_set_rreq_size, cli_set_gossip, cli_set_periodic_rreq_interval,
}

-- The values of the variables before the configuration is read, and the periodic task for HELLOs.
-- The host's address, the interfaces and the room in extensions are libdessert's.
abbrev pub start_settings : ℕ → List MeshIface → ℕ → (List (List LinkBreak) → ℕ → Bool) → Settings
start_settings l25_defsrc meshifs max_mac_seq_per_ext addext = record {
  l25_defsrc = l25_defsrc;
  meshifs = meshifs;
  hello_interval = Config.hello_interval;
  tracking_factor = Config.pdr_tracking_factor;
  dest_only = Config.dest_only;
  ring_search = Config.ring_search;
  gossip_type = gossip_none;
  metric_type = rfc;
  metric_startvalue = Config.metric_startval;
  signal_strength_threshold = Config.signal_strength_threshold;
  max_mac_seq_per_ext = max_mac_seq_per_ext;
  addext = addext;
  hello_size = Config.hello_size;
  rreq_size = Config.rreq_size;
  rreq_interval = Config.rreq_interval;
  send_hello_periodic = some (millis Config.hello_interval);
  send_rreq_periodic = none;
}

-- the globals of the pipeline with a new database
abbrev pub new_daemon : Db → Daemon
new_daemon db = record {
  db = db;
  seq_num_global = 0;
  data_seq_global = 0;
  seq_num_hello = 0;
  series = [];
  gossip = record { hold_queue = []; periodic = false; tasks = 0 };
}

-- The result of `aodv_db_init` is not looked at; `none` is a database that is not complete.
unfoldable pub start : Dessert → Settings → Oracle → Outcome (Option Daemon)
start D cfg o =
    then_do {B = Option Daemon} (aodv_db_init D cfg [] o)
      (λ made. done (elim made [ none ↦ none | some db ↦ some (new_daemon db) ]))

-- a message in the pipeline
pub record Packet : Type 0 where
  pub msg : Msg
  pub rx : RxFlags

-- The callbacks of libdessert: what each makes of a message, and its verdict.
pub record Callbacks : Type 0 where
  pub msg_check : Packet → MeshIface → Packet × Verdict
  pub msg_ifaceflags : Packet → MeshIface → Packet × Verdict
  pub mesh_ipttl : Packet → MeshIface → Packet × Verdict

abbrev pub Callback : Type 0
Callback = Oracle → Packet → MeshIface → Step (Packet × Verdict)

-- a callback of libdessert
abbrev pub given : (Packet → MeshIface → Packet × Verdict) → Callback
given f o p iface = pure (f p iface)

-- A callback of the daemon; what it keeps it does not change.
abbrev pub handler : (Oracle → Packet → MeshIface → Step Verdict) → Callback
handler f o p iface = do verdict ← f o p iface; pure (p, verdict)

module _ (D : Dessert) (cfg : Settings) where
  -- the calls of `dessert_meshrxcb_add` for data packets, with the priorities
  unfoldable pub data_callbacks : List (ℕ × Callback)
  data_callbacks =
      (80, handler (λ o p iface. aodv_forward_broadcast D o p.msg p.rx))
      ∷ (81, handler (λ o p iface. pure (aodv_forward_multicast p.rx)))
      ∷ (90, handler (λ o p iface. aodv_forward D cfg o p.msg p.rx))
      ∷ (100, handler (λ o p iface. aodv_local_unicast D o p.msg p.rx))
      ∷ []

module _ (D : Dessert) (L : Callbacks) (cfg : Settings) where
  -- the calls of `dessert_meshrxcb_add`, with the priorities
  unfoldable pub mesh_callbacks : List (ℕ × Callback)
  mesh_callbacks =
      (10, given L.msg_check)
      ∷ (20, given L.msg_ifaceflags)
      ∷ (30, handler (λ o p iface. aodv_drop_errors D o p.msg p.rx iface))
      ∷ (40, handler (λ o p iface. aodv_handle_hello D cfg o p.msg iface))
      ∷ (50, handler (λ o p iface. aodv_handle_rreq D cfg o p.msg p.rx iface))
      ∷ (60, handler (λ o p iface. aodv_handle_rerr cfg p.msg))
      ∷ (70, handler (λ o p iface. aodv_handle_rrep D cfg o p.msg p.rx iface))
      ∷ (75, given L.mesh_ipttl)
      ∷ data_callbacks D cfg

-- a callback of messages of this host, with the flags that its processing header has
abbrev pub SysCallback : Type 0
SysCallback = Oracle → Msg → Option RxFlags → Step (Option RxFlags × Verdict)

-- the calls of `dessert_sysrxcb_add`; the callback that drops IPv6 is libdessert's
unfoldable pub sys_callbacks : Dessert → (Msg → Verdict) → Settings → List (ℕ × SysCallback)
sys_callbacks D drop_ipv6 cfg =
    (1, λ o msg rx. pure (rx, drop_ipv6 msg))
    ∷ (3, λ o msg rx. pure (aodv_sys_drop_multicast rx msg))
    ∷ (10, λ o msg rx. do verdict ← aodv_sys2rp D cfg o msg; pure (rx, verdict))
    ∷ []

-- the commands of `cli_register_command` that set or send something
unfoldable pub set_commands : Dessert → Reader → Oracle → List (List String → Command)
set_commands D R o =
    cli_set_hello_size R
    ∷ cli_set_hello_interval R o
    ∷ cli_set_rreq_size R
    ∷ cli_set_tracking_factor R
    ∷ cli_set_metric R
    ∷ cli_set_gossip R
    ∷ cli_set_periodic_rreq_interval R
    ∷ cli_set_preemptive_rreq_signal_strength_threshold R o
    ∷ cli_set_dest_only R
    ∷ cli_set_ring_search R
    ∷ cli_send_rreq R D o
    ∷ []
