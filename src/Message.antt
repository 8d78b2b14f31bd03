-- ===== src/Message.antt =====
-- src/pipeline/aodv_pipeline.h: the messages of the daemon, and what a handler of messages takes
-- and gives. An address is the number that `hf_mac_addr_to_uint64` makes of it.
use des_aodv.Common.{ℕ, ◌+◌, ◌-◌, ◌%◌, ◌^◌, Bool, Option, none, List, [], ℤ}
use des_aodv.Dessert.{Timeval}
use des_aodv.Helper.{MetricType}
use des_aodv.Gossip.{GossipType}
use des_aodv.RoutingTable.{LinkBreak, CaptRreqResult, Supply}

-- `struct aodv_msg_rreq`; of the flags, `AODV_FLAGS_RREQ_U` and `AODV_FLAGS_RREQ_D`
pub record RreqExt : Type 0 where
  pub unknown_seq_num : Bool
  pub dest_only : Bool
  pub destination_sequence_number : ℕ
  pub originator_sequence_number : ℕ

-- `struct aodv_msg_rrep`, less the flags and the lifetime, which are set to 0 and never read
pub record RrepExt : Type 0 where
  pub destination_sequence_number : ℕ

-- `struct aodv_msg_rerr`; `ifaces` are the first `iface_addr_count` addresses.
pub record RerrExt : Type 0 where
  pub ifaces : List ℕ

-- `struct aodv_msg_hello`
pub record HelloExt : Type 0 where
  pub hello_rcvd_count : ℕ
  pub hello_interval : ℕ

-- `dessert_msg_t`, as far as the daemon reads it: `u8` is the hop count, `u16` the metric or a
-- sequence number, and `rerrdl` has the lists of the extensions of type `RERRDL_EXT_TYPE`.
pub record Msg : Type 0 where
  pub l2_dhost : ℕ
  pub l2_shost : ℕ
  pub l25_dhost : ℕ
  pub l25_shost : ℕ
  pub ttl : ℕ
  pub u8 : ℕ
  pub u16 : ℕ
  pub rreq : Option RreqExt
  pub rrep : Option RrepExt
  pub rerr : Option RerrExt
  pub rerrdl : List (List LinkBreak)
  pub hello : Option HelloExt
  pub payload : ℕ

-- The bits `DESSERT_RX_FLAG_…` of a received message.
pub record RxFlags : Type 0 where
  pub l2_src : Bool
  pub l25_src : Bool
  pub l2_dst : Bool
  pub l25_dst : Bool
  pub l25_broadcast : Bool
  pub l25_multicast : Bool

-- `DESSERT_MSG_KEEP`, `DESSERT_MSG_DROP` and `DESSERT_MSG_NEEDMSGPROC`
pub data Verdict : Type 0 where
  keep drop needmsgproc : Verdict

-- `dessert_meshsend`, over one interface or over all, and `dessert_syssend_msg`
pub data Output : Type 0 where
  mesh : Option ℕ → Msg → Output
  sys : Msg → Output

-- `dessert_meshif_t`, with its address in memory
pub record MeshIface : Type 0 where
  pub self : ℕ
  pub hwaddr : ℕ

-- The variables that the command line sets, and what libdessert knows of this host.
-- `max_mac_seq_per_ext` is `DESSERT_MAXEXTDATALEN` over the size of an `aodv_mac_seq_t`; `addext` says
-- whether `dessert_msg_addext` can add so many of them to a message with these lists. The two
-- pointers to periodic tasks are the intervals at which libdessert runs them, `none` if it does not.
pub record Settings : Type 0 where
  pub l25_defsrc : ℕ
  pub meshifs : List MeshIface
  pub hello_interval : ℕ
  pub tracking_factor : ℕ
  pub dest_only : Bool
  pub ring_search : Bool
  pub gossip_type : GossipType
  pub metric_type : MetricType
  pub metric_startvalue : ℕ
  pub signal_strength_threshold : ℤ
  pub max_mac_seq_per_ext : ℕ
  pub addext : List (List LinkBreak) → ℕ → Bool
  pub hello_size : ℕ
  pub rreq_size : ℕ
  pub rreq_interval : ℕ
  pub send_hello_periodic : Option Timeval
  pub send_rreq_periodic : Option Timeval

-- What comes from outside while a handler runs: the results of `malloc`, the success of others,
-- the clock, the `malloc`s of schedules in a callback, the copy of a message, the draw of
-- `aodv_gossip_0`, what `dessert_rssi_avg` gives, what a variable holds that is not initialised, and
-- what a lookup by a key that is gone finds. The number is that of the call.
pub record Oracle : Type 0 where
  pub malloc : ℕ → Option ℕ
  pub memory : ℕ → Bool
  pub now : ℕ → Timeval
  pub sc_memory : ℕ → Bool
  pub clone : Msg → Msg
  pub lucky : Bool
  pub average : ℤ
  pub uninitialised : CaptRreqResult
  pub precursor_found : Bool

abbrev pub supply : Oracle → ℕ → Supply
supply o k = record { malloc = o.malloc k; memory = o.memory k; now = o.now k }

-- the calls after the first `k`
abbrev pub after : ℕ → Oracle → Oracle
after k o = record o {
  malloc = λ n. o.malloc (k + n);
  memory = λ n. o.memory (k + n);
  now = λ n. o.now (k + n);
}

-- a message without extensions, as `dessert_msg_new` makes it
abbrev pub empty_msg : Msg
empty_msg = record {
  l2_dhost = 2 ^ 48 - 1;
  l2_shost = 0;
  l25_dhost = 0;
  l25_shost = 0;
  ttl = 0;
  u8 = 0;
  u16 = 0;
  rreq = none;
  rrep = none;
  rerr = none;
  rerrdl = [];
  hello = none;
  payload = 0;
}

-- `ether_broadcast`
abbrev pub ether_broadcast : ℕ
ether_broadcast = 2 ^ 48 - 1

-- `msg->ttl--` and `msg->u8++` on a `uint8_t`
abbrev pub less_ttl : Msg → Msg
less_ttl msg = record msg { ttl = (msg.ttl + 255) % 256 }

abbrev pub more_hops : Msg → Msg
more_hops msg = record msg { u8 = (msg.u8 + 1) % 256 }
