-- ===== src/Daemon/Sample.antt =====
-- A state of the daemon, and what comes from outside, for examples.
use des_aodv.Common.{ℕ, Bool, true, false, none, some, [], ◌∷◌, ◌+◌, leb, pos}
use des_aodv.Clock.{at_second}
use des_aodv.Helper.{hop_count}
use des_aodv.Gossip.{gossip_none}
use des_aodv.Timeslot.{Timeslot}
use des_aodv.RateLog.{RateLog}
use des_aodv.RoutingTable.{old, LinkBreak}
use des_aodv.RoutingTable.Examples.{table}
use des_aodv.DataSeq.Examples.{no_packets}
use des_aodv.Message.{Msg, RreqExt, Settings, Oracle, RxFlags, MeshIface, empty_msg}
use des_aodv.Daemon.{Daemon, Series}

abbrev pub no_objects : Timeslot
no_objects = record { elements = []; size = 0; purge_timeout = at_second 6 }

abbrev pub no_messages : RateLog
no_messages = record {
  ts = record no_objects { purge_timeout = at_second 1 };
  count = 0;
  pseudo_pointer = 0;
}

-- One interface, with hardware address 7; an extension has room for two destinations.
abbrev pub settings : Settings
settings = record {
  l25_defsrc = 5;
  meshifs = record { self = 1; hwaddr = 7 } ∷ [];
  hello_interval = 1000;
  tracking_factor = 2;
  dest_only = false;
  ring_search = true;
  gossip_type = gossip_none;
  metric_type = hop_count;
  metric_startvalue = 0;
  signal_strength_threshold = pos 0;
  max_mac_seq_per_ext = 2;
  addext = λ exts k. leb k 2;
  hello_size = 128;
  rreq_size = 128;
  rreq_interval = 0;
  send_hello_periodic = some (at_second 1);
  send_rreq_periodic = none;
}

abbrev pub interface : MeshIface
interface = record { self = 1; hwaddr = 7 }

-- Memory does not run out, and the clock is at eight seconds.
abbrev pub oracle : Oracle
oracle = record {
  malloc = λ n. some (2000 + n);
  memory = λ n. true;
  now = λ n. at_second 8;
  sc_memory = λ n. true;
  clone = λ m. m;
  lucky = true;
  average = pos 0;
  uninitialised = old;
  precursor_found = false;
}

abbrev pub data_packet : ℕ → Msg
data_packet payload = record empty_msg {
  l25_shost = 5;
  l25_dhost = 17;
  ttl = 255;
  payload = payload;
}

abbrev pub rreq_ext : RreqExt
rreq_ext = record {
  unknown_seq_num = false;
  dest_only = false;
  destination_sequence_number = 40;
  originator_sequence_number = 6;
}

-- a RREQ of host 17 for us
abbrev pub rreq_msg : Msg
rreq_msg = record empty_msg {
  l2_shost = 21;
  l25_shost = 17;
  l25_dhost = 5;
  ttl = 9;
  u8 = 2;
  u16 = 2;
  rreq = some rreq_ext;
}

-- a search for host 18
abbrev pub search : Series
search = record {
  self = 3000;
  msg = record empty_msg { l25_shost = 5; l25_dhost = 18; ttl = 1; rreq = some rreq_ext };
  retries = 0;
  key = 18;
  stop = false;
}

-- Two packets wait for host 17, one for 18, and a search for 18 is running.
abbrev pub daemon : Daemon
daemon = record {
  db = record {
    nt = record { state = record { entries = []; schedules = [] }; ts = no_objects };
    pdr = record { entries = []; nb_expected_hellos = 10; ts = no_objects };
    ds = no_packets;
    rt = table;
    pb = record {
      entries =
          record {
            self = 1000;
            dhost_ether = 17;
            fl = record { msgs = data_packet 1 ∷ data_packet 2 ∷ []; size = 2 };
          }
          ∷ record {
            self = 1001;
            dhost_ether = 18;
            fl = record { msgs = data_packet 3 ∷ []; size = 1 };
          }
          ∷ [];
      ts = no_objects;
    };
    rerr_log = no_messages;
    rreq_log = no_messages;
  };
  seq_num_global = 1;
  data_seq_global = 65535;
  seq_num_hello = 0;
  series = search ∷ [];
  gossip = record { hold_queue = []; periodic = false; tasks = 0 };
}

abbrev pub flags_of : Bool → Bool → RxFlags
flags_of broadcast for_us = record {
  l2_src = false;
  l25_src = false;
  l2_dst = true;
  l25_dst = for_us;
  l25_broadcast = broadcast;
  l25_multicast = false;
}

-- a destination that a RERR reports
abbrev pub broken : ℕ → LinkBreak
broken host = record { host = host; sequence_number = 5 }
