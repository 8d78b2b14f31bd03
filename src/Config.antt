-- ===== src/Config.antt =====
-- The constants of src/config.h that the model uses; times are in milliseconds.
use des_aodv.Common.{ℕ, ◌*◌, Bool, true, false, ℤ, pos, negsuc}

abbrev pub rreq_retries : ℕ
rreq_retries = 5

abbrev pub active_route_timeout : ℕ
active_route_timeout = 3000

abbrev pub allowed_hello_lost : ℕ
allowed_hello_lost = 4

abbrev pub node_traversal_time : ℕ
node_traversal_time = 20

abbrev pub net_diameter : ℕ
net_diameter = 16

abbrev pub net_traversal_time : ℕ
net_traversal_time = 2 * node_traversal_time * net_diameter

abbrev pub blacklist_timeout : ℕ
blacklist_timeout = rreq_retries * net_traversal_time

abbrev pub my_route_timeout : ℕ
my_route_timeout = 2 * active_route_timeout

abbrev pub max_metric : ℕ
max_metric = 65535

-- The types of schedules, `AODV_SC_…`.
abbrev pub sc_repeat_rreq : ℕ
sc_repeat_rreq = 2

abbrev pub sc_send_out_rerr : ℕ
sc_send_out_rerr = 3

abbrev pub sc_send_out_rwarn : ℕ
sc_send_out_rwarn = 4

abbrev pub sc_update_rssi : ℕ
sc_update_rssi = 5

-- `AODV_SIGNAL_STRENGTH_INIT` is -120.
abbrev pub signal_strength_init : ℤ
signal_strength_init = negsuc 119

abbrev pub pdr_tracking_purge_factor : ℕ
pdr_tracking_purge_factor = 2

abbrev pub pdr_min_tracking_interval : ℕ
pdr_min_tracking_interval = 500

abbrev pub rreq_ratelimit : ℕ
rreq_ratelimit = 10

abbrev pub rerr_ratelimit : ℕ
rerr_ratelimit = 10

abbrev pub ttl_start : ℕ
ttl_start = 1

abbrev pub ttl_increment : ℕ
ttl_increment = 2

abbrev pub ttl_threshold : ℕ
ttl_threshold = 7

abbrev pub ttl_max : ℕ
ttl_max = 255

abbrev pub max_mesh_ifaces_count : ℕ
max_mesh_ifaces_count = 8

-- the settings as the daemon starts
abbrev pub hello_interval : ℕ
hello_interval = 1000

abbrev pub hello_size : ℕ
hello_size = 128

abbrev pub rreq_size : ℕ
rreq_size = 128

abbrev pub dest_only : Bool
dest_only = false

abbrev pub ring_search : Bool
ring_search = true

abbrev pub metric_startval : ℕ
metric_startval = 0

abbrev pub pdr_tracking_factor : ℕ
pdr_tracking_factor = 10

-- 0 is off
abbrev pub rreq_interval : ℕ
rreq_interval = 0

-- 0 is off
abbrev pub signal_strength_threshold : ℤ
signal_strength_threshold = pos 0
