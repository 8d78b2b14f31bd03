-- ===== src/Database/Routes.antt =====
-- src/database/aodv_database.c: the calls of the routing table.
use des_aodv.Common.{ℕ, Bool, Option, some, List, ℤ}
use des_aodv.Dessert.{Dessert, Timeval}
use des_aodv.Helper.{MetricType}
use des_aodv.RoutingTable
use des_aodv.RoutingTable.{RoutingTable, Flags, LinkBreak, CaptRreqResult, Supply}
use des_aodv.RoutingTable.Query
use des_aodv.Message.{Oracle, supply}
use des_aodv.Database.{Db, ◌>>=◌}

-- Lookups in the routing table.
unfoldable pub aodv_db_getnexthop : Db → ℕ → Option ℕ
aodv_db_getnexthop db addr = Query.aodv_db_rt_getnexthop db.rt addr

unfoldable pub aodv_db_get_destination_sequence_number : Db → ℕ → Bool × ℕ
aodv_db_get_destination_sequence_number db addr =
    Query.aodv_db_rt_get_destination_sequence_number db.rt addr

unfoldable pub aodv_db_get_hopcount : Db → ℕ → Bool × ℕ
aodv_db_get_hopcount db addr = Query.aodv_db_rt_get_hopcount db.rt addr

unfoldable pub aodv_db_get_metric : Db → ℕ → Bool × ℕ
aodv_db_get_metric db addr = Query.aodv_db_rt_get_metric db.rt addr

unfoldable pub aodv_db_get_warn_status : Db → ℕ → Bool
aodv_db_get_warn_status db addr = Query.aodv_db_rt_get_warn_status db.rt addr

unfoldable pub aodv_db_get_active_routes : Db → List LinkBreak
aodv_db_get_active_routes db = Query.aodv_db_rt_get_active_routes db.rt

-- The outer `none` is a pointer to no entry.
unfoldable pub aodv_db_get_destlist : Db → ℕ → Option (Option (List LinkBreak))
aodv_db_get_destlist db hop = Query.aodv_db_rt_get_destlist db.rt hop

-- Changes of the routing table.
unfoldable pub aodv_db_markrouteinv : Db → ℕ → ℕ → Db × Bool
aodv_db_markrouteinv db addr seq =
    let (rt, marked) = Query.aodv_db_rt_markrouteinv db.rt addr seq in
    (record db { rt = rt }, marked)

unfoldable pub aodv_db_add_precursor : Db → ℕ → ℕ → ℕ → Bool → Db × Bool
aodv_db_add_precursor db dest precursor iface found =
    let (rt, added) = Query.aodv_db_rt_add_precursor db.rt dest precursor iface found in
    (record db { rt = rt }, added)

unfoldable pub aodv_db_remove_nexthop : Db → ℕ → Db × Bool
aodv_db_remove_nexthop db hop =
    let (rt, removed) = Query.aodv_db_rt_remove_nexthop db.rt hop in
    (record db { rt = rt }, removed)

unfoldable pub aodv_db_inv_over_nexthop : Db → ℕ → Option (Db × Bool)
aodv_db_inv_over_nexthop db hop = do
  (rt, found) ← Query.aodv_db_rt_inv_over_nexthop db.rt hop
  some (record db { rt = rt }, found)

unfoldable pub aodv_db_get_warn_endpoints_from_neighbor_and_set_warn :
    Db → ℕ → Option (Db × Option (List LinkBreak))
aodv_db_get_warn_endpoints_from_neighbor_and_set_warn db neighbor = do
  (rt, head) ← Query.aodv_db_rt_get_warn_endpoints_from_neighbor_and_set_warn db.rt neighbor
  some (record db { rt = rt }, head)

unfoldable pub aodv_db_routing_reset : Db → Db × ℕ
aodv_db_routing_reset db =
    let (rt, count) = Query.aodv_db_rt_routing_reset db.rt in (record db { rt = rt }, count)

module _ (D : Dessert) where
  unfoldable pub aodv_db_capt_rreq :
      Db → MetricType → Oracle → ℕ → ℕ → ℕ → ℕ → ℕ → ℕ → ℕ → Timeval → Db × Option CaptRreqResult
  aodv_db_capt_rreq db metric_type o dest orig prev_hop iface seq metric hops timestamp =
      let (rt, result) =
        RoutingTable.aodv_db_rt_capt_rreq D metric_type db.rt dest orig prev_hop iface seq metric
          hops timestamp (supply o 0) (supply o 1) in
      (record db { rt = rt }, result)

  unfoldable pub aodv_db_capt_rrep : Db → ℤ → Oracle → ℕ → ℕ → ℕ → ℕ → ℕ → ℕ → Timeval → Db × Bool
  aodv_db_capt_rrep db threshold o dest next_hop iface seq metric hops timestamp =
      let (rt, nt, used) =
        RoutingTable.aodv_db_rt_capt_rrep D threshold db.rt db.nt dest next_hop iface seq metric
          hops timestamp (supply o 0) in
      (record db { rt = rt; nt = nt }, used)

  unfoldable pub aodv_db_getroute2dest : Db → Oracle → ℕ → Timeval → Flags → Db × Option (ℕ × ℕ)
  aodv_db_getroute2dest db o dhost timestamp flags =
      let (rt, route) =
        Query.aodv_db_rt_getroute2dest D db.rt dhost timestamp flags (o.memory 0) (o.now 0) in
      (record db { rt = rt }, route)
