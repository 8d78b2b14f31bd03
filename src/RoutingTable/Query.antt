-- ===== src/RoutingTable/Query.antt =====
-- The reading and marking functions of src/database/routing_table/aodv_rt.c.
-- Where the source follows a pointer from the next-hop table to an entry, `none` stands for a
-- pointer to no entry. An out parameter is part of the result.
use des_aodv.Common.{
  ◌&&◌, ℕ, ◌+◌, ◌%◌, ◌^◌, ◌++◌, Bool, true, false, not, ◌||◌, Option, none, some, List, [], ◌∷◌,
  if◌then◌else◌, is_pos, is_some,
}
use des_aodv.Config.{max_metric}
use des_aodv.Dessert.{Dessert, Timeval}
use des_aodv.Helper.{hf_comp_u32}
use des_aodv.Timeslot
use des_aodv.Table.{add, find, remove, modify, at_address}
use des_aodv.RoutingTable.{
  Flags, or_flags, RtEntry, DestEntry, RoutingTable, LinkBreak, to_host, over, address, is_empty,
  set_entry, purge_rt_entry, touch,
}

-- the entry of a host
abbrev pub route : RoutingTable → ℕ → Option RtEntry
route rt addr = find (to_host addr) rt.routes.entries

-- `rt_entry == NULL || rt_entry->flags & AODV_FLAGS_NEXT_HOP_UNKNOWN` is the case `none`.
abbrev pub known_route : RoutingTable → ℕ → Option RtEntry
known_route rt addr = elim (route rt addr) [
  | none ↦ none
  | some e ↦ if e.flags.next_hop_unknown then none else some e
]

module _ (D : Dessert) where
  -- The next hop and the interface, `none` for false.
  unfoldable pub aodv_db_rt_getroute2dest :
      RoutingTable → ℕ → Timeval → Flags → Bool → Timeval → RoutingTable × Option (ℕ × ℕ)
  aodv_db_rt_getroute2dest rt addr timestamp flags memory now = elim (route rt addr) [
    | none ↦ (rt, none)
    | some e ↦ if e.flags.next_hop_unknown || e.flags.route_invalid then (rt, none) else (
      touch D (set_entry addr (λ x. record x { flags = or_flags x.flags flags }) rt) timestamp
          e.self memory now,
      some (e.next_hop, e.output_iface),
    )
  ]

  unfoldable pub aodv_db_rt_cleanup : RoutingTable → Timeval → RoutingTable
  aodv_db_rt_cleanup rt timestamp =
      let (ts, routes) = Timeslot.purgeobjects D purge_rt_entry rt.ts timestamp rt.routes in
      record { routes = routes; ts = ts }

unfoldable pub aodv_db_rt_getnexthop : RoutingTable → ℕ → Option ℕ
aodv_db_rt_getnexthop rt addr = elim (known_route rt addr) [
  | none ↦ none
  | some e ↦ some e.next_hop
]

pub aodv_db_rt_get_destination_sequence_number : RoutingTable → ℕ → Bool × ℕ
aodv_db_rt_get_destination_sequence_number rt addr = elim (known_route rt addr) [
  | none ↦ (false, 0)
  | some e ↦ (true, e.sequence_number)
]

pub aodv_db_rt_get_hopcount : RoutingTable → ℕ → Bool × ℕ
aodv_db_rt_get_hopcount rt addr = elim (known_route rt addr) [
  | none ↦ (false, 255)
  | some e ↦ (true, e.hop_count)
]

pub aodv_db_rt_get_metric : RoutingTable → ℕ → Bool × ℕ
aodv_db_rt_get_metric rt addr = elim (known_route rt addr) [
  | none ↦ (false, max_metric)
  | some e ↦ (true, e.metric)
]

pub aodv_db_rt_get_warn_status : RoutingTable → ℕ → Bool
aodv_db_rt_get_warn_status rt addr = elim (known_route rt addr) [
  | none ↦ false
  | some e ↦ e.flags.route_warn
]

-- `flags |= AODV_FLAGS_ROUTE_INVALID`
abbrev pub invalidate : RtEntry → RtEntry
invalidate e = record e { flags = record (e.flags) { route_invalid = true } }

unfoldable pub aodv_db_rt_markrouteinv : RoutingTable → ℕ → ℕ → RoutingTable × Bool
aodv_db_rt_markrouteinv rt addr seq = elim (route rt addr) [
  | none ↦ (rt, false)
  | some e ↦
      if is_pos (hf_comp_u32 e.sequence_number seq)
      then (rt, false)
      else (set_entry addr invalidate rt, true)
]

-- The destinations over a next hop, with their sequence numbers.
pub list_dests : List DestEntry → List RtEntry → Option (List LinkBreak)
list_dests [] entries = some []
list_dests (d ∷ ds) entries = elim (find (at_address address d.rt_entry) entries) [
  | none ↦ none
  | some e ↦ elim (list_dests ds entries) [
    | none ↦ none
    | some els ↦ some (record { host = e.addr; sequence_number = e.sequence_number } ∷ els)
  ]
]

-- The outer `none` is a pointer to no entry, the inner one is false.
pub aodv_db_rt_get_destlist : RoutingTable → ℕ → Option (Option (List LinkBreak))
aodv_db_rt_get_destlist rt hop = elim (find (over hop) rt.routes.nht) [
  | none ↦ some none
  | some n ↦ elim (list_dests n.dest_list rt.routes.entries) [
    | none ↦ none
    | some els ↦ some (some els)
  ]
]

pub invalidate_dests : List DestEntry → List RtEntry → Option (List RtEntry)
invalidate_dests [] entries = some entries
invalidate_dests (d ∷ ds) entries =
    let rest = invalidate_dests ds (modify (at_address address d.rt_entry) invalidate entries) in
    if is_some (find (at_address address d.rt_entry) entries) then rest else none

pub aodv_db_rt_inv_over_nexthop : RoutingTable → ℕ → Option (RoutingTable × Bool)
aodv_db_rt_inv_over_nexthop rt hop = elim (find (over hop) rt.routes.nht) [
  | none ↦ some (rt, false)
  | some n ↦ elim (invalidate_dests n.dest_list rt.routes.entries) [
    | none ↦ none
    | some entries ↦ some (record rt { routes = record (rt.routes) { entries = entries } }, true)
  ]
]

pub aodv_db_rt_remove_nexthop : RoutingTable → ℕ → RoutingTable × Bool
aodv_db_rt_remove_nexthop rt hop =
    if is_some (find (over hop) rt.routes.nht)
    then (record rt { routes = record (rt.routes) { nht = remove (over hop) rt.routes.nht } }, true)
    else (rt, false)

-- The loop of `aodv_db_rt_get_warn_endpoints_from_neighbor_and_set_warn`.
pub warn_loop :
    List DestEntry → List RtEntry → List LinkBreak → Option (List RtEntry × List LinkBreak)
warn_loop [] entries head = some (entries, head)
warn_loop (d ∷ ds) entries head = elim (find (at_address address d.rt_entry) entries) [
  | none ↦ none
  | some e ↦ elim (e.flags.route_warn || not e.flags.local_used) [
    | true ↦ warn_loop ds entries head
    | false ↦
        warn_loop ds
          (modify (at_address address d.rt_entry)
            (λ x. record x { flags = record (x.flags) { route_warn = true } }) entries)
          (head ++ (record { host = e.addr; sequence_number = e.sequence_number } ∷ []))
  ]
]

pub aodv_db_rt_get_warn_endpoints_from_neighbor_and_set_warn :
    RoutingTable → ℕ → Option (RoutingTable × Option (List LinkBreak))
aodv_db_rt_get_warn_endpoints_from_neighbor_and_set_warn rt neighbor =
    elim (find (over neighbor) rt.routes.nht) [
      | none ↦ some (rt, none)
      | some n ↦
          if is_empty n.dest_list
          then some (rt, none)
          else elim (warn_loop n.dest_list rt.routes.entries []) [
            | none ↦ none
            | some (entries, head) ↦
                some (record rt { routes = record (rt.routes) { entries = entries } }, some head)
          ]
    ]

-- The elements are zeroed, so their sequence numbers are 0.
pub active_routes : List RtEntry → List LinkBreak
active_routes [] = []
active_routes (e ∷ es) =
    if e.flags.local_used
    then record { host = e.addr; sequence_number = 0 } ∷ active_routes es
    else active_routes es

pub aodv_db_rt_get_active_routes : RoutingTable → List LinkBreak
aodv_db_rt_get_active_routes rt = active_routes rt.routes.entries

unfoldable pub reset_loop : List RtEntry → ℕ → List RtEntry × ℕ
reset_loop [] count = ([], count)
reset_loop (e ∷ es) count =
    let (es', total) = reset_loop es ((count + 1) % 2 ^ 32) in (invalidate e ∷ es', total)

unfoldable pub aodv_db_rt_routing_reset : RoutingTable → RoutingTable × ℕ
aodv_db_rt_routing_reset rt =
    let (entries, count) = reset_loop rt.routes.entries 0 in
    (record rt { routes = record (rt.routes) { entries = entries } }, count)

-- The key of a precursor is a pointer to the caller's argument, which is gone when the next call
-- looks for it: what the lookup gives is the argument `found`. A failing `malloc` is not tested for.
unfoldable pub aodv_db_rt_add_precursor : RoutingTable → ℕ → ℕ → ℕ → Bool → RoutingTable × Bool
aodv_db_rt_add_precursor rt addr precursor_addr iface found =
    if is_some (route rt addr) && not found
    then (
      set_entry addr
          (λ e. record e {
            precursor_list = add (record { addr = precursor_addr; iface = iface }) e.precursor_list;
          })
          rt,
      true,
    )
    else (rt, false)
