-- ===== src/RoutingTable/Rrep.antt =====
-- What a captured RREP does to the routes and next hops of src/database/routing_table/aodv_rt.c.
use des_aodv.Common.{
  ℕ, ◌≡◌, refl, Bool, false, not, ◌&&◌, none, some, ◌==◌, if◌then◌else◌, is_pos, arith,
}
use des_aodv.Dessert.{Dessert}
use des_aodv.Helper.{hf_comp_u32}
use des_aodv.Table.{find, find-modify_self}
use des_aodv.RoutingTable.{RtEntry, RoutingTable, to_host, capt_destination, unmap}
use des_aodv.RoutingTable.Hops.{maps, DistinctHops}
use des_aodv.RoutingTable.Mapping.{map_dest-maps, unmap-maps}

-- what is stored for the destination
abbrev pub updated : RtEntry → ℕ → ℕ → ℕ → ℕ → ℕ → RtEntry
updated e next_hop iface seq metric hops = record e {
  next_hop = next_hop;
  output_iface = iface;
  sequence_number = seq;
  metric = metric;
  hop_count = hops;
  flags = record (e.flags) { next_hop_unknown = false; route_invalid = false; route_warn = false };
}

-- A RREP is dropped if the next hop is known and the known sequence number is ahead.
abbrev pub is_dropped : RtEntry → ℕ → Bool
is_dropped e seq = not e.flags.next_hop_unknown && is_pos (hf_comp_u32 e.sequence_number seq)

-- Whether the table maps this next hop to this destination in the old entry.
abbrev pub was_mapped : RtEntry → ℕ → ℕ → Bool
was_mapped e hop host = not e.flags.next_hop_unknown && ((e.next_hop == hop) && (e.addr == host))

module _ (D : Dessert) where
  -- For an entry that is in the table, and a next-hop table without doubles: a RREP is used
  -- unless the next hop is known and the known sequence number is ahead, so at equal sequence
  -- numbers it is used whatever the metrics are. If it is used the entry of the destination is
  -- updated, the old next hop does not map to the destination any more and the new one maps to
  -- the entry; all other mappings, and everything if the RREP is not used, stay as they were.
  pub capt_destination_lem :
      (rt : RoutingTable) (e : RtEntry) (destination next_hop iface seq metric hops hop host : ℕ)
      → find (to_host destination) rt.routes.entries ≡ some e
      → DistinctHops rt.routes.nht
      → let (rt', used) = capt_destination D rt e destination next_hop iface seq metric hops in
        DistinctHops rt'.routes.nht
        × (used ≡ not (is_dropped e seq))
        × (find (to_host destination) rt'.routes.entries
            ≡ some (if used then updated e next_hop iface seq metric hops else e))
        × (maps hop host rt'.routes.nht ≡ (
            if used && ((next_hop == hop) && (destination == host))
            then some e.self
            else if used && was_mapped e hop host
            then none
            else maps hop host rt.routes.nht))
  unfolding capt_destination
  capt_destination_lem rt e destination next_hop iface seq metric hops hop host found d =
      let unmapped =
        if not e.flags.next_hop_unknown
        then unmap e.next_hop e.addr rt.routes.nht
        else rt.routes.nht in
      let removed : DistinctHops unmapped
          × (maps hop host unmapped
              ≡ (if was_mapped e hop host then none else maps hop host rt.routes.nht)) =
        ground (arith, unmap-maps e.next_hop e.addr hop host rt.routes.nht d) in
      ground (
        arith,
        removed,
        map_dest-maps next_hop destination e.self hop host unmapped removed.0,
        find-modify_self (to_host destination) (λ x. updated x next_hop iface seq metric hops)
            rt.routes.entries e (λ x. refl) found,
      )
