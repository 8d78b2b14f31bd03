-- ===== src/RoutingTable/Stale.antt =====
-- The next-hop table of src/database/routing_table/aodv_rt.c after a RREQ moves a route to another
-- next hop.
use des_aodv.Common.{
  ℕ, ◌≡◌, ◌≢◌, refl, Bool, true, false, some, List, [], ◌∷◌, is_some, is_neg, arith,
}
use des_aodv.Dessert.{Dessert, Timeval}
use des_aodv.Helper.{MetricType, hf_comp_u32}
use des_aodv.Table.{
  find, modify, at_address, Apart, modify-Apart, find-remove, find-modify_self, find-at_address,
}
use des_aodv.RoutingTable.{RtEntry, RoutingTable, to_host, address, purge_rt_entry, capt_originator}
use des_aodv.RoutingTable.Hops.{maps, DistinctHops}
use des_aodv.RoutingTable.Mapping.{unmap-maps}

-- The pointer to what is found leads to it.
pub find_pointer :
    (p : RtEntry → Bool) (es : List RtEntry) (e : RtEntry)
    → Apart address es
    → find p es ≡ some e
    → find (at_address address e.self) es ≡ some e
find_pointer p [] e a h = absurd (cc)
find_pointer p (x ∷ es) e a h =
    ground (arith, find_pointer p es e a.1, find-at_address address p es e)

-- Take an entry with a known next hop, which the next-hop table maps to the entry, no two
-- entries sharing an address and no next hop or destination being there twice. After a RREQ
-- that is ahead moves the route to another hop, and the entry is purged, the next-hop table
-- still maps the old next hop to the address of the entry, at which there is no entry.
pub moved_route_stale :
    (D : Dessert) (m : MetricType) (rt : RoutingTable) (o : RtEntry)
    (originator prev_hop iface seq metric hops : ℕ) (t : Timeval)
    → find (to_host originator) rt.routes.entries ≡ some o
    → Apart address rt.routes.entries
    → DistinctHops rt.routes.nht
    → o.flags.next_hop_unknown ≡ false
    → maps o.next_hop originator rt.routes.nht ≡ some o.self
    → is_neg (hf_comp_u32 o.sequence_number seq) ≡ true
    → o.next_hop ≢ prev_hop
    → let routes = (capt_originator D m rt o originator prev_hop iface seq metric hops).0.routes in
      let purged = purge_rt_entry t o.self routes in
      (maps o.next_hop originator purged.nht ≡ some o.self)
      × (is_some (find (at_address address o.self) purged.entries) ≡ false)
unfolding capt_originator purge_rt_entry
moved_route_stale D m rt o originator prev_hop iface seq metric hops t found apart distinct known
      mapped newer moved =
    let update = λ (e : RtEntry). record e {
      next_hop = prev_hop;
      output_iface = iface;
      sequence_number = seq;
      metric = metric;
      hop_count = hops;
      flags = record (e.flags) { route_new = false };
    } in
    let entries = modify (to_host originator) update rt.routes.entries in
    let apart' =
      modify-Apart address (to_host originator) update rt.routes.entries (λ e. refl) apart in
    let here =
      find_pointer (to_host originator) entries (update o) apart'
        (find-modify_self (to_host originator) update rt.routes.entries o (λ e. refl) found) in
    ground (
      arith,
      newer,
      here,
      known,
      mapped,
      moved,
      find-remove address o.self o.self entries apart',
      unmap-maps prev_hop o.addr o.next_hop originator rt.routes.nht distinct,
    )
