-- ===== src/RoutingTable/Lookup.antt =====
-- What the lookup of a route in src/database/routing_table/aodv_rt.c gives after the other operations.
use des_aodv.Common.{
  ℕ, ◌+◌, ◌^◌, ◌<◌, ◌≡◌, refl, Bool, ◌||◌, Option, none, some, List, [], ◌∷◌, if◌then◌else◌,
  Option-cases, inl, inr, arith, length,
}
use des_aodv.Dessert.{Dessert, Timeval}
use des_aodv.Table.{find, modify, find-modify_self}
use des_aodv.RoutingTable.{Flags, RtEntry, RoutingTable, to_host, capt_destination}
use des_aodv.RoutingTable.Hops.{DistinctHops}
use des_aodv.RoutingTable.Query.{
  invalidate, aodv_db_rt_getroute2dest, aodv_db_rt_markrouteinv, reset_loop,
  aodv_db_rt_routing_reset,
}
use des_aodv.RoutingTable.Rrep.{capt_destination_lem}

module _ (D : Dessert) where
  -- what a lookup gives, whatever the flags and the clock
  abbrev pub next_hop_to : RoutingTable → ℕ → Timeval → Flags → Bool → Timeval → Option (ℕ × ℕ)
  next_hop_to rt addr timestamp flags memory now =
      (aodv_db_rt_getroute2dest D rt addr timestamp flags memory now).1

  getroute2dest_lem :
      (rt : RoutingTable) (addr : ℕ) (timestamp : Timeval) (flags : Flags) (memory : Bool)
      (now : Timeval)
      → next_hop_to rt addr timestamp flags memory now
        ≡ elim (find (to_host addr) rt.routes.entries) [
          | none ↦ none
          | some e ↦
              if e.flags.next_hop_unknown || e.flags.route_invalid
              then none
              else some (e.next_hop, e.output_iface)
        ]
  unfolding aodv_db_rt_getroute2dest
  getroute2dest_lem rt addr timestamp flags memory now =
      elim (Option-cases (find (to_host addr) rt.routes.entries)) [
        | inl absent ↦ ground (arith, absent)
        | inr (e, here) ↦ ground (arith, here)
      ]

  -- After a route was marked invalid the lookup of its host gives no next hop; if the marking
  -- returns false the lookup gives what it gave before.
  pub markrouteinv_route :
      (rt : RoutingTable) (addr seq : ℕ) (timestamp : Timeval) (flags : Flags) (memory : Bool)
      (now : Timeval)
      → let (rt', marked) = aodv_db_rt_markrouteinv rt addr seq in
        next_hop_to rt' addr timestamp flags memory now
        ≡ (if marked then none else next_hop_to rt addr timestamp flags memory now)
  unfolding aodv_db_rt_markrouteinv
  markrouteinv_route rt addr seq timestamp flags memory now =
      elim (Option-cases (find (to_host addr) rt.routes.entries)) [
        | inl absent ↦ ground (arith, absent)
        | inr (e, here) ↦ ground (
          arith,
          here,
          getroute2dest_lem
              (record rt {
                routes = record (rt.routes) {
                  entries = modify (to_host addr) invalidate rt.routes.entries;
                };
              })
              addr timestamp flags memory now,
          find-modify_self (to_host addr) invalidate rt.routes.entries e (λ x. refl) here,
        )
      ]

  -- For an entry that is in the table, and a next-hop table without doubles: after a RREP that
  -- is used the lookup of the destination gives the next hop and the interface of the RREP;
  -- after one that is not used it gives what it gave before.
  pub capt_destination_route :
      (rt : RoutingTable) (e : RtEntry) (destination next_hop iface seq metric hops : ℕ)
      (timestamp : Timeval) (flags : Flags) (memory : Bool) (now : Timeval)
      → find (to_host destination) rt.routes.entries ≡ some e
      → DistinctHops rt.routes.nht
      → let (rt', used) = capt_destination D rt e destination next_hop iface seq metric hops in
        next_hop_to rt' destination timestamp flags memory now ≡ (
          if used
          then some (next_hop, iface)
          else next_hop_to rt destination timestamp flags memory now)
  capt_destination_route rt e destination next_hop iface seq metric hops timestamp flags memory now
        found distinct =
      let rt' = (capt_destination D rt e destination next_hop iface seq metric hops).0 in
      let captured =
        capt_destination_lem D rt e destination next_hop iface seq metric hops next_hop destination
          found distinct in
      ground (
        arith,
        captured.1,
        captured.2,
        found,
        getroute2dest_lem rt' destination timestamp flags memory now,
        getroute2dest_lem rt destination timestamp flags memory now,
      )

  reset_loop_lem :
      (es : List RtEntry) (count addr : ℕ)
      → count + length es < 2 ^ 32
      → ((reset_loop es count).1 ≡ count + length es)
        × (find (to_host addr) (reset_loop es count).0
            ≡ elim (find (to_host addr) es) [ none ↦ none | some e ↦ some (invalidate e) ])
  unfolding reset_loop
  reset_loop_lem [] count addr room = (omega arith, refl)
  reset_loop_lem (e ∷ es) count addr room = ground (arith, reset_loop_lem es (count + 1) addr)

  -- With less than 2 ^ 32 entries, a reset of the routing table returns the number of entries,
  -- and then no lookup gives a next hop.
  pub routing_reset_routes :
      (rt : RoutingTable) (addr : ℕ) (timestamp : Timeval) (flags : Flags) (memory : Bool)
      (now : Timeval)
      → length rt.routes.entries < 2 ^ 32
      → let (rt', count) = aodv_db_rt_routing_reset rt in
        (count ≡ length rt.routes.entries)
        × (next_hop_to rt' addr timestamp flags memory now ≡ none)
  unfolding aodv_db_rt_routing_reset
  routing_reset_routes rt addr timestamp flags memory now room =
      let (total, looked_up) = reset_loop_lem rt.routes.entries 0 addr (omega (arith, room)) in
      let rt' = (aodv_db_rt_routing_reset rt).0 in
      elim (Option-cases (find (to_host addr) rt.routes.entries)) [
        | inl absent ↦
            ground (
              arith,
              total,
              looked_up,
              absent,
              getroute2dest_lem rt' addr timestamp flags memory now,
            )
        | inr (e, here) ↦
            ground
              (arith, total, looked_up, here, getroute2dest_lem rt' addr timestamp flags memory now)
      ]
