-- ===== src/RoutingTable/Examples.antt =====
-- Examples on src/database/routing_table/aodv_rt.c.
use des_aodv.Common.{
  ℕ, ◌+◌, ◌≡◌, ◌≢◌, refl, true, false, ◌&&◌, ◌||◌, none, some, [], ◌∷◌, arith, is_some, is_neg,
  if◌then◌else◌,
}
use des_aodv.Table.{find, at_address}
use des_aodv.Clock.{clock, in_order, at_second}
use des_aodv.Helper.{hop_count, hf_comp_u32, hf_comp_metric}
use des_aodv.RoutingTable.{
  no_flags, RtEntry, RoutingTable, Supply, old, new, metric_hit, to_host, address, purge_rt_entry,
  find_or_create, capt_originator, capt_destination, aodv_db_rt_capt_rreq,
}
use des_aodv.RoutingTable.Capture.{IsSafe, Sound}
use des_aodv.RoutingTable.Hops.{maps, DistinctHops}
use des_aodv.RoutingTable.Rreq.{
  captured, with_dest, is_ahead, same_seq, capt_rreq-IsSafe, capt_rreq_result,
}
use des_aodv.RoutingTable.Rreq
use des_aodv.RoutingTable.Rrep
use des_aodv.RoutingTable.Rrep.{is_dropped, was_mapped, capt_destination_lem}
use des_aodv.RoutingTable.Stale.{moved_route_stale}

-- a route to host 17 over 20, and one to 18 that only RREQs for it made
abbrev pub known : RtEntry
known = record {
  self = 1000;
  addr = 17;
  next_hop = 20;
  output_iface = 1;
  sequence_number = 5;
  metric = 3;
  hop_count = 3;
  flags = no_flags;
  precursor_list = [];
}

abbrev pub unknown : RtEntry
unknown = record {
  self = 1001;
  addr = 18;
  next_hop = 0;
  output_iface = 0;
  sequence_number = 0;
  metric = 65535;
  hop_count = 255;
  flags = record no_flags { next_hop_unknown = true; route_invalid = true };
  precursor_list = [];
}

abbrev pub table : RoutingTable
table = record {
  routes = record {
    entries = known ∷ unknown ∷ [];
    nht =
        record { next_hop = 20; dest_list = record { destination_host = 17; rt_entry = 1000 } ∷ [] }
        ∷ [];
  };
  ts = record {
    elements =
        record { purge_time = at_second 8; object = 1000 }
        ∷ record { purge_time = at_second 9; object = 1001 }
        ∷ [];
    size = 2;
    purge_timeout = at_second 6;
  };
}

pub table-IsSafe : IsSafe in_order table
table-IsSafe = record {
  valid = record {
    sorted = ground arith;
    distinct = ground arith;
    counted = refl;
    small = omega arith;
  };
  safe = record { apart = (refl, (refl, tt)); owned = λ q h. ground (arith, h) };
}

abbrev pub supply : ℕ → Supply
supply a = record { malloc = some a; memory = true; now = at_second 4 }

pub table-Sound : (a : ℕ) → Sound in_order table (at_second 4) (supply (1002 + a))
table-Sound a = record { fresh = λ b h. ground (arith, h); early = omega arith; room = omega arith }

abbrev pub with_18 : RoutingTable
with_18 =
    with_dest in_order hop_count table 18 17 21 1 6 2 2 (at_second 4) (supply 1002) (supply 1003)

pub with_18-Sound : Sound in_order with_18 (at_second 4) (supply 1003)
unfolding find_or_create
with_18-Sound = table-Sound 1

capt_rreq-IsSafe_example :
    IsSafe in_order
      (aodv_db_rt_capt_rreq clock hop_count table 18 17 21 1 6 2 2
        (at_second 4)
        (supply 1002)
        (supply 1003)).0
capt_rreq-IsSafe_example =
    capt_rreq-IsSafe in_order hop_count table 18 17 21 1 6 2 2 (at_second 4) (supply 1002)
      (supply 1003) table-IsSafe (table-Sound 0) with_18-Sound

capt_rreq_result_example :
    let result =
      aodv_db_rt_capt_rreq clock hop_count table 18 17 21 1 6 2 2
        (at_second 4)
        (supply 1002)
        (supply 1003) in
    (o : RtEntry) × ((find_or_create clock with_18 17 (at_second 4) (supply 1003)).1 ≡ some o)
    × ((new ≡ (
          if same_seq in_order o 6 && is_neg (hf_comp_metric hop_count o.metric 2)
          then metric_hit
          else if is_ahead in_order o 6
          then new
          else old))
        × (find (to_host 17) result.0.routes.entries
            ≡ some (
                if is_ahead in_order o 6
                  || (same_seq in_order o 6 && is_neg (hf_comp_metric hop_count o.metric 2))
                then Rreq.updated in_order o 21 1 6 2 2
                else o)))
unfolding aodv_db_rt_capt_rreq find_or_create capt_originator hf_comp_u32
capt_rreq_result_example =
    capt_rreq_result in_order hop_count table 18 17 21 1 6 2 2 (at_second 4) (supply 1002)
      (supply 1003) new table-IsSafe (table-Sound 0) with_18-Sound refl

pub table-DistinctHops : DistinctHops table.routes.nht
table-DistinctHops = (refl, (refl, tt), tt)

capt_destination_lem_example :
    let (rt', used) = capt_destination clock table known 17 21 1 6 2 2 in
    DistinctHops rt'.routes.nht
    × (used ≡ true)
    × (find (to_host 17) rt'.routes.entries ≡ some (Rrep.updated known 21 1 6 2 2))
    × (maps 20 17 rt'.routes.nht ≡ none)
unfolding capt_destination hf_comp_u32
capt_destination_lem_example =
    capt_destination_lem clock table known 17 21 1 6 2 2 20 17 refl table-DistinctHops

moved : known.next_hop ≢ 21
moved h = omega arith

moved_route_stale_example :
    let purged =
      purge_rt_entry
        (at_second 8)
        1000
        (capt_originator clock hop_count table known 17 21 1 6 2 2).0.routes in
    (maps 20 17 purged.nht ≡ some 1000)
    × (is_some (find (at_address address 1000) purged.entries) ≡ false)
unfolding hf_comp_u32
moved_route_stale_example =
    moved_route_stale clock hop_count table known 17 21 1 6 2 2 (at_second 8) refl
      (refl, (refl, tt)) table-DistinctHops refl refl refl moved
