-- ===== src/NeighborTable/Examples.antt =====
-- Examples on src/database/neighbor_table/nt.c.
use des_aodv.Common.{ℕ, ◌≡◌, refl, Bool, true, none, some, [], ◌∷◌, arith, pos}
use des_aodv.Clock.{clock, in_order, at_second}
use des_aodv.Timeslot.Refine.{IsValid}
use des_aodv.NeighborTable.{Neighbor, NeighborTable, db_nt_cap2_dneigh, db_nt_cleanup}
use des_aodv.NeighborTable.Rssi.{neg}
use des_aodv.NeighborTable.Safety.{IsSafe, cap2_dneigh-IsSafe}
use des_aodv.NeighborTable.Heard.{HeardUntil, cap2_dneigh-HeardUntil}
use des_aodv.NeighborTable.Timeout.{rerr_scheduled, cleanup_schedules_rerr}

abbrev pub neighbor : Neighbor
neighbor = record {
  self = 1000;
  ether_neighbor = 17;
  iface = 1;
  last_hello_seq = 3;
  max_rssi = neg 50;
}

-- a neighbor whose entry runs out at the fifth second
abbrev pub table : NeighborTable
table = record {
  state = record { entries = neighbor ∷ []; schedules = [] };
  ts = record {
    elements = record { purge_time = at_second 5; object = 1000 } ∷ [];
    size = 1;
    purge_timeout = at_second 5;
  };
}

-- No `malloc` fails.
abbrev pub memory : ℕ → Bool
memory o = true

pub table-IsValid : IsValid in_order table.ts
table-IsValid = record {
  sorted = ground arith;
  distinct = ground arith;
  counted = refl;
  small = omega arith;
}

pub table-IsSafe : IsSafe in_order memory table
table-IsSafe = record {
  valid = table-IsValid;
  safe = record { apart = (refl, tt); owned = λ q h. ground (arith, h) };
}

cap2_dneigh-IsSafe_example :
    IsSafe in_order memory
      (db_nt_cap2_dneigh clock table 18 1 1
        (pos 0)
        (at_second 2)
        (some 1001)
        true
        true
        memory
        (at_second 2)).0
cap2_dneigh-IsSafe_example =
    cap2_dneigh-IsSafe in_order memory table 18 1 1 (pos 0) (at_second 2) (some 1001) true true
      (at_second 2) table-IsSafe (omega arith) refl

cap2_dneigh-HeardUntil_example :
    HeardUntil in_order memory
      (db_nt_cap2_dneigh clock table 17 4 1
        (pos 0)
        (at_second 2)
        none
        true
        true
        memory
        (at_second 2)).0
      17
      1
      (at_second 7)
unfolding db_nt_cap2_dneigh
cap2_dneigh-HeardUntil_example =
    cap2_dneigh-HeardUntil in_order memory table 17 4 1 (pos 0) (at_second 2) none true
      (at_second 2) table-IsSafe (omega arith) tt (omega arith) refl

cleanup_schedules_rerr_example :
    rerr_scheduled clock 17 (db_nt_cleanup clock table memory (at_second 6)).state ≡ true
cleanup_schedules_rerr_example =
    cleanup_schedules_rerr clock in_order table memory (at_second 6) 1000 neighbor table-IsValid tt
      (λ p. refl) refl refl
