-- ===== src/PdrTracker/Examples.antt =====
-- Examples on src/database/pdr_tracker/pdr.c.
use des_aodv.Common.{◌≡◌, ◌↔◌, ◌⊎◌, refl, true, some, [], ◌∷◌, arith}
use des_aodv.Clock.{clock, at_second}
use des_aodv.PdrTracker.{PdrTable, PdrNeighbor, fault, pdr_nt_cleanup, aodv_db_pdr_nt_cap_hello}
use des_aodv.PdrTracker.Links.{aodv_db_pdr_nt_get_etx_add}
use des_aodv.PdrTracker.Values.{cap_hello_fault, get_etx_add_fault}

-- a neighbor that answered 5 of 10 HELLOs, and of which 8 of 10 came
abbrev pub neighbor : PdrNeighbor
neighbor = record {
  self = 1000;
  ether_neighbor = 17;
  hello_interv = 1000;
  expected_hellos = 10;
  nb_rcvd_hello_count = 5;
  hellos = record { msg_list = []; rcvd_hello_count = 8 };
  ts = record { elements = []; size = 0; purge_timeout = at_second 10 };
  purge_tv = at_second 20;
}

abbrev pub table : PdrTable
table = record {
  entries = neighbor ∷ [];
  nb_expected_hellos = 10;
  ts = record { elements = []; size = 0; purge_timeout = at_second 20 };
}

cap_hello_fault_example :
    aodv_db_pdr_nt_cap_hello clock 10 table 18 1 0
      (at_second 5)
      (some 1001)
      true
      true
      (some 1002)
      true
      (at_second 5)
    ≡ fault
cap_hello_fault_example =
    cap_hello_fault clock 10 table 18 1 1001 (at_second 5) true true (some 1002) true (at_second 5)
      refl

get_etx_add_fault_example : (aodv_db_pdr_nt_get_etx_add clock table 17 (at_second 5) ≡ fault) ↔ (
    ((pdr_nt_cleanup clock neighbor (at_second 5)).hellos.rcvd_hello_count ≡ 0)
    ⊎ (neighbor.nb_rcvd_hello_count ≡ 0))
get_etx_add_fault_example =
    get_etx_add_fault clock table 17 (at_second 5) neighbor refl (omega arith) (omega arith)
