-- ===== src/DataSeq/Examples.antt =====
-- Examples on src/database/data_seq/ds.c.
use des_aodv.Common.{◌+◌, ◌-◌, ◌%◌, ◌^◌, ◌≡◌, refl, true, some, [], arith}
use des_aodv.Clock.{clock, in_order, at_second}
use des_aodv.DataSeq.{DataSeq, is_newer, aodv_db_ds_capt_data_seq}
use des_aodv.DataSeq.Newer.{is_newer_behind}
use des_aodv.DataSeq.Safety.{IsSafe, capt_data_seq-IsSafe}

abbrev pub no_packets : DataSeq
no_packets = record {
  entries = [];
  ts = record { elements = []; size = 0; purge_timeout = at_second 6 };
}

pub no_packets-IsSafe : IsSafe in_order no_packets
no_packets-IsSafe = record {
  valid = record { sorted = tt; distinct = tt; counted = refl; small = omega arith };
  safe = record { apart = tt; owned = λ q h. cc };
}

is_newer_behind_example : is_newer 2 ((2 + 2 ^ 16 - 5) % 2 ^ 16) ≡ true
is_newer_behind_example = is_newer_behind 2 5 (omega arith) (omega arith) (omega arith)

capt_data_seq-IsSafe_example :
    IsSafe in_order
      (aodv_db_ds_capt_data_seq clock no_packets 17 4 1
        (at_second 8)
        (some 1000)
        true
        (at_second 8)).0
capt_data_seq-IsSafe_example =
    capt_data_seq-IsSafe in_order no_packets 17 4 1 (at_second 8) (some 1000) true (at_second 8)
      no_packets-IsSafe (omega arith) refl
