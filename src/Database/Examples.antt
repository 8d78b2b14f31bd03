-- ===== src/Database/Examples.antt =====
-- Examples on src/database/aodv_database.c.
use des_aodv.Common.{refl, arith}
use des_aodv.Clock.{clock, in_order, at_second}
use des_aodv.RoutingTable.Examples.{table-IsSafe}
use des_aodv.DataSeq.Examples.{no_packets-IsSafe}
use des_aodv.Daemon.Sample.{daemon, oracle}
use des_aodv.Database.{aodv_db_cleanup}
use des_aodv.Database.Cleanup.{TablesAreSafe, cleanup-TablesAreSafe}

daemon-TablesAreSafe : TablesAreSafe in_order oracle daemon.db
daemon-TablesAreSafe = record {
  nt = record {
    valid = record { sorted = tt; distinct = tt; counted = refl; small = omega arith };
    safe = record { apart = tt; owned = λ q h. cc };
  };
  ds = no_packets-IsSafe;
  rt = table-IsSafe;
  pb_valid = record { sorted = tt; distinct = tt; counted = refl; small = omega arith };
  pb = record { apart = (refl, (refl, tt)); owned = λ q h. cc };
}

cleanup-TablesAreSafe_example :
    TablesAreSafe in_order oracle (aodv_db_cleanup clock daemon.db oracle (at_second 9))
cleanup-TablesAreSafe_example =
    cleanup-TablesAreSafe in_order oracle daemon.db (at_second 9) daemon-TablesAreSafe
