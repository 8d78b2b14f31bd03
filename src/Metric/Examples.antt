-- ===== src/Metric/Examples.antt =====
-- Examples on src/pipeline/aodv_metric.c.
use des_aodv.Common.{◌*◌, ◌/◌, ◌≡◌, refl, [], ◌∷◌, arith, pos}
use des_aodv.Config.{max_metric}
use des_aodv.Clock.{clock, at_second}
use des_aodv.Timeslot.{purgeobjects, purge_loop}
use des_aodv.PdrTracker.{PdrTable, pdr_nt_cleanup}
use des_aodv.PdrTracker.Links.{aodv_db_pdr_nt_get_etx_mul}
use des_aodv.PdrTracker.Examples.{neighbor, table}
use des_aodv.Metric.{aodv_metric_do}
use des_aodv.Metric.Range.{metric_do-etx_mul}

-- a neighbor with 1 of 20 HELLOs in each direction
abbrev pub bad_link : PdrTable
bad_link = record table {
  entries =
      record neighbor {
        expected_hellos = 20;
        nb_rcvd_hello_count = 1;
        hellos = record { msg_list = []; rcvd_hello_count = 1 };
      }
      ∷ [];
  nb_expected_hellos = 20;
}

metric_do-etx_mul_example : 5218 ≡ max_metric * 163 / 2047
unfolding aodv_metric_do aodv_db_pdr_nt_get_etx_mul pdr_nt_cleanup purgeobjects purge_loop
metric_do-etx_mul_example =
    metric_do-etx_mul clock bad_link bad_link 0 17 (pos 0) (at_second 5) 5218 163 refl refl
      (omega arith)
