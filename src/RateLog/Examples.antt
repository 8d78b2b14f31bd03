-- ===== src/RateLog/Examples.antt =====
-- Examples on src/database/rreq_log/rreq_log.c.
use des_aodv.Common.{true, false, ◌≡◌, refl, List, [], ◌∷◌, arith}
use des_aodv.Clock.{clock, in_order, at_second}
use des_aodv.RateLog.{RateLog, aodv_db_rl_getrreqcount}
use des_aodv.RateLog.Window.{Sent, Counts, put_all, getrreqcount_window}

abbrev pub empty_log : RateLog
empty_log = record {
  ts = record { elements = []; size = 0; purge_timeout = at_second 1 };
  count = 0;
  pseudo_pointer = 0;
}

pub empty_log-Counts : Counts in_order empty_log
empty_log-Counts = record {
  valid = record { sorted = tt; distinct = tt; counted = refl; small = omega arith };
  counted = refl;
  below = tt;
}

abbrev pub four_sent : List (Sent in_order)
four_sent =
    record { timestamp = at_second 5; memory = true; now = at_second 5 }
    ∷ record { timestamp = at_second 7; memory = true; now = at_second 7 }
    ∷ record { timestamp = at_second 8; memory = false; now = at_second 8 }
    ∷ record { timestamp = at_second 8; memory = true; now = at_second 8 }
    ∷ []

getrreqcount_window_example :
    (aodv_db_rl_getrreqcount clock (put_all in_order empty_log four_sent) (at_second 8)).1 ≡ 1
getrreqcount_window_example =
    getrreqcount_window in_order four_sent empty_log (at_second 8) empty_log-Counts (omega arith)
      (omega arith) (omega arith, (omega arith, (omega arith, (omega arith, tt))))
