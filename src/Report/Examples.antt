-- ===== src/Report/Examples.antt =====
-- Examples on the reports of the tables.
use Prim.Native.String.{String, ◌++◌, len}
use text.Mathlib.TextPositions.{len-append}
use des_aodv.Common.{
  ℕ, zero, suc, ◌≡◌, refl, ◌-◌, ltb, true, some, List, [], ◌∷◌, if◌then◌else◌, arith,
}
use des_aodv.Clock.{at_second}
use des_aodv.Timeslot.{Element, Timeslot}
use des_aodv.PdrTracker.{done, fault}
use des_aodv.Report.{Printf, Documented}
use des_aodv.Report.Timeslots.{timeslot_report, timeslot_report_overflows}
use des_aodv.Report.Tables.{aodv_db_rt_report, aodv_db_pdr_nt_report, table_reports_fit}
use des_aodv.RoutingTable.Examples.{known}

-- so many bytes
abbrev dots : ℕ → String
dots zero = ""
dots (suc n) = "." ++ dots n

-- one digit for each number
abbrev printf : Printf
printf = record {
  number = λ n. "7";
  six_digits = λ n. "000007";
  mac = λ a. "00:00:00:00:00:07";
  snprintf = λ n s. if ltb (len s) n then s else dots (n - 1);
}

len-dots : (n : ℕ) → len (dots n) ≡ n
len-dots zero = refl
len-dots (suc n) = omega (arith, len-append "." (dots n), len-dots n)

printf-Documented : Documented printf
printf-Documented = record {
  digit = λ n. omega arith;
  digits = λ n. omega arith;
  whole = λ n s fits. rw fits refl;
  cut = λ n s cut. rw cut (len-dots (n - 1));
}

-- elements with one time
abbrev elements : ℕ → List Element
elements zero = []
elements (suc n) = record { purge_time = at_second 9; object = n } ∷ elements n

abbrev crowded : Timeslot
crowded = record { elements = elements 38; size = 38; purge_timeout = at_second 6 }

timeslot_report_overflows_example : timeslot_report printf (some crowded) ≡ fault
timeslot_report_overflows_example =
    timeslot_report_overflows printf printf-Documented crowded (omega arith)

table_reports_fit_example :
    ((output : String) × (aodv_db_rt_report printf (λ iface. iface) (known ∷ []) true
        ≡ done (some output)))
    × ((output : String) × (aodv_db_pdr_nt_report printf [] true ≡ done (some output)))
table_reports_fit_example =
    table_reports_fit printf printf-Documented (λ iface. iface) (known ∷ []) [] (omega arith)
      (omega arith)
