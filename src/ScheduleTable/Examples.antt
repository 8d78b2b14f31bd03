-- ===== src/ScheduleTable/Examples.antt =====
-- Examples on src/database/schedule_table/aodv_st.c.
use des_aodv.Common.{false, ◌+◌, ◌≤◌, ◌≡◌, ◌⊎◌, true, none, some, List, [], ◌∷◌, arith}
use des_aodv.Table.{find}
use des_aodv.Clock.{clock, in_order, at_second}
use des_aodv.ScheduleTable.{keyed, Schedule, aodv_db_sc_addschedule, aodv_db_sc_popschedule}
use des_aodv.ScheduleTable.Order.{
  at, SortedFrom, NoneBefore, addschedule-SortedFrom, popschedule_earliest,
}
use des_aodv.ScheduleTable.Lookup.{Distinct, addschedule_refines}

abbrev pub repeat_rreq : Schedule
repeat_rreq = record {
  execute_ts = at_second 3;
  ether_addr = 17;
  schedule_id = 2;
  schedule_param = 40;
}

abbrev pub send_rerr : Schedule
send_rerr = record {
  execute_ts = at_second 5;
  ether_addr = 18;
  schedule_id = 3;
  schedule_param = 0;
}

abbrev pub two_schedules : List Schedule
two_schedules = repeat_rreq ∷ send_rerr ∷ []

pub two_schedules-Distinct : Distinct two_schedules
two_schedules-Distinct = ground arith

pub two_schedules-SortedFrom : SortedFrom in_order 0 two_schedules
two_schedules-SortedFrom = ground arith

addschedule_refines_example :
    Distinct (aodv_db_sc_addschedule clock two_schedules (at_second 9) 17 2 41 false).0
    × (find (keyed 17 2) (aodv_db_sc_addschedule clock two_schedules (at_second 9) 17 2 41 false).0
        ≡ none)
    × ((aodv_db_sc_addschedule clock two_schedules (at_second 9) 17 2 41 false).1 ≡ false)
addschedule_refines_example =
    addschedule_refines clock two_schedules (at_second 9) 17 2 41 17 2 false two_schedules-Distinct

addschedule-SortedFrom_example :
    SortedFrom in_order 0 (aodv_db_sc_addschedule clock two_schedules (at_second 4) 19 2 42 true).0
addschedule-SortedFrom_example =
    addschedule-SortedFrom in_order two_schedules (at_second 4) 19 2 42 true
      two_schedules-SortedFrom

popschedule_earliest_example :
    let (ss', popped) = aodv_db_sc_popschedule clock two_schedules (at_second 4) in
    SortedFrom in_order 0 ss'
    × ((popped ≡ none) × (ss' ≡ two_schedules) × NoneBefore in_order (4000000 + 1) two_schedules
        ⊎ ((sc : Schedule) × (popped ≡ some sc)
            × (two_schedules ≡ sc ∷ ss')
            × (at in_order sc ≤ 4000000)
            × NoneBefore in_order (at in_order sc) ss'))
popschedule_earliest_example =
    popschedule_earliest in_order two_schedules (at_second 4) two_schedules-SortedFrom
