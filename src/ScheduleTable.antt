-- ===== src/ScheduleTable.antt =====
-- src/database/schedule_table/aodv_st.c: what is to be done at a time, for a host.
-- The list from `first_schedule` on is a list; the hash table holds the same schedules, and a
-- lookup in it is a search of the list. `memory` is the success of `malloc`. The parameter of a
-- schedule is a pointer, and is kept as a number.
pub mod Order
pub mod Lookup
pub mod Examples
use des_aodv.Common.{
  ℕ, Bool, true, false, ◌&&◌, Option, none, some, List, [], ◌∷◌, ◌==◌, if◌then◌else◌, is_pos,
  is_nonpos, is_some,
}
use des_aodv.Dessert.{Dessert, Timeval}
use des_aodv.Table.{find, remove}

-- `schedule_t`
pub record Schedule : Type 0 where
  pub execute_ts : Timeval
  pub ether_addr : ℕ
  pub schedule_id : ℕ
  pub schedule_param : ℕ

-- the key of the hash table
abbrev pub keyed : ℕ → ℕ → Schedule → Bool
keyed ether_addr type s = (s.ether_addr == ether_addr) && (s.schedule_id == type)

unfoldable pub aodv_db_sc_schedule_exists : List Schedule → ℕ → ℕ → Bool
aodv_db_sc_schedule_exists ss ether_addr type = is_some (find (keyed ether_addr type) ss)

unfoldable pub aodv_db_sc_dropschedule : List Schedule → ℕ → ℕ → List Schedule × Bool
aodv_db_sc_dropschedule ss ether_addr type =
    if is_some (find (keyed ether_addr type) ss)
    then (remove (keyed ether_addr type) ss, true)
    else (ss, false)

module _ (D : Dessert) where
  open D use {timevalcmp}

  -- The walk stops at the last schedule, or at one that is not before the new one, and the new one
  -- goes before that schedule if it is later, and after it if not.
  unfoldable pub beside : Schedule → Schedule → List Schedule → List Schedule
  beside el next_el rest =
      if is_pos (timevalcmp next_el.execute_ts el.execute_ts)
      then el ∷ next_el ∷ rest
      else next_el ∷ el ∷ rest

  unfoldable pub insert : Schedule → List Schedule → List Schedule
  insert el [] = el ∷ []
  insert el (next_el ∷ []) = beside el next_el []
  insert el (next_el ∷ s ∷ ss) =
      let further = insert el (s ∷ ss) in
      if is_pos (timevalcmp el.execute_ts next_el.execute_ts)
      then next_el ∷ further
      else beside el next_el (s ∷ ss)

  unfoldable pub aodv_db_sc_addschedule :
      List Schedule → Timeval → ℕ → ℕ → ℕ → Bool → List Schedule × Bool
  aodv_db_sc_addschedule ss execute_ts ether_addr type param memory =
      let dropped = (aodv_db_sc_dropschedule ss ether_addr type).0 in
      let el : Schedule = record {
        execute_ts = execute_ts;
        ether_addr = ether_addr;
        schedule_id = type;
        schedule_param = param;
      } in
      if memory then (insert el dropped, true) else (dropped, false)

  unfoldable pub aodv_db_sc_popschedule : List Schedule → Timeval → List Schedule × Option Schedule
  aodv_db_sc_popschedule [] timestamp = ([], none)
  aodv_db_sc_popschedule (sc ∷ ss) timestamp =
      if is_nonpos (timevalcmp sc.execute_ts timestamp) then (ss, some sc) else (sc ∷ ss, none)
