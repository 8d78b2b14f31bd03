-- ===== src/ScheduleTable/Lookup.antt =====
-- The schedules as a finite map from a host and a type to a time and a parameter.
use des_aodv.Common.{
  ℕ, ◌≡◌, refl, Bool, true, ◌&&◌, none, some, List, [], ◌∷◌, ◌==◌, if◌then◌else◌, arith,
}
use des_aodv.Dessert.{Dessert, Timeval}
use des_aodv.Table.{find, remove}
use des_aodv.ScheduleTable.{
  Schedule, keyed, insert, beside, aodv_db_sc_dropschedule, aodv_db_sc_addschedule,
  aodv_db_sc_popschedule, aodv_db_sc_schedule_exists,
}

-- No two schedules have one key.
abbrev pub Distinct : List Schedule → Type 0
Distinct [] = Unit {0}
Distinct (s ∷ ss) = (find (keyed s.ether_addr s.schedule_id) ss ≡ none) × Distinct ss

module _ (a t b u : ℕ) where
  find-remove :
      (ss : List Schedule)
      → Distinct ss
      → find (keyed b u) (remove (keyed a t) ss)
        ≡ (if (a == b) && (t == u) then none else find (keyed b u) ss)
  find-remove [] d = ground arith
  find-remove (s ∷ ss) d = ground (arith, find-remove ss d.1)

find-congr :
    (a t b u : ℕ) (ss : List Schedule)
    → ((a == b) && (t == u)) ≡ true
    → find (keyed b u) ss ≡ find (keyed a t) ss
find-congr a t b u [] h = refl
find-congr a t b u (s ∷ ss) h = ground (arith, find-congr a t b u ss h)

remove-Distinct : (a t : ℕ) (ss : List Schedule) → Distinct ss → Distinct (remove (keyed a t) ss)
remove-Distinct a t [] d = tt
remove-Distinct a t (s ∷ ss) d =
    ground (arith, remove-Distinct a t ss d.1, find-remove a t s.ether_addr s.schedule_id ss d.1)

-- With no key twice in the list, dropping a schedule removes the one of this host and type and
-- no other, keeps the keys apart, and returns whether there was one.
pub dropschedule_refines :
    (ss : List Schedule) (a t b u : ℕ)
    → Distinct ss
    → let (ss', dropped) = aodv_db_sc_dropschedule ss a t in
      Distinct ss'
      × (find (keyed b u) ss' ≡ (if (a == b) && (t == u) then none else find (keyed b u) ss))
      × (dropped ≡ aodv_db_sc_schedule_exists ss a t)
unfolding aodv_db_sc_dropschedule aodv_db_sc_schedule_exists
dropschedule_refines ss a t b u d =
    ground (arith, remove-Distinct a t ss d, find-remove a t b u ss d, find-congr a t b u ss)

module _ (D : Dessert) where
  find-insert :
      (el : Schedule) (b u : ℕ) (ss : List Schedule)
      → find (keyed el.ether_addr el.schedule_id) ss ≡ none
      → find (keyed b u) (insert D el ss) ≡ (if keyed b u el then some el else find (keyed b u) ss)
  unfolding insert beside
  find-insert el b u [] n = refl
  find-insert el b u (x ∷ []) n = ground arith
  find-insert el b u (x ∷ y ∷ ss) n = ground (arith, find-insert el b u (y ∷ ss))

  insert-Distinct :
      (el : Schedule) (ss : List Schedule)
      → find (keyed el.ether_addr el.schedule_id) ss ≡ none
      → Distinct ss
      → Distinct (insert D el ss)
  unfolding insert beside
  insert-Distinct el [] n d = (refl, tt)
  insert-Distinct el (x ∷ []) n d = ground arith
  insert-Distinct el (x ∷ y ∷ ss) n d =
      ground
        (arith, insert-Distinct el (y ∷ ss), find-insert el x.ether_addr x.schedule_id (y ∷ ss))

  -- With no key twice in the list, after an addition the key of host and type has the new
  -- schedule, or none if there is no memory, every other key has what it had, and no key is
  -- twice in the list; the result tells whether there was memory.
  pub addschedule_refines :
      (ss : List Schedule) (t : Timeval) (a type param b u : ℕ) (memory : Bool)
      → Distinct ss
      → let (ss', added) = aodv_db_sc_addschedule D ss t a type param memory in
        Distinct ss'
        × (find (keyed b u) ss' ≡ (
            if (a == b) && (type == u)
            then if memory
              then some (record {
                execute_ts = t;
                ether_addr = a;
                schedule_id = type;
                schedule_param = param;
              })
              else none
            else find (keyed b u) ss))
        × (added ≡ memory)
  unfolding aodv_db_sc_addschedule
  addschedule_refines ss t a type param b u memory d =
      let el : Schedule = record {
        execute_ts = t;
        ether_addr = a;
        schedule_id = type;
        schedule_param = param;
      } in
      let dropped : List Schedule = (aodv_db_sc_dropschedule ss a type).0 in
      ground (
        arith,
        dropschedule_refines ss a type b u d,
        dropschedule_refines ss a type a type d,
        find-insert el b u dropped,
        insert-Distinct el dropped,
      )

  -- A popped schedule is gone from the table, and the others are as they were.
  pub popschedule_refines :
      (ss : List Schedule) (t : Timeval) (b u : ℕ)
      → Distinct ss
      → let (ss', popped) = aodv_db_sc_popschedule D ss t in
        Distinct ss'
        × (find (keyed b u) ss' ≡ elim popped [
          | none ↦ find (keyed b u) ss
          | some sc ↦ if keyed b u sc then none else find (keyed b u) ss
        ])
  unfolding aodv_db_sc_popschedule
  popschedule_refines [] t b u d = (tt, refl)
  popschedule_refines (s ∷ ss) t b u d =
      ground (arith, find-congr s.ether_addr s.schedule_id b u ss)
