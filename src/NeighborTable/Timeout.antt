-- ===== src/NeighborTable/Timeout.antt =====
-- A neighbor that times out gets a schedule to send out route errors.
use des_aodv.Common.{
  ℕ, ◌≡◌, ◌∙◌, Bool, true, false, ◌==◌, some, List, [], ◌∷◌, if◌then◌else◌, is_some, arith, inl,
  inr, Bool-cases, Option-cases,
}
use des_aodv.Config.{sc_send_out_rerr, sc_update_rssi}
use des_aodv.Dessert.{Dessert, Timeval, Ordered}
use des_aodv.Timeslot.{Element}
use des_aodv.Timeslot.Order.{purge_each, expired}
use des_aodv.Timeslot.Expiry.{expiry}
use des_aodv.Timeslot.Refine.{IsValid, purgeobjects_refines}
use des_aodv.Table.{find, at_address, find-remove_ne, find_holds}
use des_aodv.Table.Safety.{run_out, expiry-expired}
use des_aodv.ScheduleTable.{Schedule, aodv_db_sc_schedule_exists, aodv_db_sc_addschedule}
use des_aodv.ScheduleTable.Lookup.{Distinct, addschedule_refines, dropschedule_refines}
use des_aodv.NeighborTable.{
  Neighbor, Neighbors, NeighborTable, address, on_neighbor_timeout, db_nt_cleanup,
}

module _ (D : Dessert) where
  -- With no schedule there twice, and memory, the timeout of a neighbor that is in the table
  -- schedules a RERR for it, ends its schedule of RSSI updates, and leaves all other schedules
  -- as they were.
  pub on_neighbor_timeout_schedules :
      (oracle : ℕ → Bool) (t : Timeval) (o : ℕ) (s : Neighbors) (e : Neighbor) (b u : ℕ)
      → Distinct s.schedules
      → find (at_address address o) s.entries ≡ some e
      → oracle o ≡ true
      → let s' = on_neighbor_timeout D oracle t o s in
        Distinct s'.schedules
        × (aodv_db_sc_schedule_exists s'.schedules b u ≡ (
            if e.ether_neighbor == b
            then if u == sc_send_out_rerr
              then true
              else if u == sc_update_rssi
              then false
              else aodv_db_sc_schedule_exists s.schedules b u
            else aodv_db_sc_schedule_exists s.schedules b u))
  unfolding on_neighbor_timeout aodv_db_sc_schedule_exists
  on_neighbor_timeout_schedules oracle t o s e b u d found mem =
      let added : List Schedule =
        (aodv_db_sc_addschedule D s.schedules t e.ether_neighbor sc_send_out_rerr 0 (oracle o)).0 in
      ground (
        arith,
        found,
        addschedule_refines D s.schedules t e.ether_neighbor sc_send_out_rerr 0 b u (oracle o) d,
        dropschedule_refines added e.ether_neighbor sc_update_rssi b u,
      )

  abbrev pub rerr_scheduled : ℕ → Neighbors → Bool
  rerr_scheduled addr s = aodv_db_sc_schedule_exists s.schedules addr sc_send_out_rerr

  timeout_keeps :
      (oracle : ℕ → Bool) (t : Timeval) (o addr : ℕ) (s : Neighbors)
      → ((p : ℕ) → oracle p ≡ true)
      → Distinct s.schedules
      → let s' = on_neighbor_timeout D oracle t o s in
        Distinct s'.schedules × (rerr_scheduled addr s ≡ true → rerr_scheduled addr s' ≡ true)
  unfolding on_neighbor_timeout aodv_db_sc_schedule_exists
  timeout_keeps oracle t o addr s mem d =
      elim (Option-cases (find (at_address address o) s.entries)) [
        | inl gone ↦ rw (gone, on_neighbor_timeout) (d, λ h. h)
        | inr (e, found) ↦ ground (
          arith,
          on_neighbor_timeout_schedules oracle t o s e addr sc_send_out_rerr d found (mem o),
        )
      ]

  purge_each_keeps :
      (O : Ordered D) (es : List Element) (oracle : ℕ → Bool) (addr : ℕ) (s : Neighbors)
      → ((p : ℕ) → oracle p ≡ true)
      → Distinct s.schedules
      → rerr_scheduled addr s ≡ true
      → rerr_scheduled addr (purge_each O (on_neighbor_timeout D oracle) es s) ≡ true
  purge_each_keeps O [] oracle addr s mem d h = h
  purge_each_keeps O (x ∷ es) oracle addr s mem d h =
      let kept = timeout_keeps oracle x.purge_time x.object addr s mem d in
      purge_each_keeps O es oracle addr _ mem kept.0 (kept.1 h)

  purge_each_schedules :
      (O : Ordered D) (es : List Element) (oracle : ℕ → Bool) (s : Neighbors) (o : ℕ) (e : Neighbor)
      → ((p : ℕ) → oracle p ≡ true)
      → Distinct s.schedules
      → find (at_address address o) s.entries ≡ some e
      → is_some (expiry o es) ≡ true
      → rerr_scheduled e.ether_neighbor (purge_each O (on_neighbor_timeout D oracle) es s) ≡ true
  unfolding on_neighbor_timeout
  purge_each_schedules O [] oracle s o e mem d found h = absurd (cc)
  purge_each_schedules O (x ∷ es) oracle s o e mem d found h = elim (Bool-cases (x.object == o)) [
    | inl hit ↦
        let now_scheduled =
          on_neighbor_timeout_schedules oracle x.purge_time x.object s e e.ether_neighbor
            sc_send_out_rerr d (ground arith) (mem x.object) in
        purge_each_keeps O es oracle e.ether_neighbor _ mem now_scheduled.0 (ground arith)
    | inr miss ↦
        let kept = timeout_keeps oracle x.purge_time x.object e.ether_neighbor s mem d in
        purge_each_schedules O es oracle _ o e mem kept.0 (still_found x.purge_time x.object miss)
          (ground arith)
  ]
    where
      still_found :
          (t : Timeval) (p : ℕ)
          → (p == o) ≡ false
          → find (at_address address o) (on_neighbor_timeout D oracle t p s).entries ≡ some e
      still_found t p n =
          find-remove_ne address (at_address address o) p s.entries e found
            (ground (arith, find_holds (at_address address o) s.entries e found))

  -- If the timeslot is valid, no schedule is there twice and no `malloc` fails, a cleanup at
  -- `t` leaves a RERR scheduled for each neighbor of which the entry has run out at `t`.
  pub cleanup_schedules_rerr :
      (O : Ordered D) (nt : NeighborTable) (oracle : ℕ → Bool) (t : Timeval) (o : ℕ) (e : Neighbor)
      → IsValid O nt.ts
      → Distinct nt.state.schedules
      → ((p : ℕ) → oracle p ≡ true)
      → find (at_address address o) nt.state.entries ≡ some e
      → run_out O t (expiry o nt.ts.elements) ≡ true
      → rerr_scheduled e.ether_neighbor (db_nt_cleanup D nt oracle t).state ≡ true
  unfolding db_nt_cleanup
  cleanup_schedules_rerr O nt oracle t o e v d mem found late =
      rw (purgeobjects_refines O (on_neighbor_timeout D oracle) t nt.state v).2 (
        purge_each_schedules O (expired O t nt.ts.elements) oracle nt.state o e mem d found
          (expiry-expired O t o nt.ts.elements v.distinct ∙ late))
