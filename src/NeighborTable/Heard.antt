-- ===== src/NeighborTable/Heard.antt =====
-- A neighbor that was heard of passes the check of src/database/neighbor_table/nt.c until its entry
-- runs out.
use des_aodv.Common.{
  ℕ, ◌+◌, ◌^◌, ◌<◌, ◌≡◌, refl, ap, Bool, true, Option, none, some, is_some, ℤ, Option-cases, inl,
  inr, arith,
}
use des_aodv.Dessert.{Dessert, Timeval, Ordered}
use des_aodv.Timeslot.{addobject}
use des_aodv.Timeslot.Expiry.{expiry}
use des_aodv.Timeslot.Refine.{add_until_refines}
use des_aodv.Table.{find, add, find-add, find-modify_self}
use des_aodv.Table.Safety.{add_until-keeps, purgeobjects-keeps, add-NoDangling, modify-NoDangling}
use des_aodv.NeighborTable.{
  Neighbor, NeighborTable, keyed, address, db_neighbor_entry_create, on_neighbor_timeout, touch,
  refresh, db_nt_cap2_dneigh, db_nt_cleanup, db_nt_check2_dneigh,
}
use des_aodv.NeighborTable.Safety.{IsSafe, entries, frees, Fresh, new_neighbor}

module _ {D : Dessert} (O : Ordered D) (oracle : ℕ → Bool) where
  open O use {instant}

  -- The neighbor is in the table, and its entry runs out at `until`.
  abbrev pub HeardUntil : NeighborTable → ℕ → ℕ → Timeval → Type 0
  HeardUntil nt addr iface until =
      (e : Neighbor) × (find (keyed addr iface) nt.state.entries ≡ some e)
      × (expiry e.self nt.ts.elements ≡ some until)

  module _ (nt : NeighborTable) (addr iface : ℕ) (timestamp now : Timeval) (s : IsSafe O oracle nt)
      (room : nt.ts.size + 1 < 2 ^ 32) where
    abbrev until : Timeval
    until = D.timevaladd2 nt.ts.purge_timeout timestamp

    touch-HeardUntil :
        (e : Neighbor)
        → instant now < instant until
        → find (keyed addr iface) nt.state.entries ≡ some e
        → HeardUntil (touch D nt timestamp e.self true oracle now) addr iface until
    unfolding touch addobject
    touch-HeardUntil e early found = (
      e,
      add_until-keeps O address entries (on_neighbor_timeout D oracle) (frees O oracle) nt.ts until
          e.self true now nt.state (keyed addr iface) e s.valid room found (ground arith),
      ground (
        arith,
        add_until_refines O (on_neighbor_timeout D oracle) until e.self now nt.state s.valid e.self
            room,
      ),
    )

  refresh-HeardUntil :
      (nt : NeighborTable) (e : Neighbor) (addr seq iface : ℕ) (threshold : ℤ) (timestamp : Timeval)
      (sc_memory : Bool) (now : Timeval)
      → IsSafe O oracle nt
      → nt.ts.size + 1 < 2 ^ 32
      → instant now < instant (D.timevaladd2 nt.ts.purge_timeout timestamp)
      → find (keyed addr iface) nt.state.entries ≡ some e
      → HeardUntil
          (refresh D nt e.self addr seq iface threshold timestamp sc_memory true oracle now)
          addr
          iface
          (D.timevaladd2 nt.ts.purge_timeout timestamp)
  unfolding refresh
  refresh-HeardUntil nt e addr seq iface threshold timestamp sc_memory now s room early found =
      let seen =
        modify-NoDangling O address entries (on_neighbor_timeout D oracle) (frees O oracle) nt.ts
          nt.state _ (keyed addr iface) (λ x. record x { last_hello_seq = seq }) refl (λ x. refl)
          s.safe in
      touch-HeardUntil _ addr iface timestamp now (record { valid = s.valid; safe = seen.0 }) room
        (record e { last_hello_seq = seq }) early
        (find-modify_self (keyed addr iface) (λ x. record x { last_hello_seq = seq })
          nt.state.entries e (λ x. refl) found)

  -- On a safe table with room, with a fresh address from `malloc` or none, memory for the
  -- timeslot, and a clock before the time at which the entry runs out: if hearing of a
  -- neighbor succeeds, the neighbor is in the table, and its entry runs out one timeout after
  -- the time of the message.
  pub cap2_dneigh-HeardUntil :
      (nt : NeighborTable) (addr seq iface : ℕ) (threshold : ℤ) (timestamp : Timeval)
      (malloc : Option ℕ) (sc_memory : Bool) (now : Timeval)
      → IsSafe O oracle nt
      → nt.ts.size + 1 < 2 ^ 32
      → Fresh O oracle malloc nt.state
      → instant now < instant (D.timevaladd2 nt.ts.purge_timeout timestamp)
      → (db_nt_cap2_dneigh D nt addr seq iface threshold timestamp malloc sc_memory true oracle
          now).1
        ≡ true
      → HeardUntil
          (db_nt_cap2_dneigh D nt addr seq iface threshold timestamp malloc sc_memory true oracle
            now).0
          addr
          iface
          (D.timevaladd2 nt.ts.purge_timeout timestamp)
  unfolding db_nt_cap2_dneigh db_neighbor_entry_create
  cap2_dneigh-HeardUntil nt addr seq iface threshold timestamp malloc sc_memory now s room fresh
        early =
      elim (Option-cases (find (keyed addr iface) nt.state.entries)) [
        | inl new ↦ new_case malloc fresh new
        | inr (e, old) ↦
            rw (old, db_nt_cap2_dneigh)
              (λ h.
                refresh-HeardUntil nt e addr seq iface threshold timestamp sc_memory now s room
                  early old)
      ]
    where
      new_case :
          (m : Option ℕ)
          → Fresh O oracle m nt.state
          → find (keyed addr iface) nt.state.entries ≡ none
          → let (nt', heard) =
              db_nt_cap2_dneigh D nt addr seq iface threshold timestamp m sc_memory true oracle
                now in
            heard ≡ true → HeardUntil nt' addr iface (D.timevaladd2 nt.ts.purge_timeout timestamp)
      new_case none f new = rw (new, db_nt_cap2_dneigh) (λ h. cc)
      new_case (some a) f new =
          let grown =
            add-NoDangling O address entries (on_neighbor_timeout D oracle) (frees O oracle) nt.ts
              nt.state
              (record (nt.state) {
                entries = add (new_neighbor O oracle a addr iface) nt.state.entries;
              })
              (new_neighbor O oracle a addr iface) refl f s.safe in
          rw (new, db_nt_cap2_dneigh)
            (λ h.
              refresh-HeardUntil _ (new_neighbor O oracle a addr iface) addr seq iface threshold
                timestamp sc_memory now (record { valid = s.valid; safe = grown.0 }) room early
                (ground (
                  arith,
                  find-add (keyed addr iface) (new_neighbor O oracle a addr iface) nt.state.entries,
                )))

  -- If a safe table holds a neighbor of which the entry runs out after `t`, the check at `t`
  -- says that it is a bidirectional neighbor.
  pub check2_dneigh_heard :
      (nt : NeighborTable) (addr iface : ℕ) (until t : Timeval)
      → IsSafe O oracle nt
      → HeardUntil nt addr iface until
      → instant t < instant until
      → (db_nt_check2_dneigh D nt addr iface oracle t).1 ≡ true
  unfolding db_nt_check2_dneigh db_nt_cleanup
  check2_dneigh_heard nt addr iface until t s (e, found, runs) early = ap is_some (
      purgeobjects-keeps O address entries (on_neighbor_timeout D oracle) (frees O oracle) nt.ts t
        nt.state (keyed addr iface) e s.valid found (ground arith))
