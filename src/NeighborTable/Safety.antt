-- ===== src/NeighborTable/Safety.antt =====
-- What the operations of src/database/neighbor_table/nt.c keep: no dangling entry in the timeslot,
-- and the neighbors that were heard of.
use des_aodv.Common.{
  ℕ, ◌+◌, ◌^◌, ◌<◌, ◌≡◌, refl, ◌∙◌, Bool, true, false, Option, none, some, List, is_some, ℤ,
  Option-cases, inl, inr,
}
use des_aodv.Config.{signal_strength_init}
use des_aodv.Dessert.{Dessert, Timeval, Ordered}
use des_aodv.Timeslot.{addobject}
use des_aodv.Timeslot.Refine.{IsValid, add_until-IsValid, purgeobjects_refines}
use des_aodv.Table.{find, remove, add, at_address, find-at_address}
use des_aodv.Table.Safety.{
  NoDangling, add_until-NoDangling, purgeobjects-NoDangling, add-NoDangling, modify-NoDangling,
}
use des_aodv.NeighborTable.{
  Neighbor, Neighbors, NeighborTable, keyed, address, db_neighbor_entry_create, on_neighbor_timeout,
  touch, refresh, db_nt_cap2_dneigh, db_nt_cleanup, db_nt_check2_dneigh,
}

abbrev pub entries : Neighbors → List Neighbor
entries s = s.entries

module _ {D : Dessert} (O : Ordered D) (oracle : ℕ → Bool) where
  open O use {instant}

  pub frees :
      (t : Timeval) (o : ℕ) (s : Neighbors)
      → entries (on_neighbor_timeout D oracle t o s) ≡ remove (at_address address o) (entries s)
  unfolding on_neighbor_timeout
  frees t o s = refl

  pub record IsSafe (nt : NeighborTable) : Type 0 where
    pub valid : IsValid O nt.ts
    pub safe : NoDangling O address entries (on_neighbor_timeout D oracle) frees nt.ts nt.state

  touch-IsSafe :
      (nt : NeighborTable) (timestamp : Timeval) (o : ℕ) (memory : Bool) (now : Timeval)
      → IsSafe nt
      → nt.ts.size + 1 < 2 ^ 32
      → is_some (find (at_address address o) nt.state.entries) ≡ true
      → IsSafe (touch D nt timestamp o memory oracle now)
  unfolding touch addobject
  touch-IsSafe nt timestamp o memory now s room here = record {
    valid =
        add_until-IsValid O (on_neighbor_timeout D oracle)
          (D.timevaladd2 nt.ts.purge_timeout timestamp) o now nt.state s.valid memory room;
    safe =
        add_until-NoDangling O address entries (on_neighbor_timeout D oracle) frees nt.ts
          (D.timevaladd2 nt.ts.purge_timeout timestamp) o memory now nt.state s.valid room s.safe
          here;
  }

  pub refresh-IsSafe :
      (nt : NeighborTable) (o addr seq iface : ℕ) (threshold : ℤ) (timestamp : Timeval)
      (sc_memory memory : Bool) (now : Timeval)
      → IsSafe nt
      → nt.ts.size + 1 < 2 ^ 32
      → is_some (find (at_address address o) nt.state.entries) ≡ true
      → IsSafe (refresh D nt o addr seq iface threshold timestamp sc_memory memory oracle now)
  unfolding refresh
  refresh-IsSafe nt o addr seq iface threshold timestamp sc_memory memory now s room here =
      let seen =
        modify-NoDangling O address entries (on_neighbor_timeout D oracle) frees nt.ts nt.state _
          (keyed addr iface) (λ e. record e { last_hello_seq = seq }) refl (λ e. refl) s.safe in
      touch-IsSafe _ timestamp o memory now (record { valid = s.valid; safe = seen.0 }) room
        (seen.1 o ∙ here)

  -- A fresh address is that of no entry.
  abbrev pub Fresh : Option ℕ → Neighbors → Type 0
  Fresh none s = Unit {0}
  Fresh (some a) s = is_some (find (at_address address a) s.entries) ≡ false

  abbrev pub new_neighbor : ℕ → ℕ → ℕ → Neighbor
  new_neighbor a addr iface = record {
    self = a;
    ether_neighbor = addr;
    iface = iface;
    last_hello_seq = 0;
    max_rssi = signal_strength_init;
  }

  -- On a table with room, and with a fresh address from `malloc` or none, hearing of a
  -- neighbor keeps the table safe: its timeslot is valid and holds addresses of entries only,
  -- and no two entries share an address.
  pub cap2_dneigh-IsSafe :
      (nt : NeighborTable) (addr seq iface : ℕ) (threshold : ℤ) (timestamp : Timeval)
      (malloc : Option ℕ) (sc_memory memory : Bool) (now : Timeval)
      → IsSafe nt
      → nt.ts.size + 1 < 2 ^ 32
      → Fresh malloc nt.state
      → IsSafe
          (db_nt_cap2_dneigh D nt addr seq iface threshold timestamp malloc sc_memory memory oracle
            now).0
  unfolding db_nt_cap2_dneigh db_neighbor_entry_create
  cap2_dneigh-IsSafe nt addr seq iface threshold timestamp malloc sc_memory memory now s room
        fresh =
      elim (Option-cases (find (keyed addr iface) nt.state.entries)) [
        | inl new ↦ new_case malloc fresh new
        | inr (e, old) ↦
            rw (old, db_nt_cap2_dneigh)
              (refresh-IsSafe nt e.self addr seq iface threshold timestamp sc_memory memory now s
                room (find-at_address address (keyed addr iface) nt.state.entries e old))
      ]
    where
      new_case :
          (m : Option ℕ)
          → Fresh m nt.state
          → find (keyed addr iface) nt.state.entries ≡ none
          → IsSafe
              (db_nt_cap2_dneigh D nt addr seq iface threshold timestamp m sc_memory memory oracle
                now).0
      new_case none f new = rw (new, db_nt_cap2_dneigh) s
      new_case (some a) f new =
          let grown =
            add-NoDangling O address entries (on_neighbor_timeout D oracle) frees nt.ts nt.state
              (record (nt.state) { entries = add (new_neighbor a addr iface) nt.state.entries })
              (new_neighbor a addr iface) refl f s.safe in
          rw (new, db_nt_cap2_dneigh)
            (refresh-IsSafe _ a addr seq iface threshold timestamp sc_memory memory now
              (record { valid = s.valid; safe = grown.0 }) room grown.1)

  -- So do a cleanup and the check of a neighbor.
  pub check2_dneigh-IsSafe :
      (nt : NeighborTable) (addr iface : ℕ) (t : Timeval)
      → IsSafe nt
      → IsSafe (db_nt_check2_dneigh D nt addr iface oracle t).0
  unfolding db_nt_check2_dneigh db_nt_cleanup
  check2_dneigh-IsSafe nt addr iface t s = record {
    valid = (purgeobjects_refines O (on_neighbor_timeout D oracle) t nt.state s.valid).0;
    safe =
        purgeobjects-NoDangling O address entries (on_neighbor_timeout D oracle) frees nt.ts t
          nt.state s.valid s.safe;
  }
