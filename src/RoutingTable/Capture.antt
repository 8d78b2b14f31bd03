-- ===== src/RoutingTable/Capture.antt =====
-- What a captured RREQ or RREP does to the routes of src/database/routing_table/aodv_rt.c.
use des_aodv.Common.{
  ℕ, ◌+◌, ◌^◌, ◌<◌, ◌≡◌, refl, ◌∙◌, Bool, true, false, none, some, List, is_some, Option-cases, inl,
  inr, arith,
}
use des_aodv.Dessert.{Dessert, Timeval, Ordered}
use des_aodv.Timeslot.{addobject, add_until}
use des_aodv.Timeslot.Refine.{IsValid, add_until-IsValid}
use des_aodv.Table.{find, remove, modify, add, at_address, find-add}
use des_aodv.Table.Safety.{
  NoDangling, add_until-NoDangling, add_until-none, add_early-NoDangling, modify-NoDangling,
}
use des_aodv.RoutingTable.{
  RtEntry, Routes, RoutingTable, Supply, to_host, address, new_entry, purge_rt_entry, touch,
  find_or_create,
}

abbrev pub entries : Routes → List RtEntry
entries s = s.entries

pub frees :
    (t : Timeval) (o : ℕ) (s : Routes)
    → entries (purge_rt_entry t o s) ≡ remove (at_address address o) (entries s)
unfolding purge_rt_entry
frees t o s = refl

module _ {D : Dessert} (O : Ordered D) where
  open O use {instant}

  pub record IsSafe (rt : RoutingTable) : Type 0 where
    pub valid : IsValid O rt.ts
    pub safe : NoDangling O address entries purge_rt_entry frees rt.ts rt.routes

  pub touch-IsSafe :
      (rt : RoutingTable) (timestamp : Timeval) (o : ℕ) (memory : Bool) (now : Timeval)
      → IsSafe rt
      → rt.ts.size + 1 < 2 ^ 32
      → is_some (find (at_address address o) rt.routes.entries) ≡ true
      → IsSafe (touch D rt timestamp o memory now)
  unfolding touch addobject
  touch-IsSafe rt timestamp o memory now s room here = record {
    valid =
        add_until-IsValid O purge_rt_entry (D.timevaladd2 rt.ts.purge_timeout timestamp) o now
          rt.routes s.valid memory room;
    safe =
        add_until-NoDangling O address entries purge_rt_entry frees rt.ts
          (D.timevaladd2 rt.ts.purge_timeout timestamp) o memory now rt.routes s.valid room s.safe
          here;
  }

  -- The address that `malloc` returns is that of no entry, and the clock is before the time at
  -- which the new entry runs out.
  pub record Sound (rt : RoutingTable) (timestamp : Timeval) (supply : Supply) : Type 0 where
    pub fresh :
        (a : ℕ)
        → supply.malloc ≡ some a
        → is_some (find (at_address address a) rt.routes.entries) ≡ false
    pub early : instant supply.now < instant (D.timevaladd2 rt.ts.purge_timeout timestamp)
    pub room : rt.ts.size + 1 < 2 ^ 32

  -- the table with a new entry
  abbrev pub with_entry : RoutingTable → RtEntry → RoutingTable
  with_entry rt e = record rt { routes = record (rt.routes) { entries = add e rt.routes.entries } }

  create-IsSafe :
      (rt : RoutingTable) (addr : ℕ) (timestamp : Timeval) (supply : Supply) (a : ℕ)
      → IsSafe rt
      → Sound rt timestamp supply
      → supply.malloc ≡ some a
      → find (to_host addr) rt.routes.entries ≡ none
      → let rt' = with_entry (touch D rt timestamp a supply.memory supply.now) (new_entry a addr) in
        IsSafe rt'
        × ((e : RtEntry)
            → some (new_entry a addr) ≡ some e
            → find (to_host addr) rt'.routes.entries ≡ some e)
  unfolding touch addobject
  create-IsSafe rt addr timestamp supply a s ok got absent =
      let until = D.timevaladd2 rt.ts.purge_timeout timestamp in
      (
        record {
          valid =
              add_until-IsValid O purge_rt_entry until a supply.now rt.routes s.valid supply.memory
                ok.room;
          safe =
              add_early-NoDangling O address entries purge_rt_entry frees rt.ts until supply.memory
                supply.now rt.routes _ (new_entry a addr) s.valid ok.room s.safe (ok.fresh a got)
                ok.early refl;
        },
        λ e h. ground (
          arith,
          h,
          find-add (to_host addr) (new_entry a addr)
              (add_until D purge_rt_entry rt.ts until a supply.memory supply.now
                rt.routes).1.entries,
          add_until-none O address entries purge_rt_entry frees rt.ts until a supply.memory
              supply.now rt.routes (to_host addr) s.valid ok.room absent,
        ),
      )

  -- After `find_or_create` the table is safe, and has the entry that was given out.
  pub find_or_create_lem :
      (rt : RoutingTable) (addr : ℕ) (timestamp : Timeval) (supply : Supply)
      → IsSafe rt
      → Sound rt timestamp supply
      → let (rt', found) = find_or_create D rt addr timestamp supply in
        IsSafe rt'
        × ((e : RtEntry) → found ≡ some e → find (to_host addr) rt'.routes.entries ≡ some e)
  unfolding find_or_create
  find_or_create_lem rt addr timestamp supply s ok =
      elim (Option-cases (find (to_host addr) rt.routes.entries)) [
        | inr (e, found) ↦ rw (found, find_or_create) (s, λ x h. found ∙ h)
        | inl absent ↦ elim (Option-cases supply.malloc) [
          | inl null ↦ rw (absent, find_or_create, null) (s, λ x h. cc)
          | inr (a, got) ↦
              rw (absent, find_or_create, got)
                (create-IsSafe rt addr timestamp supply a s ok got absent)
        ]
      ]

  -- Assignments to an entry keep the table safe.
  pub modified-IsSafe :
      (rt : RoutingTable) (p : RtEntry → Bool) (f : RtEntry → RtEntry) (routes : Routes)
      → routes.entries ≡ modify p f rt.routes.entries
      → ((e : RtEntry) → address (f e) ≡ address e)
      → IsSafe rt
      → IsSafe (record rt { routes = routes })
  modified-IsSafe rt p f routes stored same s = record {
    valid = s.valid;
    safe =
        (modify-NoDangling O address entries purge_rt_entry frees rt.ts rt.routes routes p f stored
          same s.safe).0;
  }
