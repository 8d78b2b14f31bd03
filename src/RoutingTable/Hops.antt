-- ===== src/RoutingTable/Hops.antt =====
-- The next-hop table of src/database/routing_table/aodv_rt.c as a finite map from a next hop and a
-- destination to the pointer to the route.
use des_aodv.Common.{
  ℕ, ◌≡◌, refl, false, ◌&&◌, Option, none, some, List, [], ◌∷◌, ◌==◌, if◌then◌else◌, is_some,
  Option-cases, inl, inr, arith,
}
use des_aodv.Table.{find, remove, modify, add}
use des_aodv.RoutingTable.{DestEntry, NhtEntry, over, for_host}

-- the pointer that the list of a next hop holds for a destination
abbrev pub dest_in : ℕ → List DestEntry → Option ℕ
dest_in addr [] = none
dest_in addr (d ∷ ds) = if d.destination_host == addr then some d.rt_entry else dest_in addr ds

abbrev pub maps : ℕ → ℕ → List NhtEntry → Option ℕ
maps hop addr [] = none
maps hop addr (n ∷ ns) = if n.next_hop == hop then dest_in addr n.dest_list else maps hop addr ns

-- No destination is twice in a list, and no next hop twice in the table.
abbrev pub DistinctDests : List DestEntry → Type 0
DistinctDests [] = Unit {0}
DistinctDests (d ∷ ds) = (dest_in d.destination_host ds ≡ none) × DistinctDests ds

abbrev pub DistinctHops : List NhtEntry → Type 0
DistinctHops [] = Unit {0}
DistinctHops (n ∷ ns) =
    (is_some (find (over n.next_hop) ns) ≡ false) × DistinctDests n.dest_list × DistinctHops ns

dest_in-find :
    (addr : ℕ) (ds : List DestEntry) → is_some (find (for_host addr) ds) ≡ is_some (dest_in addr ds)
dest_in-find addr [] = refl
dest_in-find addr (d ∷ ds) = ground (arith, dest_in-find addr ds)

pub dest_in-remove :
    (a b : ℕ) (ds : List DestEntry)
    → DistinctDests ds
    → dest_in b (remove (for_host a) ds) ≡ (if a == b then none else dest_in b ds)
dest_in-remove a b [] u = ground arith
dest_in-remove a b (d ∷ ds) u = ground (arith, dest_in-remove a b ds u.1)

pub remove-DistinctDests :
    (a : ℕ) (ds : List DestEntry) → DistinctDests ds → DistinctDests (remove (for_host a) ds)
remove-DistinctDests a [] u = tt
remove-DistinctDests a (d ∷ ds) u =
    ground (arith, remove-DistinctDests a ds u.1, dest_in-remove a d.destination_host ds u.1)

module _ (a p : ℕ) where
  abbrev pub point : DestEntry → DestEntry
  point d = record d { rt_entry = p }

  abbrev pub fresh : DestEntry
  fresh = record { destination_host = a; rt_entry = p }

  dest_in-modify :
      (b : ℕ) (ds : List DestEntry)
      → dest_in b (modify (for_host a) point ds)
        ≡ (if (a == b) && is_some (dest_in a ds) then some p else dest_in b ds)
  dest_in-modify b [] = ground arith
  dest_in-modify b (d ∷ ds) = ground (arith, dest_in-modify b ds)

  modify-DistinctDests :
      (ds : List DestEntry) → DistinctDests ds → DistinctDests (modify (for_host a) point ds)
  modify-DistinctDests [] u = tt
  modify-DistinctDests (d ∷ ds) u =
      ground (arith, modify-DistinctDests ds u.1, dest_in-modify d.destination_host ds)

  dest_in-add :
      (b : ℕ) (ds : List DestEntry)
      → dest_in a ds ≡ none
      → dest_in b (add fresh ds) ≡ (if a == b then some p else dest_in b ds)
  dest_in-add b [] n = ground arith
  dest_in-add b (d ∷ ds) n = ground (arith, dest_in-add b ds)

  add-DistinctDests :
      (ds : List DestEntry) → dest_in a ds ≡ none → DistinctDests ds → DistinctDests (add fresh ds)
  add-DistinctDests [] n u = ground arith
  add-DistinctDests (d ∷ ds) n u =
      ground (arith, add-DistinctDests ds, dest_in-add d.destination_host ds)

  -- what `map_dest` makes of the list of the next hop
  abbrev pub set_dest : List DestEntry → List DestEntry
  set_dest ds =
      if is_some (find (for_host a) ds) then modify (for_host a) point ds else add fresh ds

  pub dest_in-set_dest :
      (b : ℕ) (ds : List DestEntry)
      → dest_in b (set_dest ds) ≡ (if a == b then some p else dest_in b ds)
  dest_in-set_dest b ds = elim (Option-cases (dest_in a ds)) [
    | inl out ↦ ground (arith, dest_in-find a ds, dest_in-add b ds out)
    | inr (q, here) ↦ ground (arith, dest_in-find a ds, dest_in-modify b ds)
  ]

  pub set_dest-DistinctDests :
      (ds : List DestEntry) → DistinctDests ds → DistinctDests (set_dest ds)
  set_dest-DistinctDests ds u = elim (Option-cases (dest_in a ds)) [
    | inl out ↦ ground (arith, dest_in-find a ds, add-DistinctDests ds out u)
    | inr (q, here) ↦ ground (arith, dest_in-find a ds, modify-DistinctDests ds u)
  ]
