-- ===== src/RoutingTable/Mapping.antt =====
-- Inserting into and deleting from the next-hop table of src/database/routing_table/aodv_rt.c.
use des_aodv.Common.{
  ℕ, ◌≡◌, refl, true, false, ◌&&◌, none, some, List, [], ◌∷◌, ◌==◌, if◌then◌else◌, is_some,
  Option-cases, inl, inr, arith,
}
use des_aodv.Table.{find, remove, modify, add, find-add}
use des_aodv.RoutingTable.{DestEntry, NhtEntry, over, for_host, is_empty, unmap, map_dest}
use des_aodv.RoutingTable.Hops.{
  dest_in, maps, DistinctDests, DistinctHops, dest_in-remove, remove-DistinctDests, fresh, set_dest,
  dest_in-set_dest, set_dest-DistinctDests,
}

abbrev with_list : List DestEntry → NhtEntry → NhtEntry
with_list ds n = record n { dest_list = ds }

maps_found :
    (h a : ℕ) (ns : List NhtEntry) (n : NhtEntry)
    → find (over h) ns ≡ some n
    → maps h a ns ≡ dest_in a n.dest_list
maps_found h a [] n e = absurd (cc)
maps_found h a (m ∷ ns) n e = ground (arith, maps_found h a ns n)

maps-none : (h a : ℕ) (ns : List NhtEntry) → find (over h) ns ≡ none → maps h a ns ≡ none
maps-none h a [] e = refl
maps-none h a (m ∷ ns) e = ground (arith, maps-none h a ns)

maps-modify :
    (h a h' : ℕ) (ds : List DestEntry) (ns : List NhtEntry)
    → is_some (find (over h) ns) ≡ true
    → maps h' a (modify (over h) (with_list ds) ns)
      ≡ (if h == h' then dest_in a ds else maps h' a ns)
maps-modify h a h' ds [] e = absurd (cc)
maps-modify h a h' ds (m ∷ ns) e = ground (arith, maps-modify h a h' ds ns)

find-modify-over :
    (h h' : ℕ) (ds : List DestEntry) (ns : List NhtEntry)
    → is_some (find (over h') (modify (over h) (with_list ds) ns)) ≡ is_some (find (over h') ns)
find-modify-over h h' ds [] = refl
find-modify-over h h' ds (m ∷ ns) = ground (arith, find-modify-over h h' ds ns)

modify-DistinctHops :
    (h : ℕ) (ds : List DestEntry) (ns : List NhtEntry)
    → DistinctDests ds
    → DistinctHops ns
    → DistinctHops (modify (over h) (with_list ds) ns)
modify-DistinctHops h ds [] u d = tt
modify-DistinctHops h ds (m ∷ ns) u d =
    ground (arith, modify-DistinctHops h ds ns u d.2, find-modify-over h m.next_hop ds ns)

maps-remove :
    (h a h' : ℕ) (ns : List NhtEntry)
    → DistinctHops ns
    → maps h' a (remove (over h) ns) ≡ (if h == h' then none else maps h' a ns)
maps-remove h a h' [] d = ground arith
maps-remove h a h' (m ∷ ns) d = ground (arith, maps-remove h a h' ns d.2, unlisted)
  where
    unlisted : is_some (find (over m.next_hop) ns) ≡ false → maps m.next_hop a ns ≡ none
    unlisted e = maps-none m.next_hop a ns (ground arith)

find-remove-over :
    (h h' : ℕ) (ns : List NhtEntry)
    → is_some (find (over h') ns) ≡ false
    → is_some (find (over h') (remove (over h) ns)) ≡ false
find-remove-over h h' [] e = refl
find-remove-over h h' (m ∷ ns) e = ground (arith, find-remove-over h h' ns)

remove-DistinctHops :
    (h : ℕ) (ns : List NhtEntry) → DistinctHops ns → DistinctHops (remove (over h) ns)
remove-DistinctHops h [] d = tt
remove-DistinctHops h (m ∷ ns) d =
    ground (arith, remove-DistinctHops h ns d.2, find-remove-over h m.next_hop ns d.0)

maps-add :
    (h' a : ℕ) (n : NhtEntry) (ns : List NhtEntry)
    → is_some (find (over n.next_hop) ns) ≡ false
    → maps h' a (add n ns) ≡ (if n.next_hop == h' then dest_in a n.dest_list else maps h' a ns)
maps-add h' a n [] e = ground arith
maps-add h' a n (m ∷ ns) e = ground (arith, maps-add h' a n ns)

add-DistinctHops :
    (n : NhtEntry) (ns : List NhtEntry)
    → is_some (find (over n.next_hop) ns) ≡ false
    → DistinctDests n.dest_list
    → DistinctHops ns
    → DistinctHops (add n ns)
add-DistinctHops n [] e u d = ground arith
add-DistinctHops n (m ∷ ns) e u d =
    ground (arith, add-DistinctHops n ns, find-add (over m.next_hop) n ns)

dests_found :
    (h : ℕ) (ns : List NhtEntry) (n : NhtEntry)
    → DistinctHops ns
    → find (over h) ns ≡ some n
    → DistinctDests n.dest_list
dests_found h [] n d e = absurd (cc)
dests_found h (m ∷ ns) n d e = ground (arith, dests_found h ns n d.2)

empty-dest_in : (a : ℕ) (ds : List DestEntry) → is_empty ds ≡ true → dest_in a ds ≡ none
empty-dest_in a [] e = refl
empty-dest_in a (d ∷ ds) e = absurd (cc)

-- After an insertion the next hop has the pointer for the destination, and every other pair has
-- what it had.
pub map_dest-maps :
    (h a p h' b : ℕ) (nht : List NhtEntry)
    → DistinctHops nht
    → DistinctHops (map_dest h a p nht)
      × (maps h' b (map_dest h a p nht) ≡ (if (h == h') && (a == b) then some p else maps h' b nht))
unfolding map_dest
map_dest-maps h a p h' b nht d = elim (Option-cases (find (over h) nht)) [
  | inl new ↦ ground (
    arith,
    add-DistinctHops (record { next_hop = h; dest_list = fresh a p ∷ [] }) nht,
    maps-add h' b (record { next_hop = h; dest_list = fresh a p ∷ [] }) nht,
    maps-none h b nht new,
  )
  | inr (n, found) ↦ ground (
    arith,
    modify-DistinctHops h (set_dest a p n.dest_list) nht
        (set_dest-DistinctDests a p n.dest_list (dests_found h nht n d found)),
    maps-modify h b h' (set_dest a p n.dest_list) nht,
    dest_in-set_dest a p b n.dest_list,
    maps_found h b nht n found,
  )
]

-- After a deletion the next hop has nothing for the destination, and every other pair has what it
-- had.
pub unmap-maps :
    (h a h' b : ℕ) (nht : List NhtEntry)
    → DistinctHops nht
    → DistinctHops (unmap h a nht)
      × (maps h' b (unmap h a nht) ≡ (if (h == h') && (a == b) then none else maps h' b nht))
unfolding unmap
unmap-maps h a h' b nht d = elim (Option-cases (find (over h) nht)) [
  | inl new ↦ ground (arith, maps-none h b nht new)
  | inr (n, found) ↦
      let rest : List DestEntry = remove (for_host a) n.dest_list in
      let u = dests_found h nht n d found in
      ground (
        arith,
        remove-DistinctHops h nht d,
        maps-remove h b h' nht d,
        empty-dest_in b rest,
        modify-DistinctHops h rest nht (remove-DistinctDests a n.dest_list u) d,
        maps-modify h b h' rest nht,
        dest_in-remove a b n.dest_list u,
        maps_found h b nht n found,
      )
]
