-- ===== src/Handlers/Rerr/Effects.antt =====
-- What all destinations of a RERR do to the routes, in src/pipeline/aodv_pipeline.c.
use des_aodv.Common.{
  ℕ, ◌≡◌, refl, ap, inl, inr, Bool, false, ◌&&◌, ◌||◌, Option, none, some, List, [], ◌∷◌, ◌==◌,
  Option-cases, arith, if◌then◌else◌,
}
use des_aodv.RoutingTable.{LinkBreak, RtEntry}
use des_aodv.RoutingTable.Query.{route, invalidate}
use des_aodv.Database.{Db}
use des_aodv.Handlers.Rerr.{invalidate_dest, dest_loop}
use des_aodv.Handlers.Rerr.Marks.{hits, is_affected, invalidate_dest_lem}

module _ (ifaces : List ℕ) where
  -- whether one of the destinations invalidates the entry of a host
  abbrev pub affects : List LinkBreak → ℕ → RtEntry → Bool
  affects [] host e = false
  affects (dest ∷ dests) host e =
      (dest.host == host) && is_affected ifaces dest e || affects dests host e

  -- whether one of the destinations invalidates a route
  abbrev pub any_hits : List LinkBreak → Db → Bool
  any_hits [] db = false
  any_hits (dest ∷ dests) db = hits ifaces db dest || any_hits dests db

  -- the entry of a host after these destinations
  abbrev pub after_rerr : List LinkBreak → ℕ → Option RtEntry → Option RtEntry
  after_rerr dests host none = none
  after_rerr dests host (some e) = some (if affects dests host e then invalidate e else e)

  pub affects-invalidate :
      (dests : List LinkBreak) (host : ℕ) (e : RtEntry)
      → affects dests host (invalidate e) ≡ affects dests host e
  affects-invalidate [] host e = refl
  affects-invalidate (dest ∷ dests) host e =
      ap (λ b. (dest.host == host) && is_affected ifaces dest e || b)
        (affects-invalidate dests host e)

  hits-invalidate_dest :
      (dest dest' : LinkBreak) (db : Db)
      → hits ifaces (invalidate_dest ifaces dest db).0 dest' ≡ hits ifaces db dest'
  hits-invalidate_dest dest dest' db = elim (Option-cases (route db.rt dest'.host)) [
    | inl absent ↦ ground (arith, absent, (invalidate_dest_lem ifaces dest db).1 dest'.host)
    | inr (e, here) ↦ ground (arith, here, (invalidate_dest_lem ifaces dest db).1 dest'.host)
  ]

  any_hits-invalidate_dest :
      (dests : List LinkBreak) (dest : LinkBreak) (db : Db)
      → any_hits dests (invalidate_dest ifaces dest db).0 ≡ any_hits dests db
  any_hits-invalidate_dest [] dest db = refl
  any_hits-invalidate_dest (d ∷ dests) dest db =
      rw (hits-invalidate_dest dest d db)
        (ap (λ b. hits ifaces db d || b) (any_hits-invalidate_dest dests dest db))

  pub dest_loop_lem :
      (dests : List LinkBreak) (db : Db)
      → ((dest_loop ifaces dests db).1 ≡ any_hits dests db)
        × ((host : ℕ)
            → route (dest_loop ifaces dests db).0.rt host
              ≡ after_rerr dests host (route db.rt host))
  unfolding dest_loop
  dest_loop_lem [] db = (refl, λ host. ground arith)
  dest_loop_lem (dest ∷ dests) db =
      let db1 = (invalidate_dest ifaces dest db).0 in
      let rest = dest_loop_lem dests db1 in
      let first = invalidate_dest_lem ifaces dest db in
      (
        ground (arith, first.0, rest.0, any_hits-invalidate_dest dests dest db),
        λ host. elim (Option-cases (route db.rt host)) [
          | inl absent ↦ ground (arith, absent, first.1 host, rest.1 host)
          | inr (e, here) ↦
              ground (arith, here, first.1 host, rest.1 host, affects-invalidate dests host e)
        ],
      )
