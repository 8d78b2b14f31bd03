-- ===== src/Handlers/Rerr/Marks.antt =====
-- What a RERR does to the routes, in src/pipeline/aodv_pipeline.c.
use des_aodv.Common.{
  ℕ, ◌≡◌, refl, sym, ◌∙◌, ap, inl, inr, Bool, true, false, ◌&&◌, ◌||◌, not, none, some, List, [],
  ◌∷◌, ◌++◌, concat, ◌==◌, Option-cases, Bool-cases, arith, if◌then◌else◌, is_pos,
}
use des_aodv.Helper.{hf_comp_u32}
use des_aodv.Table.{find-modify_self, find-modify_other, modify_twice}
use des_aodv.RoutingTable.{LinkBreak, RtEntry, to_host, set_entry}
use des_aodv.RoutingTable.Query.{aodv_db_rt_markrouteinv, route, invalidate, aodv_db_rt_getnexthop}
use des_aodv.Database.{Db}
use des_aodv.Database.Routes.{aodv_db_getnexthop, aodv_db_markrouteinv}
use des_aodv.Handlers.Rerr.{iface_loop, invalidate_dest, dest_loop, ext_loop}

or_assoc : (a b c : Bool) → (a || b) || c ≡ a || (b || c)
or_assoc true b c = refl
or_assoc false b c = refl

module _ (ifaces : List ℕ) where
  pub dest_loop-append :
      (xs ys : List LinkBreak) (db : Db)
      → dest_loop ifaces (xs ++ ys) db ≡ (
          let first = dest_loop ifaces xs db in
          let rest = dest_loop ifaces ys first.0 in (rest.0, first.1 || rest.1))
  unfolding dest_loop
  dest_loop-append [] ys db = refl
  dest_loop-append (x ∷ xs) ys db =
      let marked = invalidate_dest ifaces x db in
      let first = dest_loop ifaces xs marked.0 in
      let rest = dest_loop ifaces ys first.0 in
      ap (λ r. (r.0, marked.1 || r.1)) (dest_loop-append xs ys marked.0)
      ∙ ap (λ b. (rest.0, b)) (sym (or_assoc marked.1 first.1 rest.1))

  -- How a RERR spreads its destinations over extensions does not matter: they are handled as
  -- if they stood in one list.
  pub ext_loop-concat :
      (exts : List (List LinkBreak)) (db : Db)
      → ext_loop ifaces exts db ≡ dest_loop ifaces (concat exts) db
  unfolding ext_loop dest_loop
  ext_loop-concat [] db = refl
  ext_loop-concat (dests ∷ exts) db =
      let marked = dest_loop ifaces dests db in
      ap (λ r. (r.0, marked.1 || r.1)) (ext_loop-concat exts marked.0)
      ∙ sym (dest_loop-append dests (concat exts) db)

-- whether an address is in a list
abbrev pub member : ℕ → List ℕ → Bool
member a [] = false
member a (x ∷ xs) = (x == a) || member a xs

-- whether the entry of a host goes over one of these interfaces, and is not newer than a number
abbrev pub is_affected : List ℕ → LinkBreak → RtEntry → Bool
is_affected ifaces dest e =
    not e.flags.next_hop_unknown
    && member e.next_hop ifaces
    && not (is_pos (hf_comp_u32 e.sequence_number dest.sequence_number))

mark_once :
    (db : Db) (dest : LinkBreak)
    → aodv_db_markrouteinv
        (aodv_db_markrouteinv db dest.host dest.sequence_number).0
        dest.host
        dest.sequence_number
      ≡ aodv_db_markrouteinv db dest.host dest.sequence_number
unfolding aodv_db_markrouteinv aodv_db_rt_markrouteinv
mark_once db dest = elim (Option-cases (route db.rt dest.host)) [
  | inl absent ↦ ground (arith, absent)
  | inr (e, here) ↦
      elim (Bool-cases (is_pos (hf_comp_u32 e.sequence_number dest.sequence_number))) [
        | inl newer ↦ ground (arith, here, newer)
        | inr older ↦ ground (
          arith,
          here,
          older,
          find-modify_self (to_host dest.host) invalidate db.rt.routes.entries e (λ x. refl) here,
          modify_twice (to_host dest.host) invalidate db.rt.routes.entries (λ x. refl) (λ x. refl),
        )
      ]
]

-- All interfaces of the sender together mark a route once.
iface_loop_lem :
    (ifaces : List ℕ) (next_hop : ℕ) (dest : LinkBreak) (db : Db)
    → iface_loop ifaces next_hop dest db ≡ (
        if member next_hop ifaces
        then aodv_db_markrouteinv db dest.host dest.sequence_number
        else (db, false))
unfolding iface_loop
iface_loop_lem [] next_hop dest db = refl
iface_loop_lem (i ∷ is) next_hop dest db = elim (Bool-cases (i == next_hop)) [
  | inl here ↦ elim (Bool-cases (member next_hop is)) [
    | inl again ↦ ground (
      arith,
      here,
      again,
      iface_loop_lem is next_hop dest (aodv_db_markrouteinv db dest.host dest.sequence_number).0,
      mark_once db dest,
    )
    | inr last ↦ ground (
      arith,
      here,
      last,
      iface_loop_lem is next_hop dest (aodv_db_markrouteinv db dest.host dest.sequence_number).0,
    )
  ]
  | inr other ↦ ground (arith, other, iface_loop_lem is next_hop dest db)
]

module _ (ifaces : List ℕ) where
  -- whether a destination invalidates the route that an earlier database has
  abbrev pub hits : Db → LinkBreak → Bool
  hits db dest = elim (route db.rt dest.host) [ none ↦ false | some e ↦ is_affected ifaces dest e ]

  -- an entry after one destination
  abbrev pub after_dest : LinkBreak → ℕ → RtEntry → RtEntry
  after_dest dest host e =
      if (dest.host == host) && is_affected ifaces dest e then invalidate e else e

  -- the database in which the route to a host is invalid
  abbrev marked_in : ℕ → Db → Db
  marked_in host db = record db { rt = set_entry host invalidate db.rt }

  invalidate_dest_known :
      (dest : LinkBreak) (db : Db) (e : RtEntry)
      → route db.rt dest.host ≡ some e
      → invalidate_dest ifaces dest db
        ≡ (if is_affected ifaces dest e then (marked_in dest.host db, true) else (db, false))
  unfolding invalidate_dest aodv_db_getnexthop aodv_db_rt_getnexthop aodv_db_markrouteinv
      aodv_db_rt_markrouteinv
  invalidate_dest_known dest db e here = elim (Bool-cases e.flags.next_hop_unknown) [
    | inl unknown ↦ ground (arith, here, unknown)
    | inr known ↦ ground (arith, here, known, iface_loop_lem ifaces e.next_hop dest db)
  ]

  invalidate_dest_absent :
      (dest : LinkBreak) (db : Db)
      → route db.rt dest.host ≡ none
      → invalidate_dest ifaces dest db ≡ (db, false)
  unfolding invalidate_dest aodv_db_getnexthop aodv_db_rt_getnexthop
  invalidate_dest_absent dest db absent = ground (arith, absent)

  -- an entry of the route to `host`, after the assignment to that of `dest`
  marked_route :
      (dest host : ℕ) (db : Db) (e : RtEntry)
      → route db.rt dest ≡ some e
      → route (marked_in dest db).rt host
        ≡ (if dest == host then some (invalidate e) else route db.rt host)
  marked_route dest host db e here = elim (Bool-cases (dest == host)) [
    | inl same ↦ ground (
      arith,
      same,
      here,
      find-modify_self (to_host dest) invalidate db.rt.routes.entries e (λ x. refl) here,
    )
    | inr apart ↦ ground (
      arith,
      apart,
      find-modify_other (to_host dest) (to_host host) invalidate db.rt.routes.entries (λ x. refl)
          (λ y h. ground (arith, h, apart)),
    )
  ]

  pub invalidate_dest_lem :
      (dest : LinkBreak) (db : Db)
      → ((invalidate_dest ifaces dest db).1 ≡ hits db dest)
        × ((host : ℕ)
            → route (invalidate_dest ifaces dest db).0.rt host
              ≡ (elim (route db.rt host) [ none ↦ none | some e ↦ some (after_dest dest host e) ]))
  invalidate_dest_lem dest db = elim (Option-cases (route db.rt dest.host)) [
    | inl absent ↦ (
      ground (arith, absent, invalidate_dest_absent dest db absent),
      λ host. elim (Option-cases (route db.rt host)) [
        | inl absent' ↦ ground (arith, absent', invalidate_dest_absent dest db absent)
        | inr (e', here') ↦ ground (arith, absent, here', invalidate_dest_absent dest db absent)
      ],
    )
    | inr (e, here) ↦ (
      ground (arith, here, invalidate_dest_known dest db e here),
      λ host. elim (Option-cases (route db.rt host)) [
        | inl absent' ↦ ground (
          arith,
          here,
          absent',
          invalidate_dest_known dest db e here,
          marked_route dest.host host db e here,
        )
        | inr (e', here') ↦ ground (
          arith,
          here,
          here',
          invalidate_dest_known dest db e here,
          marked_route dest.host host db e here,
        )
      ],
    )
  ]
