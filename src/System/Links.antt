-- ===== src/System/Links.antt =====
-- The calls of the database that may fail, and the loops of `aodv_handle_rerr`, keep the state
-- well-formed.
use des_aodv.Common.{
  ℕ, ◌≡◌, refl, ◌∙◌, Option, none, some, List, [], ◌∷◌, ◌==◌, arith, Option-cases, Bool-cases, inl,
  inr,
}
use des_aodv.Dessert.{Dessert, Timeval}
use des_aodv.PdrTracker.{Outcome, done, fault, then_do}
use des_aodv.Metric.{aodv_metric_do}
use des_aodv.RoutingTable.{LinkBreak}
use des_aodv.Message.{Msg, Settings, Oracle}
use des_aodv.Database.{Db, ◌>>=◌}
use des_aodv.Database.Routes.{
  aodv_db_markrouteinv, aodv_db_getnexthop, aodv_db_get_destlist, aodv_db_inv_over_nexthop,
  aodv_db_get_warn_endpoints_from_neighbor_and_set_warn,
}
use des_aodv.Database.Neighbors.{
  aodv_db_pdr_cap_hello, aodv_db_pdr_cap_hellorsp, aodv_db_pdr_get_rcvdhellocount,
}
use des_aodv.Daemon.{on_db, try_db, follow_db}
use des_aodv.Daemon.Keeps.{Keeps, bind-Keeps, pure-Keeps}
use des_aodv.System.WellFormed.{
  WellFormed, on_db-WellFormed, try_db-WellFormed, follow_db-WellFormed,
}
use des_aodv.Handlers.{measure}
use des_aodv.RoutingTable.Query
use des_aodv.Handlers.Rerr.{iface_loop, invalidate_dest, dest_loop, ext_loop}
use des_aodv.Periodic.{get_destlist_step}

-- A call that may fail, and changes no more than its own table.
pb-then_do :
    {A B : Type 0} (r : Outcome A) (f : A → Db × B) (db db' : Db) (b : B)
    → ((a : A) → (f a).0.pb ≡ db.pb)
    → then_do {B = Db × B} r (λ a. done (f a)) ≡ done (db', b)
    → db'.pb ≡ db.pb
pb-then_do fault f db db' b same ran = absurd (cc)
pb-then_do (done a) f db db' b same ran = ground (arith, same a, ran)

pb-and_then :
    {A B : Type 0} (r : Option A) (f : A → Db × B) (db db' : Db) (b : B)
    → ((a : A) → (f a).0.pb ≡ db.pb)
    → (r >>= λ a. some (f a)) ≡ some (db', b)
    → db'.pb ≡ db.pb
pb-and_then none f db db' b same ran = absurd (cc)
pb-and_then (some a) f db db' b same ran = ground (arith, same a, ran)

module _ (D : Dessert) where
  pub pdr_cap_hello-WellFormed :
      (cfg : Settings) (o : Oracle) (addr seq interval : ℕ) (t : Timeval)
      → Keeps WellFormed (try_db (λ db. aodv_db_pdr_cap_hello D db cfg o addr seq interval t))
  unfolding aodv_db_pdr_cap_hello
  pdr_cap_hello-WellFormed cfg o addr seq interval t =
      try_db-WellFormed (λ db. aodv_db_pdr_cap_hello D db cfg o addr seq interval t)
        (λ db db' b ran. pb-then_do _ _ db db' b (λ a. refl) ran)

  pub pdr_cap_hellorsp-WellFormed :
      (cfg : Settings) (o : Oracle) (addr interval count : ℕ) (t : Timeval)
      → Keeps WellFormed (try_db (λ db. aodv_db_pdr_cap_hellorsp D db cfg o addr interval count t))
  unfolding aodv_db_pdr_cap_hellorsp
  pdr_cap_hellorsp-WellFormed cfg o addr interval count t =
      try_db-WellFormed (λ db. aodv_db_pdr_cap_hellorsp D db cfg o addr interval count t)
        (λ db db' b ran. pb-then_do _ _ db db' b (λ a. refl) ran)

  pub pdr_get_rcvdhellocount-WellFormed :
      (addr : ℕ) (t : Timeval)
      → Keeps WellFormed (try_db (λ db. aodv_db_pdr_get_rcvdhellocount D db addr t))
  unfolding aodv_db_pdr_get_rcvdhellocount
  pdr_get_rcvdhellocount-WellFormed addr t =
      try_db-WellFormed (λ db. aodv_db_pdr_get_rcvdhellocount D db addr t)
        (λ db db' b ran. pb-then_do _ _ db db' b (λ a. refl) ran)

  pub measure-WellFormed :
      (cfg : Settings) (o : Oracle) (msg : Msg) (t : Timeval)
      → Keeps WellFormed (measure D cfg o msg t)
  unfolding measure
  measure-WellFormed cfg o msg t =
      bind-Keeps _ _
        (try_db-WellFormed
          (λ db.
            then_do {B = Db × ℕ}
              (aodv_metric_do D cfg.metric_type db.pdr msg.u16 msg.l2_shost o.average t)
              (λ r. done (record db { pdr = r.0 }, r.1)))
          (λ db db' b ran. pb-then_do _ _ db db' b (λ a. refl) ran))
        (λ metric. pure-Keeps _)

pub inv_over_nexthop-WellFormed :
    (hop : ℕ) → Keeps WellFormed (follow_db (λ db. aodv_db_inv_over_nexthop db hop))
unfolding aodv_db_inv_over_nexthop
inv_over_nexthop-WellFormed hop =
    follow_db-WellFormed (λ db. aodv_db_inv_over_nexthop db hop)
      (λ db db' b ran.
        pb-and_then (Query.aodv_db_rt_inv_over_nexthop db.rt hop)
          (λ r. (record db { rt = r.0 }, r.1)) db db' b (λ a. refl) ran)

pub get_warn_endpoints-WellFormed :
    (hop : ℕ)
    → Keeps WellFormed
        (follow_db (λ db. aodv_db_get_warn_endpoints_from_neighbor_and_set_warn db hop))
unfolding aodv_db_get_warn_endpoints_from_neighbor_and_set_warn
get_warn_endpoints-WellFormed hop =
    follow_db-WellFormed (λ db. aodv_db_get_warn_endpoints_from_neighbor_and_set_warn db hop)
      (λ db db' b ran.
        pb-and_then (Query.aodv_db_rt_get_warn_endpoints_from_neighbor_and_set_warn db.rt hop)
          (λ r. (record db { rt = r.0 }, r.1)) db db' b (λ a. refl) ran)

pb-get_destlist :
    (db db' : Db) (hop : ℕ) (b : Option (List LinkBreak))
    → get_destlist_step hop db ≡ some (db', b)
    → db'.pb ≡ db.pb
pb-get_destlist db db' hop b ran = elim (Option-cases (aodv_db_get_destlist db hop)) [
  | inl nothing ↦ absurd (ground (arith, nothing, ran))
  | inr (dests, here) ↦ ground (arith, here, ran)
]

pub get_destlist-WellFormed : (hop : ℕ) → Keeps WellFormed (follow_db (get_destlist_step hop))
get_destlist-WellFormed hop =
    follow_db-WellFormed (get_destlist_step hop) (λ db db' b ran. pb-get_destlist db db' hop b ran)

-- The loops of `aodv_handle_rerr`.
pb-iface_loop :
    (ifaces : List ℕ) (hop : ℕ) (dest : LinkBreak) (db : Db)
    → (iface_loop ifaces hop dest db).0.pb ≡ db.pb
unfolding iface_loop aodv_db_markrouteinv
pb-iface_loop [] hop dest db = refl
pb-iface_loop (i ∷ is) hop dest db = elim (Bool-cases (i == hop)) [
  | inl here ↦
      rw here (pb-iface_loop is hop dest (aodv_db_markrouteinv db dest.host dest.sequence_number).0)
  | inr there ↦ rw there (pb-iface_loop is hop dest db)
]

pb-invalidate_dest :
    (ifaces : List ℕ) (dest : LinkBreak) (db : Db) → (invalidate_dest ifaces dest db).0.pb ≡ db.pb
unfolding invalidate_dest
pb-invalidate_dest ifaces dest db = elim (Option-cases (aodv_db_getnexthop db dest.host)) [
  | inl absent ↦ rw (absent, invalidate_dest) refl
  | inr (hop, here) ↦ rw (here, invalidate_dest) (pb-iface_loop ifaces hop dest db)
]

pb-dest_loop :
    (ifaces : List ℕ) (dests : List LinkBreak) (db : Db) → (dest_loop ifaces dests db).0.pb ≡ db.pb
unfolding dest_loop
pb-dest_loop ifaces [] db = refl
pb-dest_loop ifaces (dest ∷ dests) db =
    pb-dest_loop ifaces dests (invalidate_dest ifaces dest db).0 ∙ pb-invalidate_dest ifaces dest db

pb-ext_loop :
    (ifaces : List ℕ) (exts : List (List LinkBreak)) (db : Db)
    → (ext_loop ifaces exts db).0.pb ≡ db.pb
unfolding ext_loop
pb-ext_loop ifaces [] db = refl
pb-ext_loop ifaces (dests ∷ exts) db =
    pb-ext_loop ifaces exts (dest_loop ifaces dests db).0 ∙ pb-dest_loop ifaces dests db

pub ext_loop-WellFormed :
    (ifaces : List ℕ) (exts : List (List LinkBreak))
    → Keeps WellFormed (on_db (ext_loop ifaces exts))
ext_loop-WellFormed ifaces exts = on_db-WellFormed (ext_loop ifaces exts) (pb-ext_loop ifaces exts)
