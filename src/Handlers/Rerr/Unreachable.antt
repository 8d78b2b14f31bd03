-- ===== src/Handlers/Rerr/Unreachable.antt =====
-- The RERR that src/pipeline/aodv_forward.c sends for a host without a route, and what it does where
-- src/pipeline/aodv_pipeline.c takes it in.
use des_aodv.Common.{
  ℕ, ◌≡◌, ◌<◌, ◌≤◌, ◌-◌, ◌^◌, refl, sym, ap, ◌∙◌, inl, inr, true, false, none, some, List, [], ◌∷◌,
  ◌++◌, length, concat, leb, is_some, is_pos, ◌==◌, Bool-cases, Option-cases, arith, if◌then◌else◌,
}
use mathlib.Core.List.{append-nil}
use des_aodv.Config.{max_mesh_ifaces_count, rerr_ratelimit}
use des_aodv.Dessert.{Dessert, Timeval}
use des_aodv.Helper.{hf_comp_u32}
use des_aodv.PdrTracker.{done}
use des_aodv.RoutingTable.{LinkBreak, RtEntry}
use des_aodv.RoutingTable.Query.{route}
use des_aodv.Database.{aodv_db_getrerrcount, aodv_db_putrerr}
use des_aodv.Message.{Msg, mesh, drop, Settings, Oracle}
use des_aodv.Daemon.{Daemon}
use des_aodv.RouteError.{aodv_create_rerr, rerr_loop, rerr_msg, hwaddrs}
use des_aodv.RouteError.Split.{HasRoom, rerr_loop_all, rerr_loop_less}
use des_aodv.Forward.{report_unreachable}
use des_aodv.Handlers.Rerr.{aodv_handle_rerr}
use des_aodv.Handlers.Rerr.Marks.{hits}
use des_aodv.Handlers.Rerr.Effects.{any_hits, after_rerr}
use des_aodv.Handlers.Rerr.Routes.{handle_rerr_routes, with_our_ifaces}

-- what is reported of a host without a route
abbrev pub unreachable : ℕ → LinkBreak
unreachable host = record { host = host; sequence_number = 2 ^ 32 - 1 }

-- The route to a host, if there is an entry, has a number below 2 ^ 31 - 2.
abbrev pub IsLow : ℕ → Daemon → Type 0
IsLow host d = (e : RtEntry) → route d.db.rt host ≡ some e → e.sequence_number < 2 ^ 31 - 2

-- The comparison takes such a number for newer than the largest one.
low_is_ahead : (seq : ℕ) → seq < 2 ^ 31 - 2 → is_pos (hf_comp_u32 seq (2 ^ 32 - 1)) ≡ true
unfolding hf_comp_u32
low_is_ahead seq low = ground (arith, low)

hits_low :
    (ifaces : List ℕ) (host : ℕ) (d : Daemon)
    → IsLow host d
    → hits ifaces d.db (unreachable host) ≡ false
hits_low ifaces host d low = elim (Option-cases (route d.db.rt host)) [
  | inl absent ↦ ground (arith, absent)
  | inr (e, here) ↦ ground (arith, here, low_is_ahead e.sequence_number (low e here))
]

after_low :
    (ifaces : List ℕ) (host other : ℕ) (d : Daemon)
    → IsLow host d
    → after_rerr ifaces (unreachable host ∷ []) other (route d.db.rt other) ≡ route d.db.rt other
after_low ifaces host other d low = elim (Option-cases (route d.db.rt other)) [
  | inl absent ↦ ground (arith, absent)
  | inr (e, here) ↦ elim (Bool-cases (host == other)) [
    | inl same ↦
        let equal : host ≡ other = ground (arith, same) in
        ground (arith, here, same, low_is_ahead e.sequence_number (low e (rw equal here)))
    | inr apart ↦ ground (arith, here, apart)
  ]
]

empty_of_length : (l : List LinkBreak) → length l ≤ 0 → l ≡ []
empty_of_length [] h = refl
empty_of_length (x ∷ xs) h = absurd (omega arith)

-- the message that reports one host
abbrev pub report : Settings → ℕ → Msg
report cfg host = rerr_msg cfg (rerr_loop cfg 1 [] (unreachable host ∷ [])).0

report-concat :
    (cfg : Settings) (host : ℕ)
    → HasRoom cfg 1
    → concat (report cfg host).rerrdl ≡ unreachable host ∷ []
report-concat cfg host room =
    let exts = (rerr_loop cfg 1 [] (unreachable host ∷ [])).0 in
    let nothing_left = empty_of_length _ (rerr_loop_less cfg 0 (unreachable host) [] room) in
    sym (append-nil (concat exts))
    ∙ ap (λ l. concat exts ++ l) (sym nothing_left)
    ∙ rerr_loop_all cfg 1 [] (unreachable host ∷ [])

-- A host with less than ten RERRs in the last second, memory, and no more interfaces than a
-- RERR has room for, sends one RERR over all interfaces where it has no route for a packet, if
-- a RERR has room for a first destination. Each host of which the route to that destination
-- has a number below 2 ^ 31 - 2 drops this RERR, keeps all its routes and sends nothing on.
pub unreachable_ignored :
    (D : Dessert) (cfg cfg' : Settings) (o : Oracle) (host : ℕ) (t : Timeval) (d receiver : Daemon)
    → leb rerr_ratelimit (aodv_db_getrerrcount D d.db t).1 ≡ false
    → is_some (o.malloc 0) ≡ true
    → leb (length cfg.meshifs) max_mesh_ifaces_count ≡ true
    → HasRoom cfg 1
    → IsLow host receiver
    → (d' : Daemon) × (r' : Daemon) × (report_unreachable D cfg o host t d
        ≡ done (d', mesh none (report cfg host) ∷ [], tt))
      × (aodv_handle_rerr cfg' (report cfg host) receiver ≡ done (r', [], drop))
      × ((other : ℕ) → route r'.db.rt other ≡ route receiver.db.rt other)
unfolding report_unreachable aodv_create_rerr
unreachable_ignored D cfg cfg' o host t d receiver few memory ifaces room low =
    let msg = report cfg host in
    let (r', ran, routes) =
      handle_rerr_routes cfg' msg (record { ifaces = hwaddrs cfg.meshifs }) refl receiver in
    let one = report-concat cfg host room in
    let no_hit : any_hits (hwaddrs cfg.meshifs) (concat msg.rerrdl) receiver.db ≡ false =
      rw one (ground (arith, hits_low (hwaddrs cfg.meshifs) host receiver low)) in
    let db1 = (aodv_db_getrerrcount D d.db t).0 in
    (
      record d { db = aodv_db_putrerr D db1 o t },
      r',
      ground (arith, few, memory, ifaces),
      ran
          ∙ ap (λ b. done (r', (if b then mesh none (with_our_ifaces cfg' msg) ∷ [] else []), drop))
              no_hit,
      λ other.
          routes other
          ∙ ap (λ dests. after_rerr (hwaddrs cfg.meshifs) dests other (route receiver.db.rt other))
              one
          ∙ after_low (hwaddrs cfg.meshifs) host other receiver low,
    )
