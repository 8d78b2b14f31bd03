-- ===== src/Handlers/Rerr.antt =====
-- src/pipeline/aodv_pipeline.c, `aodv_handle_rerr`.
pub mod Marks
pub mod Effects
pub mod Routes
pub mod Unreachable
use des_aodv.Common.{
  ℕ, Bool, true, false, ◌||◌, Option, none, some, List, [], ◌∷◌, ◌==◌, if◌then◌else◌, take,
}
use des_aodv.Config.{max_mesh_ifaces_count}
use des_aodv.RoutingTable.{LinkBreak}
use des_aodv.Database.{Db}
use des_aodv.Database.Routes.{aodv_db_getnexthop, aodv_db_markrouteinv}
use des_aodv.Message.{Msg, RerrExt, Verdict, keep, drop, Output, mesh, MeshIface, Settings}
use des_aodv.Daemon.{Step, pure, on_db, send, ◌>>=◌, ◌>>◌}
use des_aodv.RouteError.{hwaddrs}

-- The loop over the interfaces of the sender, for one destination with this next hop.
unfoldable pub iface_loop : List ℕ → ℕ → LinkBreak → Db → Db × Bool
iface_loop [] next_hop dest db = (db, false)
iface_loop (i ∷ is) next_hop dest db =
    let marked =
      if i == next_hop
      then aodv_db_markrouteinv db dest.host dest.sequence_number
      else (db, false) in
    let rest = iface_loop is next_hop dest marked.0 in (rest.0, marked.1 || rest.1)

unfoldable pub invalidate_dest : List ℕ → LinkBreak → Db → Db × Bool
invalidate_dest ifaces dest db = elim (aodv_db_getnexthop db dest.host) [
  | none ↦ (db, false)
  | some next_hop ↦ iface_loop ifaces next_hop dest db
]

-- The loop over the destinations of one extension.
unfoldable pub dest_loop : List ℕ → List LinkBreak → Db → Db × Bool
dest_loop ifaces [] db = (db, false)
dest_loop ifaces (dest ∷ dests) db =
    let marked = invalidate_dest ifaces dest db in
    let rest = dest_loop ifaces dests marked.0 in (rest.0, marked.1 || rest.1)

-- The loop over the extensions.
unfoldable pub ext_loop : List ℕ → List (List LinkBreak) → Db → Db × Bool
ext_loop ifaces [] db = (db, false)
ext_loop ifaces (dests ∷ exts) db =
    let marked = dest_loop ifaces dests db in
    let rest = ext_loop ifaces exts marked.0 in (rest.0, marked.1 || rest.1)

-- A message that invalidated a route goes on with the addresses of our interfaces.
unfoldable pub aodv_handle_rerr : Settings → Msg → Step Verdict
aodv_handle_rerr cfg msg = elim msg.rerr [
  | none ↦ pure keep
  | some rerr ↦ do
    rebroadcast_rerr ← on_db (ext_loop rerr.ifaces msg.rerrdl)
    if rebroadcast_rerr
        then send (
            mesh none (record msg {
              rerr =
                  some (record rerr { ifaces = hwaddrs (take max_mesh_ifaces_count cfg.meshifs) });
            }))
        else pure tt
    pure drop
]
