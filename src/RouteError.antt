-- ===== src/RouteError.antt =====
-- src/pipeline/aodv_periodic.c, `aodv_create_rerr`: a RERR with a list of destinations, as many of
-- them as the message has room for.
pub mod Split
use des_aodv.Common.{
  ℕ, zero, suc, ◌+◌, Bool, true, false, Option, none, some, List, [], ◌∷◌, ◌++◌, leb, length, take,
  drop, map, if◌then◌else◌,
}
use des_aodv.Config.{ttl_max, max_mesh_ifaces_count}
use des_aodv.RoutingTable.{LinkBreak}
use des_aodv.Message.{Msg, RerrExt, Settings, MeshIface, empty_msg, ether_broadcast}
use des_aodv.Daemon.{Step, pure, crash}

-- The loop over the destinations: the extensions that were added, and the destinations that are
-- left. An extension gets up to one destination more than `max_mac_seq_per_ext`. The first argument
-- bounds the rounds.
unfoldable pub rerr_loop :
    Settings → ℕ → List (List LinkBreak) → List LinkBreak → List (List LinkBreak) × List LinkBreak
rerr_loop cfg zero exts destlist = (exts, destlist)
rerr_loop cfg (suc n) exts [] = (exts, [])
rerr_loop cfg (suc n) exts (el ∷ els) =
    let chunk = take (cfg.max_mac_seq_per_ext + 1) (el ∷ els) in
    let rest =
      rerr_loop cfg n (exts ++ (chunk ∷ [])) (drop (cfg.max_mac_seq_per_ext + 1) (el ∷ els)) in
    if cfg.addext exts (length chunk) then rest else (exts, el ∷ els)

abbrev pub hwaddrs : List MeshIface → List ℕ
hwaddrs ifaces = map (λ i. i.hwaddr) ifaces

-- the message with these extensions
abbrev pub rerr_msg : Settings → List (List LinkBreak) → Msg
rerr_msg cfg exts = record empty_msg {
  ttl = ttl_max;
  l25_shost = cfg.l25_defsrc;
  l25_dhost = ether_broadcast;
  rerr = some (record { ifaces = hwaddrs cfg.meshifs });
  rerrdl = exts;
}

-- The message, `none` if there is no destination, and the destinations that are left. More
-- interfaces than the message has room for fail an `assert`.
unfoldable pub aodv_create_rerr : Settings → List LinkBreak → Step (Option Msg × List LinkBreak)
aodv_create_rerr cfg [] = pure (none, [])
aodv_create_rerr cfg (el ∷ els) =
    let (exts, left) = rerr_loop cfg (length (el ∷ els)) [] (el ∷ els) in
    if leb (length cfg.meshifs) max_mesh_ifaces_count
    then pure (some (rerr_msg cfg exts), left)
    else crash
