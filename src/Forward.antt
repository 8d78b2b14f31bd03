-- ===== src/Forward.antt =====
-- src/pipeline/aodv_forward.c: data packets, from the mesh and from this host.
pub mod Buffer
pub mod Once
pub mod Unrouted
pub mod Examples
use des_aodv.Common.{
  ◌-◌, ℕ, zero, suc, ◌+◌, ◌%◌, ◌^◌, Bool, true, false, not, ◌||◌, Option, none, some, List, [], ◌∷◌,
  ◌==◌, leb, if◌then◌else◌, length, is_some,
}
use des_aodv.Config.{rerr_ratelimit}
use des_aodv.Dessert.{Dessert, Timeval}
use des_aodv.RoutingTable.{no_flags}
use des_aodv.PacketBuffer.{waiting}
use des_aodv.Database.{
  Db, aodv_db_pop_packet, aodv_db_capt_data_seq, aodv_db_getrerrcount, aodv_db_putrerr,
  aodv_db_push_packet,
}
use des_aodv.Database.Routes.{aodv_db_getroute2dest}
use des_aodv.Message.{
  Msg, RxFlags, Verdict, keep, drop, needmsgproc, Output, mesh, sys, Settings, Oracle, after,
  ether_broadcast, less_ttl, more_hops,
}
use des_aodv.Daemon
use des_aodv.Daemon.{Daemon, Step, pure, gets, crash, on_db, send, ◌>>=◌, ◌>>◌}
use des_aodv.RouteError.{aodv_create_rerr}
use des_aodv.RreqSeries.{aodv_pipeline_delete_series_ether, aodv_send_rreq}

-- `++data_seq_global`
abbrev pub next_data_seq : Step ℕ
next_data_seq = do
  seq ← gets (λ d. (d.data_seq_global + 1) % 2 ^ 16)
  Daemon.modify (λ d. record d { data_seq_global = seq })
  pure seq

-- The loop over the packets that wait for a host; the first argument bounds the rounds.
unfoldable pub send_loop : ℕ → ℕ → ℕ → ℕ → Step (Unit {0})
send_loop zero dhost next_hop iface = pure tt
send_loop (suc n) dhost next_hop iface = do
  buffered ← on_db (λ db. aodv_db_pop_packet db dhost)
  elim buffered [
    | none ↦ pure tt
    | some msg ↦ do
      seq ← next_data_seq
      send (mesh (some iface) (record msg { u16 = seq; l2_dhost = next_hop }))
      send_loop n dhost next_hop iface
  ]

-- One round more than there are packets: the last finds none.
unfoldable pub aodv_send_packets_from_buffer : ℕ → ℕ → ℕ → Step (Unit {0})
aodv_send_packets_from_buffer dhost next_hop iface = do
  aodv_pipeline_delete_series_ether dhost
  rounds ← gets (λ d. length (waiting Msg d.db.pb dhost) + 1)
  send_loop rounds dhost next_hop iface

unfoldable pub aodv_forward_multicast : RxFlags → Verdict
aodv_forward_multicast rx = if rx.l25_multicast then drop else keep

-- The message has a processing header where `rx` is not `none`; the result has the new flags.
unfoldable pub aodv_sys_drop_multicast : Option RxFlags → Msg → Option RxFlags × Verdict
aodv_sys_drop_multicast none msg = (none, needmsgproc)
aodv_sys_drop_multicast (some rx) msg =
    let rx' : RxFlags =
      if msg.l25_dhost == ether_broadcast
      then record rx { l25_broadcast = true }
      else if msg.l25_dhost % 2 == 1
      then record rx { l25_multicast = true }
      else rx in
    (some rx', if rx'.l25_multicast then drop else keep)

module _ (D : Dessert) where
  -- What three handlers begin with: a message with a TTL of 0 or a known number is dropped, the
  -- others go on with a lower TTL and a higher hop count.
  unfoldable pub take_packet : Oracle → Msg → Timeval → Step (Option Msg)
  take_packet o msg timestamp = if msg.ttl == 0 then pure none else do
    let msg' = more_hops (less_ttl msg)
    fresh ← on_db (λ db. aodv_db_capt_data_seq D db o msg'.l25_shost msg'.u16 msg'.u8 timestamp)
    pure (if fresh then some msg' else none)

  unfoldable pub aodv_forward_broadcast : Oracle → Msg → RxFlags → Step Verdict
  aodv_forward_broadcast o msg rx =
      if rx.l25_broadcast
      then (do
        taken ← take_packet (after 1 o) msg (o.now 0)
        elim taken [
          | none ↦ pure drop
          | some msg' ↦ do send (mesh none msg'); send (sys msg'); pure drop
        ])
      else pure keep

  -- No route: a RERR for the destination, unless there were too many. The `malloc` of the list
  -- element is not tested for NULL.
  unfoldable pub report_unreachable : Settings → Oracle → ℕ → Timeval → Step (Unit {0})
  report_unreachable cfg o dhost timestamp = do
    rerr_count ← on_db (λ db. aodv_db_getrerrcount D db timestamp)
    if leb rerr_ratelimit rerr_count
        then pure tt
        else if is_some (o.malloc 0)
        then (do
          (rerr_msg, left) ←
              aodv_create_rerr cfg (record { host = dhost; sequence_number = 2 ^ 32 - 1 } ∷ [])
          elim rerr_msg [
            | none ↦ pure tt
            | some m ↦ do send (mesh none m); on_db (λ db. (aodv_db_putrerr D db o timestamp, tt))
          ])
        else crash

  unfoldable pub aodv_forward : Settings → Oracle → Msg → RxFlags → Step Verdict
  aodv_forward cfg o msg rx = if not rx.l2_dst || rx.l25_dst then pure keep else do
    let timestamp = o.now 0
    taken ← take_packet (after 1 o) msg timestamp
    elim taken [
      | none ↦ pure drop
      | some msg' ↦ do
        route ←
            on_db (λ db. aodv_db_getroute2dest D db (after 2 o) msg'.l25_dhost timestamp no_flags)
        elim route [
          | some (next_hop, iface) ↦ do
            send (mesh (some iface) (record msg' { l2_dhost = next_hop }))
            pure drop
          | none ↦ do report_unreachable cfg (after 3 o) msg'.l25_dhost timestamp; pure drop
        ]
    ]

  unfoldable pub aodv_sys2rp : Settings → Oracle → Msg → Step Verdict
  aodv_sys2rp cfg o msg =
      let msg' : Msg = record msg { ttl = 255; u8 = 0 } in
      if msg'.l25_dhost == ether_broadcast
      then (do seq ← next_data_seq; send (mesh none (record msg' { u16 = seq })); pure drop)
      else do
        let ts = o.now 0
        route ← on_db (λ db.
            aodv_db_getroute2dest D db (after 1 o) msg'.l25_dhost ts
              (record no_flags { local_used = true }))
        elim route [
          | some (next_hop, iface) ↦ do
            seq ← next_data_seq
            send (mesh (some iface) (record msg' { u16 = seq; l2_dhost = next_hop }))
            pure drop
          | none ↦ do
            on_db (λ db. (aodv_db_push_packet D db (after 2 o) msg'.l25_dhost msg' ts, tt))
            aodv_send_rreq D cfg (after 4 o) msg'.l25_dhost
            pure drop
        ]

  unfoldable pub aodv_local_unicast : Oracle → Msg → RxFlags → Step Verdict
  aodv_local_unicast o msg rx =
      if rx.l25_dst
      then (do
        taken ← take_packet (after 1 o) msg (o.now 0)
        elim taken [ none ↦ pure drop | some msg' ↦ do send (sys msg'); pure drop ])
      else pure drop
