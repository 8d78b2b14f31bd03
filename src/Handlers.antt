-- ===== src/Handlers.antt =====
-- src/pipeline/aodv_pipeline.c, the callbacks: messages of other daemons. Here are the check of the
-- sender and HELLOs; each of RREQ, RREP and RERR has its module.
pub mod Rreq
pub mod Rrep
pub mod Rerr
pub mod Examples
use des_aodv.Common.{
  ℕ, ◌+◌, Bool, true, false, ◌||◌, Option, none, some, ◌==◌, leb, if◌then◌else◌, is_some,
}
use des_aodv.Config.{ttl_max}
use des_aodv.Dessert.{Dessert, Timeval}
use des_aodv.PdrTracker.{Outcome, done, then_do}
use des_aodv.Metric.{aodv_metric_do}
use des_aodv.Database.{Db}
use des_aodv.Database.Neighbors.{
  aodv_db_check2_dneigh, aodv_db_pdr_cap_hello, aodv_db_pdr_get_rcvdhellocount,
  aodv_db_pdr_cap_hellorsp, aodv_db_cap2_dneigh,
}
use des_aodv.Message.{
  Msg, RxFlags, RrepExt, Verdict, keep, drop, Output, mesh, MeshIface, Settings, Oracle, after,
  empty_msg, less_ttl, more_hops,
}
use des_aodv.Daemon.{Step, pure, on_db, try_db, send, ◌>>=◌, ◌>>◌}

unfoldable pub _create_rrep : ℕ → ℕ → ℕ → ℕ → ℕ → ℕ → Msg
_create_rrep route_dest route_source rrep_next_hop seq hop_count initial_metric = record empty_msg {
  ttl = ttl_max;
  u8 = hop_count;
  u16 = initial_metric;
  l25_shost = route_dest;
  l25_dhost = route_source;
  l2_dhost = rrep_next_hop;
  rrep = some (record { destination_sequence_number = seq });
}

-- What the handlers of RREQs and RREPs do to the TTL, the hop count and the metric of a message.
unfoldable pub age : Msg → Msg
age msg = more_hops (if msg.ttl == 0 then msg else less_ttl msg)

module _ (D : Dessert) where
  -- `aodv_metric_do(&(msg->u16), msg->l2h.ether_shost, iface, &ts)`
  unfoldable pub measure : Settings → Oracle → Msg → Timeval → Step Msg
  measure cfg o msg ts = do
    metric ← try_db (λ db.
        then_do {B = Db × ℕ}
          (aodv_metric_do D cfg.metric_type db.pdr msg.u16 msg.l2_shost o.average ts)
          (λ r. done (record db { pdr = r.0 }, r.1)))
    pure (record msg { u16 = metric })

  unfoldable pub aodv_drop_errors : Oracle → Msg → RxFlags → MeshIface → Step Verdict
  aodv_drop_errors o msg rx iface =
      if rx.l2_src || rx.l25_src
      then pure drop
      else if is_some msg.rreq || is_some msg.rrep
      then (do
        known ← on_db (λ db. aodv_db_check2_dneigh D db o msg.l2_shost iface.self (o.now 0))
        pure (if known then keep else drop))
      else pure keep

  -- A request with a TTL above 1 is answered, an answer to this interface is taken in.
  unfoldable pub aodv_handle_hello : Settings → Oracle → Msg → MeshIface → Step Verdict
  aodv_handle_hello cfg o msg iface = elim msg.hello [
    | none ↦ pure keep
    | some hello ↦
        let ts = o.now 0 in
        let msg' = less_ttl msg in
        if leb 1 msg'.ttl
        then (do
          captured ← try_db (λ db.
              aodv_db_pdr_cap_hello D db cfg (after 1 o) msg.l2_shost msg.u16 hello.hello_interval
                ts)
          count ← try_db (λ db. aodv_db_pdr_get_rcvdhellocount D db msg.l2_shost ts)
          send (
              mesh (some iface.self) (record msg' {
                l2_dhost = msg.l2_shost;
                hello = some (record {
                  hello_rcvd_count = elim count [ none ↦ hello.hello_rcvd_count | some n ↦ n ];
                  hello_interval = cfg.hello_interval;
                });
              }))
          pure drop)
        else if iface.hwaddr == msg.l2_dhost
        then (do
          captured ← try_db (λ db.
              aodv_db_pdr_cap_hellorsp D db cfg (after 1 o) msg.l2_shost hello.hello_interval
                hello.hello_rcvd_count ts)
          heard ← on_db (λ db.
              aodv_db_cap2_dneigh D db cfg.signal_strength_threshold (after 4 o) msg.l2_shost
                msg.u16 iface.self ts)
          pure drop)
        else pure drop
  ]
