-- ===== src/System/Handlers.antt =====
-- The callbacks of src/pipeline/aodv_pipeline.c but that for RREQs keep the state well-formed.
use des_aodv.Common.{◌||◌, not, none, some, ◌==◌, is_some, leb, if◌then◌else◌, take}
use des_aodv.Config.{max_mesh_ifaces_count}
use des_aodv.Dessert.{Dessert}
use des_aodv.RoutingTable.{no_flags}
use des_aodv.Message.{Msg, RxFlags, keep, drop, Settings, Oracle, MeshIface, after, mesh, less_ttl}
use des_aodv.Daemon.Keeps.{Keeps, bind-Keeps, pure-Keeps, send-Keeps, if-Keeps, option-Keeps}
use des_aodv.RouteError.{hwaddrs}
use des_aodv.Handlers.{age, aodv_drop_errors, aodv_handle_hello}
use des_aodv.Handlers.Rrep.{aodv_handle_rrep}
use des_aodv.Handlers.Rerr.{aodv_handle_rerr}
use des_aodv.System.WellFormed.{WellFormed}
use des_aodv.System.Buffer.{
  check2_dneigh-WellFormed, cap2_dneigh-WellFormed, capt_rrep-WellFormed, getroute2dest-WellFormed,
  add_precursor-WellFormed,
}
use des_aodv.System.Links.{
  measure-WellFormed, ext_loop-WellFormed, pdr_cap_hello-WellFormed, pdr_cap_hellorsp-WellFormed,
  pdr_get_rcvdhellocount-WellFormed,
}
use des_aodv.System.Packets.{send_packets-WellFormed}

module _ (D : Dessert) where
  pub handle_rrep-WellFormed :
      (cfg : Settings) (o : Oracle) (msg : Msg) (rx : RxFlags) (iface : MeshIface)
      → Keeps WellFormed (aodv_handle_rrep D cfg o msg rx iface)
  unfolding aodv_handle_rrep
  handle_rrep-WellFormed cfg o msg rx iface =
      option-Keeps msg.rrep _ _ (λ e. pure-Keeps keep)
        (λ ext is_rrep.
          if-Keeps (not rx.l2_dst) _ _ (λ e. pure-Keeps drop)
            (λ e. bind-Keeps _ _ (measure-WellFormed D cfg o (age msg) (o.now 0)) (λ aged.
              bind-Keeps _ _
                (capt_rrep-WellFormed D cfg.signal_strength_threshold (after 1 o) aged.l25_shost
                  aged.l2_shost iface.self ext.destination_sequence_number aged.u16 aged.u8
                  (o.now 0))
                (λ used.
                  if-Keeps (not used) _ _ (λ e1. pure-Keeps drop)
                    (λ e1.
                      if-Keeps rx.l25_dst _ _
                        (λ e2.
                          bind-Keeps _ _
                            (send_packets-WellFormed aged.l25_shost aged.l2_shost iface.self)
                            (λ u. pure-Keeps drop))
                        (λ e2.
                          bind-Keeps _ _
                            (getroute2dest-WellFormed D (after 2 o) aged.l25_dhost (o.now 0)
                              no_flags)
                            (λ route.
                              option-Keeps route _ _ (λ e3. pure-Keeps drop)
                                (λ hop e3.
                                  bind-Keeps _ _
                                    (add_precursor-WellFormed aged.l25_shost hop.0 hop.1
                                      o.precursor_found)
                                    (λ added.
                                      bind-Keeps _ _
                                        (send-Keeps
                                          (mesh (some hop.1) (record aged { l2_dhost = hop.0 })))
                                        (λ u. pure-Keeps drop))))))))))

  pub drop_errors-WellFormed :
      (o : Oracle) (msg : Msg) (rx : RxFlags) (iface : MeshIface)
      → Keeps WellFormed (aodv_drop_errors D o msg rx iface)
  unfolding aodv_drop_errors
  drop_errors-WellFormed o msg rx iface =
      if-Keeps (rx.l2_src || rx.l25_src) _ _ (λ e. pure-Keeps drop)
        (λ e.
          if-Keeps (is_some msg.rreq || is_some msg.rrep) _ _
            (λ e1.
              bind-Keeps _ _ (check2_dneigh-WellFormed D o msg.l2_shost iface.self (o.now 0))
                (λ known. pure-Keeps (if known then keep else drop)))
            (λ e1. pure-Keeps keep))

  pub handle_hello-WellFormed :
      (cfg : Settings) (o : Oracle) (msg : Msg) (iface : MeshIface)
      → Keeps WellFormed (aodv_handle_hello D cfg o msg iface)
  unfolding aodv_handle_hello
  handle_hello-WellFormed cfg o msg iface =
      option-Keeps msg.hello _ _ (λ e. pure-Keeps keep)
        (λ hello e.
          let ts = o.now 0 in
          let msg' = less_ttl msg in
          if-Keeps (leb 1 msg'.ttl) _ _
            (λ e1.
              bind-Keeps _ _
                (pdr_cap_hello-WellFormed D cfg (after 1 o) msg.l2_shost msg.u16
                  hello.hello_interval ts)
                (λ captured.
                  bind-Keeps _ _ (pdr_get_rcvdhellocount-WellFormed D msg.l2_shost ts) (λ count.
                    bind-Keeps _ _
                      (send-Keeps (
                        mesh (some iface.self) (record msg' {
                          l2_dhost = msg.l2_shost;
                          hello = some (record {
                            hello_rcvd_count = elim count [
                              | none ↦ hello.hello_rcvd_count
                              | some n ↦ n
                            ];
                            hello_interval = cfg.hello_interval;
                          });
                        })))
                      (λ u. pure-Keeps drop))))
            (λ e1.
              if-Keeps (iface.hwaddr == msg.l2_dhost) _ _
                (λ e2.
                  bind-Keeps _ _
                    (pdr_cap_hellorsp-WellFormed D cfg (after 1 o) msg.l2_shost hello.hello_interval
                      hello.hello_rcvd_count ts)
                    (λ captured.
                      bind-Keeps _ _
                        (cap2_dneigh-WellFormed D cfg.signal_strength_threshold (after 4 o)
                          msg.l2_shost msg.u16 iface.self ts)
                        (λ heard. pure-Keeps drop)))
                (λ e2. pure-Keeps drop)))

pub handle_rerr-WellFormed :
    (cfg : Settings) (msg : Msg) → Keeps WellFormed (aodv_handle_rerr cfg msg)
unfolding aodv_handle_rerr
handle_rerr-WellFormed cfg msg =
    option-Keeps msg.rerr _ _ (λ e. pure-Keeps keep)
      (λ rerr e. bind-Keeps _ _ (ext_loop-WellFormed rerr.ifaces msg.rerrdl) (λ again.
        bind-Keeps _ _
          (if-Keeps again _ _
            (λ e1. send-Keeps (
              mesh none (record msg {
                rerr =
                    some
                      (record rerr { ifaces = hwaddrs (take max_mesh_ifaces_count cfg.meshifs) });
              })))
            (λ e1. pure-Keeps tt))
          (λ u. pure-Keeps drop)))
