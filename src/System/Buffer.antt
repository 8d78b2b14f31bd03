-- ===== src/System/Buffer.antt =====
-- The calls of the database that leave the packet buffer alone keep the state well-formed.
use des_aodv.Common.{ℕ, refl, Bool, ℤ}
use des_aodv.Dessert.{Dessert, Timeval}
use des_aodv.Helper.{MetricType}
use des_aodv.RoutingTable.{Flags}
use des_aodv.Message.{Oracle}
use des_aodv.Database.{
  aodv_db_dropschedule, aodv_db_addschedule, aodv_db_popschedule, aodv_db_getrreqcount,
  aodv_db_putrreq, aodv_db_getrerrcount, aodv_db_putrerr, aodv_db_capt_data_seq,
}
use des_aodv.Database.Routes.{
  aodv_db_capt_rreq, aodv_db_capt_rrep, aodv_db_getroute2dest, aodv_db_add_precursor,
}
use des_aodv.Database.Neighbors.{aodv_db_check2_dneigh, aodv_db_cap2_dneigh, aodv_db_update_rssi}
use des_aodv.Daemon.{on_db}
use des_aodv.Daemon.Keeps.{Keeps}
use des_aodv.System.WellFormed.{WellFormed, on_db-WellFormed}

pub dropschedule-WellFormed :
    (addr type : ℕ) → Keeps WellFormed (on_db (λ db. aodv_db_dropschedule db addr type))
unfolding aodv_db_dropschedule
dropschedule-WellFormed addr type =
    on_db-WellFormed (λ db. aodv_db_dropschedule db addr type) (λ db. refl)

pub add_precursor-WellFormed :
    (dest precursor iface : ℕ) (found : Bool)
    → Keeps WellFormed (on_db (λ db. aodv_db_add_precursor db dest precursor iface found))
unfolding aodv_db_add_precursor
add_precursor-WellFormed dest precursor iface found =
    on_db-WellFormed (λ db. aodv_db_add_precursor db dest precursor iface found) (λ db. refl)

pub update_rssi-WellFormed :
    (addr iface : ℕ) (average : ℤ)
    → Keeps WellFormed (on_db (λ db. aodv_db_update_rssi db addr iface average))
unfolding aodv_db_update_rssi
update_rssi-WellFormed addr iface average =
    on_db-WellFormed (λ db. aodv_db_update_rssi db addr iface average) (λ db. refl)

module _ (D : Dessert) where
  pub addschedule-WellFormed :
      (t : Timeval) (addr type param : ℕ) (memory : Bool)
      → Keeps WellFormed (on_db (λ db. aodv_db_addschedule D db t addr type param memory))
  unfolding aodv_db_addschedule
  addschedule-WellFormed t addr type param memory =
      on_db-WellFormed (λ db. aodv_db_addschedule D db t addr type param memory) (λ db. refl)

  pub popschedule-WellFormed :
      (t : Timeval) → Keeps WellFormed (on_db (λ db. aodv_db_popschedule D db t))
  unfolding aodv_db_popschedule
  popschedule-WellFormed t = on_db-WellFormed (λ db. aodv_db_popschedule D db t) (λ db. refl)

  pub getrreqcount-WellFormed :
      (t : Timeval) → Keeps WellFormed (on_db (λ db. aodv_db_getrreqcount D db t))
  unfolding aodv_db_getrreqcount
  getrreqcount-WellFormed t = on_db-WellFormed (λ db. aodv_db_getrreqcount D db t) (λ db. refl)

  pub putrreq-WellFormed :
      (o : Oracle) (t : Timeval) → Keeps WellFormed (on_db (λ db. (aodv_db_putrreq D db o t, tt)))
  unfolding aodv_db_putrreq
  putrreq-WellFormed o t = on_db-WellFormed (λ db. (aodv_db_putrreq D db o t, tt)) (λ db. refl)

  pub getrerrcount-WellFormed :
      (t : Timeval) → Keeps WellFormed (on_db (λ db. aodv_db_getrerrcount D db t))
  unfolding aodv_db_getrerrcount
  getrerrcount-WellFormed t = on_db-WellFormed (λ db. aodv_db_getrerrcount D db t) (λ db. refl)

  pub putrerr-WellFormed :
      (o : Oracle) (t : Timeval) → Keeps WellFormed (on_db (λ db. (aodv_db_putrerr D db o t, tt)))
  unfolding aodv_db_putrerr
  putrerr-WellFormed o t = on_db-WellFormed (λ db. (aodv_db_putrerr D db o t, tt)) (λ db. refl)

  pub capt_data_seq-WellFormed :
      (o : Oracle) (src seq hops : ℕ) (t : Timeval)
      → Keeps WellFormed (on_db (λ db. aodv_db_capt_data_seq D db o src seq hops t))
  unfolding aodv_db_capt_data_seq
  capt_data_seq-WellFormed o src seq hops t =
      on_db-WellFormed (λ db. aodv_db_capt_data_seq D db o src seq hops t) (λ db. refl)

  pub capt_rreq-WellFormed :
      (m : MetricType) (o : Oracle) (dest orig hop iface seq metric hops : ℕ) (t : Timeval)
      → Keeps WellFormed
          (on_db (λ db. aodv_db_capt_rreq D db m o dest orig hop iface seq metric hops t))
  unfolding aodv_db_capt_rreq
  capt_rreq-WellFormed m o dest orig hop iface seq metric hops t =
      on_db-WellFormed (λ db. aodv_db_capt_rreq D db m o dest orig hop iface seq metric hops t)
        (λ db. refl)

  pub capt_rrep-WellFormed :
      (threshold : ℤ) (o : Oracle) (dest hop iface seq metric hops : ℕ) (t : Timeval)
      → Keeps WellFormed
          (on_db (λ db. aodv_db_capt_rrep D db threshold o dest hop iface seq metric hops t))
  unfolding aodv_db_capt_rrep
  capt_rrep-WellFormed threshold o dest hop iface seq metric hops t =
      on_db-WellFormed (λ db. aodv_db_capt_rrep D db threshold o dest hop iface seq metric hops t)
        (λ db. refl)

  pub getroute2dest-WellFormed :
      (o : Oracle) (host : ℕ) (t : Timeval) (flags : Flags)
      → Keeps WellFormed (on_db (λ db. aodv_db_getroute2dest D db o host t flags))
  unfolding aodv_db_getroute2dest
  getroute2dest-WellFormed o host t flags =
      on_db-WellFormed (λ db. aodv_db_getroute2dest D db o host t flags) (λ db. refl)

  pub check2_dneigh-WellFormed :
      (o : Oracle) (addr iface : ℕ) (t : Timeval)
      → Keeps WellFormed (on_db (λ db. aodv_db_check2_dneigh D db o addr iface t))
  unfolding aodv_db_check2_dneigh
  check2_dneigh-WellFormed o addr iface t =
      on_db-WellFormed (λ db. aodv_db_check2_dneigh D db o addr iface t) (λ db. refl)

  pub cap2_dneigh-WellFormed :
      (threshold : ℤ) (o : Oracle) (addr seq iface : ℕ) (t : Timeval)
      → Keeps WellFormed (on_db (λ db. aodv_db_cap2_dneigh D db threshold o addr seq iface t))
  unfolding aodv_db_cap2_dneigh
  cap2_dneigh-WellFormed threshold o addr seq iface t =
      on_db-WellFormed (λ db. aodv_db_cap2_dneigh D db threshold o addr seq iface t) (λ db. refl)
