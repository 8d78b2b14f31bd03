-- ===== src/System/Reached.antt =====
-- What the operations do in the states that the daemon reaches.
use des_aodv.Common.{false, refl, ℕ, ◌≡◌, []}
use des_aodv.Dessert.{Dessert, Timeval}
use des_aodv.Message.{Msg, Settings, Oracle}
use des_aodv.PdrTracker.{fault}
use des_aodv.Gossip.{gossip_3, aodv_gossip_3}
use des_aodv.Gossip.Unheld.{unlucky_crash, gossip_3_idle}
use des_aodv.PacketBuffer.{waiting}
use des_aodv.Forward.{aodv_send_packets_from_buffer}
use des_aodv.Forward.Buffer.{Empties, send_packets_all}
use des_aodv.Cli.{Reader}
use des_aodv.Pipeline.{Callbacks}
use des_aodv.System.{System, Reachable}
use des_aodv.System.Kept.{TasksMatch}
use des_aodv.Message.{RreqExt}
use des_aodv.System.Soundness.{Reachable-IsSound}
use des_aodv.Handlers.Rreq.{gossip_step, to_rreq}

module _ (D : Dessert) (L : Callbacks) (R : Reader) where
  -- If the tasks run at the intervals of the settings with which the daemon starts, then in
  -- each state that it reaches in which the gossip type is GOSSIP_3, the daemon writes through
  -- a null pointer when it is to decide on sending a RREQ on and the random draw is against
  -- that; and the task that sends held RREQs would have none to send.
  pub Reachable-gossip_3 :
      (cfg : Settings) (s : System) (o : Oracle) (msg : Msg) (ext : RreqExt) (now : Timeval)
      → TasksMatch cfg
      → Reachable D L R cfg s
      → s.cfg.gossip_type ≡ gossip_3
      → o.lucky ≡ false
      → (gossip_step s.cfg o msg ext s.daemon ≡ fault)
        × ((aodv_gossip_3 D now s.daemon.gossip).1 ≡ [])
  unfolding gossip_step
  Reachable-gossip_3 cfg s o msg ext now tasks reached type unlucky =
      let empty = (Reachable-IsSound D L R cfg s tasks reached).well_formed.unheld in
      let g = s.daemon.gossip in
      (
        rw
            (
              unlucky_crash g s.cfg.gossip_type o.lucky (to_rreq msg ext) type unlucky empty,
              gossip_step,
            )
            refl,
        gossip_3_idle D now g empty,
      )

  -- If the tasks run at the intervals of the settings with which the daemon starts, then in each
  -- state that it reaches the packets that wait for a destination are taken out of
  -- the buffer, and sent in their order to the next hop.
  pub Reachable-send_packets :
      (cfg : Settings) (s : System) (dhost next_hop iface : ℕ)
      → TasksMatch cfg
      → Reachable D L R cfg s
      → Empties dhost next_hop iface s.daemon
          (waiting Msg s.daemon.db.pb dhost)
          (aodv_send_packets_from_buffer dhost next_hop iface s.daemon)
  Reachable-send_packets cfg s dhost next_hop iface tasks reached =
      send_packets_all dhost next_hop iface s.daemon
        (Reachable-IsSound D L R cfg s tasks reached).well_formed.apart
