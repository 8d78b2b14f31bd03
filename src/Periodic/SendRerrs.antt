-- ===== src/Periodic/SendRerrs.antt =====
-- The loop that sends RERRs in src/pipeline/aodv_periodic.c.
use des_aodv.Common.{
  ℕ, ◌≡◌, ◌<◌, zero, suc, refl, ◌∙◌, ap, ◌+◌, Bool, true, false, none, List, [], ◌∷◌, ◌++◌, length,
  concat, map, leb, arith,
}
use des_aodv.Config.{max_mesh_ifaces_count}
use des_aodv.Dessert.{Dessert, Timeval}
use des_aodv.PdrTracker.{Outcome, done}
use des_aodv.RoutingTable.{LinkBreak}
use des_aodv.Message.{Output, mesh, sys, Settings, Oracle, after}
use des_aodv.Daemon.{Daemon}
use des_aodv.Daemon.Runs.{then_sent}
use des_aodv.RouteError.{aodv_create_rerr, rerr_msg, rerr_loop}
use des_aodv.RouteError.Split.{rerr_loop_all, rerr_loop_less, rerr_loop_stuck, HasRoom}
use des_aodv.Database.{aodv_db_putrerr}
use des_aodv.Periodic.{send_rerrs}

-- the destinations that a message reports
abbrev pub reported : Output → List LinkBreak
reported (mesh iface msg) = concat msg.rerrdl
reported (sys msg) = []

abbrev pub all_reported : List Output → List LinkBreak
all_reported outs = concat (map reported outs)

-- The loop ended, and reported the destinations.
abbrev pub Reports : Outcome (Daemon × List Output × Bool) → List LinkBreak → Type 0
Reports r dests =
    (d' : Daemon) × (outs : List Output) × (r ≡ done (d', outs, true)) × (all_reported outs ≡ dests)

module _ (D : Dessert) (cfg : Settings) (timestamp : Timeval) where
  -- the state after one more RERR
  abbrev pub logged : Oracle → Daemon → Daemon
  logged o d = record d { db = aodv_db_putrerr D d.db o timestamp }

  one_more :
      (n : ℕ) (o : Oracle) (el : LinkBreak) (els : List LinkBreak) (d : Daemon)
      → leb (length cfg.meshifs) max_mesh_ifaces_count ≡ true
      → Reports
          (send_rerrs D n cfg
            (after 1 o)
            timestamp
            (rerr_loop cfg (length (el ∷ els)) [] (el ∷ els)).1
            (logged o d))
          (rerr_loop cfg (length (el ∷ els)) [] (el ∷ els)).1
      → Reports (send_rerrs D (suc n) cfg o timestamp (el ∷ els) d) (el ∷ els)
  unfolding send_rerrs aodv_create_rerr
  one_more n o el els d few (d', outs, ran, dests) =
      let split = rerr_loop cfg (length (el ∷ els)) [] (el ∷ els) in
      (
        d',
        mesh none (rerr_msg cfg split.0) ∷ outs,
        rw few (
            ap
              (λ r.
                then_sent [] (then_sent (mesh none (rerr_msg cfg split.0) ∷ []) (then_sent [] r)))
              ran),
        ap (λ l. concat split.0 ++ l) dests ∙ rerr_loop_all cfg (length (el ∷ els)) [] (el ∷ els),
      )

  -- If there are no more interfaces than a RERR has room for, and a message has room for a
  -- first extension, then the loop ends after at most one round more than there are
  -- destinations, and the messages report all destinations, each as often as it is in the
  -- list, and in its order.
  pub send_rerrs_all :
      (n : ℕ) (o : Oracle) (destlist : List LinkBreak) (d : Daemon)
      → leb (length cfg.meshifs) max_mesh_ifaces_count ≡ true
      → HasRoom cfg (length destlist)
      → length destlist < n
      → Reports (send_rerrs D n cfg o timestamp destlist d) destlist
  unfolding send_rerrs aodv_create_rerr
  send_rerrs_all zero o destlist d few room rounds = absurd (omega arith)
  send_rerrs_all (suc n) o [] d few room rounds = (d, [], refl, refl)
  send_rerrs_all (suc n) o (el ∷ els) d few room rounds =
      let less = rerr_loop_less cfg (length els) el els room in
      one_more n o el els d few (
        send_rerrs_all n (after 1 o) (rerr_loop cfg (length (el ∷ els)) [] (el ∷ els)).1
          (logged o d) few (λ k small count. room k small (omega (arith, less)))
          (omega (arith, less)))

  -- If there are no more interfaces than a RERR has room for, more destinations than
  -- `max_mac_seq_per_ext`, and one more than these does not fit into a first extension, the
  -- loop never ends: each round sends one more RERR without a destination.
  pub send_rerrs_endless :
      (n : ℕ) (o : Oracle) (destlist : List LinkBreak) (d : Daemon)
      → leb (length cfg.meshifs) max_mesh_ifaces_count ≡ true
      → cfg.max_mac_seq_per_ext < length destlist
      → cfg.addext [] (cfg.max_mac_seq_per_ext + 1) ≡ false
      → (d' : Daemon) × (outs : List Output) × (send_rerrs D n cfg o timestamp destlist d
          ≡ done (d', outs, false))
        × (length outs ≡ n)
        × (all_reported outs ≡ [])
  unfolding send_rerrs aodv_create_rerr
  send_rerrs_endless zero o destlist d few long full = (d, [], refl, refl, refl)
  send_rerrs_endless (suc n) o [] d few long full = absurd (omega arith)
  send_rerrs_endless (suc n) o (el ∷ els) d few long full =
      let (d', outs, ran, count, none_reported) =
        send_rerrs_endless n (after 1 o) (el ∷ els) (logged o d) few long full in
      (
        d',
        mesh none (rerr_msg cfg []) ∷ outs,
        rw (few, rerr_loop_stuck cfg (length els) el els long full)
            (ap (λ r. then_sent [] (then_sent (mesh none (rerr_msg cfg []) ∷ []) (then_sent [] r)))
              ran),
        ap suc count,
        none_reported,
      )
