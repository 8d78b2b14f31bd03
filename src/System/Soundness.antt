-- ===== src/System/Soundness.antt =====
-- What holds of the daemon whenever it is at rest.
use des_aodv.Common.{refl, ℕ, ◌≡◌, subst, none, some, List, [], inl, inr, arith}
use des_aodv.Dessert.{Dessert}
use des_aodv.ScheduleTable.{Schedule}
use des_aodv.PacketBuffer.{pb_init}
use des_aodv.Timeslot.{create}
use des_aodv.PdrTracker.{Outcome, done}
use des_aodv.Message.{MeshIface, Settings, Oracle, Output}
use des_aodv.Database.{Db, aodv_db_init}
use des_aodv.Daemon.{Daemon}
use des_aodv.Daemon.Keeps.{Keeps, Satisfies, Outcome-cases, bind-Keeps, pure-Keeps}
use des_aodv.Cli.{Reader}
use des_aodv.Pipeline.{
  Packet, Callbacks, Callback, data_callbacks, mesh_callbacks, start, new_daemon,
}
use des_aodv.System.{
  System, HasWidth, Moves, Reachable, callback, from_host, send_hello, send_rreq, cleanup_database,
  scexecute, command, started, moved,
}
use des_aodv.Forward.{aodv_forward_multicast}
use des_aodv.System.WellFormed.{WellFormed}
use des_aodv.System.Packets.{
  forward_broadcast-WellFormed, forward-WellFormed, local_unicast-WellFormed, sys2rp-WellFormed,
}
use des_aodv.System.Handlers.{
  drop_errors-WellFormed, handle_hello-WellFormed, handle_rerr-WellFormed, handle_rrep-WellFormed,
}
use des_aodv.System.Rreq.{handle_rreq-WellFormed}
use des_aodv.System.Tasks.{
  send_hello-WellFormed, periodic_send_rreq-WellFormed, cleanup_database-WellFormed,
  scexecute-WellFormed,
}
use des_aodv.System.Kept.{TasksMatch, IsSound, Ends, All, all_of}
use des_aodv.System.Commands.{commands-Keeps}

-- A step keeps the state well-formed where it ends.
ended-WellFormed :
    {A : Type 0} (r : Outcome (Daemon × List Output × A)) (d : Daemon) (outs : List Output) (a : A)
    → r ≡ done (d, outs, a)
    → Satisfies WellFormed r
    → WellFormed d
ended-WellFormed r d outs a ran w = subst (λ x. Satisfies WellFormed x) ran w

module _ (D : Dessert) (L : Callbacks) (R : Reader) where
  abbrev KeepsAll : ℕ × Callback → Type 0
  KeepsAll (prio, cb) =
      (o : Oracle) (p : Packet) (iface : MeshIface)
      → HasWidth p.msg
      → Keeps WellFormed (cb o p iface)

  callbacks-Keeps : (cfg : Settings) → All KeepsAll (mesh_callbacks D L cfg)
  unfolding mesh_callbacks data_callbacks
  callbacks-Keeps cfg = (
    (λ o p iface w. pure-Keeps (L.msg_check p iface)),
    (
      (λ o p iface w. pure-Keeps (L.msg_ifaceflags p iface)),
      (
        (λ o p iface w.
            bind-Keeps _ _ (drop_errors-WellFormed D o p.msg p.rx iface) (λ v. pure-Keeps (p, v))),
        (
          (λ o p iface w.
              bind-Keeps _ _ (handle_hello-WellFormed D cfg o p.msg iface)
                (λ v. pure-Keeps (p, v))),
          (
            (λ o p iface w.
                bind-Keeps _ _ (handle_rreq-WellFormed D cfg o p.msg p.rx iface w)
                  (λ v. pure-Keeps (p, v))),
            (
              (λ o p iface w.
                  bind-Keeps _ _ (handle_rerr-WellFormed cfg p.msg) (λ v. pure-Keeps (p, v))),
              (
                (λ o p iface w.
                    bind-Keeps _ _ (handle_rrep-WellFormed D cfg o p.msg p.rx iface)
                      (λ v. pure-Keeps (p, v))),
                (
                  (λ o p iface w. pure-Keeps (L.mesh_ipttl p iface)),
                  (
                    (λ o p iface w.
                        bind-Keeps _ _ (forward_broadcast-WellFormed D o p.msg p.rx)
                          (λ v. pure-Keeps (p, v))),
                    (
                      (λ o p iface w.
                          bind-Keeps _ _ (pure-Keeps (aodv_forward_multicast p.rx))
                            (λ v. pure-Keeps (p, v))),
                      (
                        (λ o p iface w.
                            bind-Keeps _ _ (forward-WellFormed D cfg o p.msg p.rx)
                              (λ v. pure-Keeps (p, v))),
                        (
                          (λ o p iface w.
                              bind-Keeps _ _ (local_unicast-WellFormed D o p.msg p.rx)
                                (λ v. pure-Keeps (p, v))),
                          tt,
                        ),
                      ),
                    ),
                  ),
                ),
              ),
            ),
          ),
        ),
      ),
    ),
  )

  Moves-IsSound :
      (s s' : System) (outs : List Output) → IsSound s → Moves D L R s outs s' → IsSound s'
  Moves-IsSound s _ _ sound (callback {d = d} {outs = outs} prio cb o p iface r mem width ran) =
      record {
        well_formed = ended-WellFormed (cb o p iface s.daemon) d outs r ran (
            (all_of KeepsAll (mesh_callbacks D L s.cfg) (callbacks-Keeps s.cfg) (prio, cb) mem o p
                iface width).run
              s.daemon sound.well_formed);
        tasks = sound.tasks;
      }
  Moves-IsSound s _ _ sound (from_host {d = d} {outs = outs} o msg v ran) = record {
    well_formed =
        ended-WellFormed _ d outs v ran
          ((sys2rp-WellFormed D s.cfg o msg).run s.daemon sound.well_formed);
    tasks = sound.tasks;
  }
  Moves-IsSound s _ _ sound (send_hello {d = d} {outs = outs} payload r ran) = record {
    well_formed =
        ended-WellFormed _ d outs r ran
          ((send_hello-WellFormed s.cfg payload).run s.daemon sound.well_formed);
    tasks = sound.tasks;
  }
  Moves-IsSound s _ _ sound (send_rreq {d = d} {outs = outs} o r ran) = record {
    well_formed =
        ended-WellFormed _ d outs r ran
          ((periodic_send_rreq-WellFormed D s.cfg o).run s.daemon sound.well_formed);
    tasks = sound.tasks;
  }
  Moves-IsSound s _ _ sound (cleanup_database {d = d} {outs = outs} o r ran) = record {
    well_formed =
        ended-WellFormed _ d outs r ran
          ((cleanup_database-WellFormed D o).run s.daemon sound.well_formed);
    tasks = sound.tasks;
  }
  Moves-IsSound s _ _ sound (scexecute {d = d} {outs = outs} rounds o r ran) = record {
    well_formed =
        ended-WellFormed _ d outs r ran
          ((scexecute-WellFormed D rounds s.cfg o).run s.daemon sound.well_formed);
    tasks = sound.tasks;
  }
  Moves-IsSound s _ _ sound (command o c argv r mem ran) =
      subst (λ x. Ends x) ran (commands-Keeps R D o c mem argv s.cfg s.daemon sound)

-- The packet buffer of a new database is empty.
db_init_empty :
    (D : Dessert) (cfg : Settings) (ss : List Schedule) (o : Oracle) (db : Db)
    → aodv_db_init D cfg ss o ≡ done (some db)
    → db.pb.entries ≡ []
unfolding aodv_db_init pb_init create
db_init_empty D cfg ss o db ran = ground (arith, ran)

-- the settings of the tasks and the widths at the start
new_daemon-WellFormed : (db : Db) → db.pb.entries ≡ [] → WellFormed (new_daemon db)
new_daemon-WellFormed db empty = record {
  apart = rw empty tt;
  series = tt;
  seq_num_global = omega arith;
  data_seq_global = omega arith;
  seq_num_hello = omega arith;
  unheld = refl;
}

start-WellFormed :
    (D : Dessert) (cfg : Settings) (o : Oracle) (d : Daemon)
    → start D cfg o ≡ done (some d)
    → WellFormed d
unfolding start
start-WellFormed D cfg o d ran = elim (Outcome-cases (aodv_db_init D cfg [] o)) [
  | inl failed ↦ absurd (ground (arith, failed, ran))
  | inr (none, made) ↦ absurd (ground (arith, made, ran))
  | inr (some db, made) ↦
      let same : new_daemon db ≡ d = ground (arith, made, ran) in
      subst WellFormed same (new_daemon-WellFormed db (db_init_empty D cfg [] o db made))
]

module _ (D : Dessert) (L : Callbacks) (R : Reader) where
  -- If the tasks run at the intervals of the settings with which the daemon starts, then this
  -- holds after any callbacks, packets of this host, periodic tasks and commands, in any
  -- order, none of which fails, if the destination sequence numbers of received RREQs have 32
  -- bits: no host is twice in the packet buffer; each series has a RREQ and at most
  -- RREQ_RETRIES retries, and no two live ones are for one host; the sequence numbers have 32
  -- and 16 bits; no RREQ is in the hold queue; and each periodic task runs at the interval
  -- that is set, that for RREQs not at all if it is 0.
  pub Reachable-IsSound :
      (cfg : Settings) (s : System) → TasksMatch cfg → Reachable D L R cfg s → IsSound s
  Reachable-IsSound cfg s tasks (started {d = d} o ran) = record {
    well_formed = start-WellFormed D cfg o d ran;
    tasks = tasks;
  }
  Reachable-IsSound cfg s tasks (moved {s = s0} {outs = outs} before move) =
      Moves-IsSound D L R s0 s outs (Reachable-IsSound cfg s0 tasks before) move
