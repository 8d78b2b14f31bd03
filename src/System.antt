-- ===== src/System.antt =====
-- The daemon as a whole: its settings and its state, and the steps between which it is at rest: a
-- callback, a packet of this host, a periodic task, or a command.
pub mod WellFormed
pub mod Buffer
pub mod Links
pub mod Series
pub mod Packets
pub mod Rreq
pub mod Handlers
pub mod Tasks
pub mod Kept
pub mod Commands
pub mod Soundness
pub mod Reached
pub mod Examples
use Prim.Native.String.{String}
use des_aodv.Common.{ℕ, ◌≡◌, ◌<◌, ◌^◌, Option, some, List, [], ◌∷◌}
use mathlib.Core.List.{Memᴰ}
use des_aodv.Dessert.{Dessert}
use des_aodv.PdrTracker.{done}
use des_aodv.Message.{Msg, RreqExt, Verdict, MeshIface, Settings, Oracle, Output}
use des_aodv.Daemon.{Daemon}
use des_aodv.Forward.{aodv_sys2rp}
use des_aodv.Periodic.{
  PerResult, aodv_periodic_send_hello, aodv_periodic_send_rreq, aodv_periodic_cleanup_database,
  aodv_periodic_scexecute,
}
use des_aodv.Cli.{Reader, Command, CliResult}
use des_aodv.Pipeline.{Packet, Callbacks, Callback, mesh_callbacks, set_commands, start}

pub record System : Type 0 where
  pub cfg : Settings
  pub daemon : Daemon

-- The destination sequence number of a RREQ has 32 bits.
abbrev pub HasWidth : Msg → Type 0
HasWidth msg = (ext : RreqExt) → msg.rreq ≡ some ext → ext.destination_sequence_number < 2 ^ 32

module _ (D : Dessert) (L : Callbacks) (R : Reader) where
  -- What can happen to the daemon, in any order, with what it sends. The task `aodv_gossip_3` is not
  -- among it: it is added only after an addition to the hold queue. `scexecute` is a round of the
  -- task that executes a schedule, in which the loop that sends RERRs has so many rounds.
  pub data Moves : System → List Output → System → Type 0 where
    callback :
        {s : System} {d : Daemon} {outs : List Output} (prio : ℕ) (cb : Callback) (o : Oracle)
        (p : Packet) (iface : MeshIface) (r : Packet × Verdict)
        → Memᴰ (prio, cb) (mesh_callbacks D L s.cfg)
        → HasWidth p.msg
        → cb o p iface s.daemon ≡ done (d, outs, r)
        → Moves s outs (record s { daemon = d })
    from_host :
        {s : System} {d : Daemon} {outs : List Output} (o : Oracle) (msg : Msg) (v : Verdict)
        → aodv_sys2rp D s.cfg o msg s.daemon ≡ done (d, outs, v)
        → Moves s outs (record s { daemon = d })
    send_hello :
        {s : System} {d : Daemon} {outs : List Output} (payload : ℕ) (r : PerResult)
        → aodv_periodic_send_hello s.cfg payload s.daemon ≡ done (d, outs, r)
        → Moves s outs (record s { daemon = d })
    send_rreq :
        {s : System} {d : Daemon} {outs : List Output} (o : Oracle) (r : PerResult)
        → aodv_periodic_send_rreq D s.cfg o s.daemon ≡ done (d, outs, r)
        → Moves s outs (record s { daemon = d })
    cleanup_database :
        {s : System} {d : Daemon} {outs : List Output} (o : Oracle) (r : PerResult)
        → aodv_periodic_cleanup_database D o s.daemon ≡ done (d, outs, r)
        → Moves s outs (record s { daemon = d })
    scexecute :
        {s : System} {d : Daemon} {outs : List Output} (rounds : ℕ) (o : Oracle)
        (r : Option PerResult)
        → aodv_periodic_scexecute D rounds s.cfg o s.daemon ≡ done (d, outs, r)
        → Moves s outs (record s { daemon = d })
    command :
        {s : System} {cfg : Settings} {d : Daemon} {outs : List Output} (o : Oracle)
        (c : List String → Command) (argv : List String) (r : CliResult)
        → Memᴰ c (set_commands D R o)
        → c argv (s.cfg, s.daemon) ≡ done ((cfg, d), outs, r)
        → Moves s outs (record { cfg = cfg; daemon = d })

  -- what the daemon can come to from its start
  pub data Reachable (cfg : Settings) : System → Type 0 where
    started :
        {d : Daemon} (o : Oracle)
        → start D cfg o ≡ done (some d)
        → Reachable cfg (record { cfg = cfg; daemon = d })
    moved :
        {s s' : System} {outs : List Output} → Reachable cfg s → Moves s outs s' → Reachable cfg s'
