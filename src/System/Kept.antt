-- ===== src/System/Kept.antt =====
-- What a command of src/cli/aodv_cli.c that changes a setting has to keep: a well-formed state, and
-- tasks that run at the intervals that are set.
use Prim.Native.String.{String}
use des_aodv.Common.{
  Bool, ℕ, ◌≡◌, refl, ◌∙◌, ap, sym, subst, none, some, List, [], ◌∷◌, ◌==◌, if◌then◌else◌,
  Option-cases, inl, inr, arith,
}
use mathlib.Core.List.{Memᴰ}
use mathlib.Core.List.Memᴰ.{not-nil}
use des_aodv.PdrTracker.{Outcome, done, fault, then_do}
use des_aodv.Message.{Settings, Oracle, Output, MeshIface}
use des_aodv.RoutingTable.{LinkBreak}
use des_aodv.Pipeline.{start_settings}
use des_aodv.Database.{Db}
use des_aodv.Database.Routes.{aodv_db_routing_reset}
use des_aodv.Database.Neighbors.{aodv_db_neighbor_reset, aodv_db_pdr_upd_expected}
use des_aodv.Daemon.{Daemon}
use des_aodv.Daemon.Keeps.{Satisfies, Outcome-cases}
use des_aodv.PdrTracker.{aodv_db_pdr_nt_upd_expected}
use des_aodv.NeighborTable.{aodv_db_nt_neighbor_reset}
use des_aodv.Cli.{Command, CliResult, cli_ok, millis}
use des_aodv.System.{System}
use des_aodv.System.WellFormed.{WellFormed, same_buffer}

-- Each periodic task runs at the interval that is set; that for RREQs is off if it is 0.
pub record TasksMatch (cfg : Settings) : Type 0 where
  pub hello : cfg.send_hello_periodic ≡ some (millis cfg.hello_interval)
  pub rreq :
      cfg.send_rreq_periodic
      ≡ (if cfg.rreq_interval == 0 then none else some (millis cfg.rreq_interval))

-- The settings with which the daemon starts are such.
pub start_settings-TasksMatch :
    (l25_defsrc : ℕ) (meshifs : List MeshIface) (per_ext : ℕ)
    (addext : List (List LinkBreak) → ℕ → Bool)
    → TasksMatch (start_settings l25_defsrc meshifs per_ext addext)
start_settings-TasksMatch l25_defsrc meshifs per_ext addext = record { hello = refl; rreq = refl }

pub record IsSound (s : System) : Type 0 where
  pub well_formed : WellFormed s.daemon
  pub tasks : TasksMatch s.cfg

abbrev pub Ends : Outcome ((Settings × Daemon) × List Output × CliResult) → Type 0
Ends (done ((cfg, d), outs, r)) = IsSound (record { cfg = cfg; daemon = d })
Ends fault = Unit {0}

-- Where a command does not fail it leaves a sound system.
abbrev pub CommandKeeps : (List String → Command) → Type 0
CommandKeeps c =
    (argv : List String) (cfg : Settings) (d : Daemon)
    → IsSound (record { cfg = cfg; daemon = d })
    → Ends (c argv (cfg, d))

pub pb-pdr_upd_expected :
    (db db' : Db) (cfg : Settings) (interval : ℕ)
    → aodv_db_pdr_upd_expected db cfg interval ≡ done db'
    → db'.pb ≡ db.pb
unfolding aodv_db_pdr_upd_expected
pb-pdr_upd_expected db db' cfg interval ran =
    elim (Outcome-cases (aodv_db_pdr_nt_upd_expected cfg.tracking_factor db.pdr interval)) [
      | inl failed ↦ absurd (ground (arith, failed, ran))
      | inr (tracker, upd) ↦ ground (arith, upd, ran)
    ]

pub pb-neighbor_reset :
    (db db' : Db) (cfg : Settings) (o : Oracle)
    → (aodv_db_neighbor_reset db cfg o).0 ≡ some db'
    → db'.pb ≡ db.pb
unfolding aodv_db_neighbor_reset
pb-neighbor_reset db db' cfg o ran =
    elim (Option-cases (aodv_db_nt_neighbor_reset db.nt cfg.hello_interval (o.memory 0)).1) [
      | inl failed ↦ absurd (ground (arith, failed, ran))
      | inr (ts, made) ↦ ground (arith, made, ran)
    ]

pub same_tasks :
    (cfg cfg' : Settings)
    → cfg'.send_hello_periodic ≡ cfg.send_hello_periodic
    → cfg'.hello_interval ≡ cfg.hello_interval
    → cfg'.send_rreq_periodic ≡ cfg.send_rreq_periodic
    → cfg'.rreq_interval ≡ cfg.rreq_interval
    → TasksMatch cfg
    → TasksMatch cfg'
same_tasks cfg cfg' a b c e t = record {
  hello = a ∙ t.hello ∙ sym (ap (λ n. some (millis n)) b);
  rreq = c ∙ t.rreq ∙ sym (ap (λ n. if n == 0 then none else some (millis n)) e);
}

abbrev pub All {ℓ} : {A : Type ℓ} → (A → Type 0) → List A → Type 0
All P [] = Unit {0}
All P (x ∷ xs) = P x × All P xs

pub all_of {ℓ} : {A : Type ℓ} (P : A → Type 0) (xs : List A) → All P xs → (x : A) → Memᴰ x xs → P x
all_of P [] all x there = absurd (not-nil there)
all_of P (y ∷ xs) all x (Memᴰ.head same) = subst P (sym same) all.0
all_of P (y ∷ xs) all x (Memᴰ.tail there) = all_of P xs all.1 x there

pub sent-Ends :
    (cfg : Settings) (r : Outcome (Daemon × List Output × Unit {0}))
    → TasksMatch cfg
    → Satisfies WellFormed r
    → Ends (elim r [ done (d', outs, u) ↦ done ((cfg, d'), outs, cli_ok) | fault ↦ fault ])
sent-Ends cfg fault tasks w = tt
sent-Ends cfg (done (d', outs, u)) tasks w = record { well_formed = w; tasks = tasks }

pub upd_expected-Ends :
    (cfg : Settings) (d : Daemon) (db : Db) (interval : ℕ)
    → db.pb ≡ d.db.pb
    → WellFormed d
    → TasksMatch cfg
    → Ends (
        then_do {B = (Settings × Daemon) × List Output × CliResult}
          (aodv_db_pdr_upd_expected db cfg interval)
          (λ db'. done ((cfg, record d { db = db' }), [], cli_ok)))
upd_expected-Ends cfg d db interval same w tasks =
    elim (Outcome-cases (aodv_db_pdr_upd_expected db cfg interval)) [
      | inl failed ↦ rw (failed, Ends) tt
      | inr (db', ran) ↦
          rw (ran, Ends)
            (record {
              well_formed =
                  same_buffer d db' (pb-pdr_upd_expected db db' cfg interval ran ∙ same) w;
              tasks = tasks;
            })
    ]

-- What a command assigns to the metric or to the gossip type leaves the tasks alone.
abbrev pub SameTasks : Settings → Settings → Type 0
SameTasks cfg cfg' =
    (cfg'.send_hello_periodic ≡ cfg.send_hello_periodic)
    × (cfg'.hello_interval ≡ cfg.hello_interval)
    × (cfg'.send_rreq_periodic ≡ cfg.send_rreq_periodic)
    × (cfg'.rreq_interval ≡ cfg.rreq_interval)

pub routing_reset-WellFormed :
    (d : Daemon) → WellFormed d → WellFormed (record d { db = (aodv_db_routing_reset d.db).0 })
unfolding aodv_db_routing_reset
routing_reset-WellFormed d w = same_buffer d _ refl w
