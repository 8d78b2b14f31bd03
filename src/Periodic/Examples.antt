-- ===== src/Periodic/Examples.antt =====
-- Examples on src/pipeline/aodv_periodic.c.
use des_aodv.Common.{◌≡◌, refl, List, [], ◌∷◌, length, false, arith}
use des_aodv.Clock.{clock, at_second}
use des_aodv.PdrTracker.{done}
use des_aodv.Message.{Output}
use des_aodv.Daemon.{Daemon}
use des_aodv.Daemon.Sample.{settings, oracle, daemon, broken}
use des_aodv.Periodic.{send_rerrs}
use des_aodv.Periodic.SendRerrs.{Reports, all_reported, send_rerrs_all, send_rerrs_endless}

send_rerrs_all_example :
    Reports
      (send_rerrs clock 3 settings oracle (at_second 8) (broken 17 ∷ broken 18 ∷ []) daemon)
      (broken 17 ∷ broken 18 ∷ [])
send_rerrs_all_example =
    send_rerrs_all clock settings (at_second 8) 3 oracle (broken 17 ∷ broken 18 ∷ []) daemon refl
      (λ k small count. ground (arith, count)) (omega arith)

send_rerrs_endless_example :
    (d' : Daemon) × (outs : List Output) × (send_rerrs clock 100 settings oracle
        (at_second 8)
        (broken 17 ∷ broken 18 ∷ broken 19 ∷ [])
        daemon
      ≡ done (d', outs, false))
    × (length outs ≡ 100)
    × (all_reported outs ≡ [])
send_rerrs_endless_example =
    send_rerrs_endless clock settings (at_second 8) 100 oracle
      (broken 17 ∷ broken 18 ∷ broken 19 ∷ []) daemon refl (omega arith) refl
