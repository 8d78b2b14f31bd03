-- ===== src/Daemon/Runs.antt =====
-- What a sequence of steps does, from what each of them does.
use des_aodv.Common.{◌≡◌, ap, ◌∙◌, List, [], ◌++◌}
use des_aodv.PdrTracker.{Outcome, done, fault}
use des_aodv.Message.{Output}
use mathlib.Core.List.{append-nil}
use des_aodv.Daemon.{Daemon, Step, pure, and_then, ◌>>=◌}

-- a run after these messages were sent
abbrev pub then_sent :
    {A : Type 0}
    → List Output
    → Outcome (Daemon × List Output × A)
    → Outcome (Daemon × List Output × A)
then_sent outs (done (d, outs', a)) = done (d, outs ++ outs', a)
then_sent outs fault = fault

-- The run of `m >>= f`, from that of `m`, which sends nothing, and the rest.
pub run_then :
    {A B : Type 0} (m : Step A) (f : A → Step B) {d d' : Daemon} {a : A}
    {r : Outcome (Daemon × List Output × B)}
    → m d ≡ done (d', [], a)
    → f a d' ≡ r
    → (m >>= f) d ≡ then_sent [] r
run_then m f first rest =
    ap (λ x. elim x [ done y ↦ and_then y f | fault ↦ fault ]) first ∙ ap (then_sent []) rest

-- The run of `m`, of which the result is changed.
pub run_last :
    {A B : Type 0} (m : Step A) (f : A → B) {d d' : Daemon} {outs : List Output} {a : A}
    → m d ≡ done (d', outs, a)
    → ◌>>=◌ {B = B} m (λ x. pure (f x)) d ≡ done (d', outs, f a)
run_last m f {d' = d'} {outs = outs} {a = a} ran =
    ap (λ r. elim r [ done y ↦ and_then y (λ x. pure (f x)) | fault ↦ fault ]) ran
    ∙ ap (λ l. done (d', l, f a)) (append-nil outs)

-- The run of `m >>= f`, from that of `m` and the rest.
pub run_on :
    {A B : Type 0} (m : Step A) (f : A → Step B) {d d' : Daemon} {outs : List Output} {a : A}
    {r : Outcome (Daemon × List Output × B)}
    → m d ≡ done (d', outs, a)
    → f a d' ≡ r
    → (m >>= f) d ≡ then_sent outs r
run_on m f {outs = outs} first rest =
    ap (λ x. elim x [ done y ↦ and_then y f | fault ↦ fault ]) first ∙ ap (then_sent outs) rest
