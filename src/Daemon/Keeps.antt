-- ===== src/Daemon/Keeps.antt =====
-- Invariants of the daemon that steps keep.
use des_aodv.Common.{
  ◌≡◌, ◌⊎◌, refl, Bool, true, false, Option, none, some, List, [], if◌then◌else◌, Option-cases, inl,
  inr,
}
use des_aodv.PdrTracker.{Outcome, done, fault}
use des_aodv.Message.{Output}
use des_aodv.Database.{Db}
use des_aodv.Daemon
use des_aodv.Daemon.{
  Daemon, Step, pure, gets, crash, on_db, try_db, follow_db, send, and_then, ◌>>=◌, ◌>>◌,
}
use des_aodv.Daemon.Runs.{then_sent}

pub Outcome-cases : {A : Type 0} (r : Outcome A) → (r ≡ fault) ⊎ ((a : A) × (r ≡ done a))
Outcome-cases fault = inl refl
Outcome-cases (done a) = inr (a, refl)

module _ (I : Daemon → Type 0) where
  -- where a run does not fail its state satisfies the invariant
  abbrev pub Satisfies : {A : Type 0} → Outcome (Daemon × List Output × A) → Type 0
  Satisfies (done r) = I r.0
  Satisfies fault = Unit {0}

  pub record Keeps {A : Type 0} (m : Step A) : Type 0 where
    pub run : (d : Daemon) → I d → Satisfies (m d)

  then_sent-Satisfies :
      {A : Type 0} (outs : List Output) (r : Outcome (Daemon × List Output × A))
      → Satisfies r
      → Satisfies (then_sent outs r)
  then_sent-Satisfies outs fault s = tt
  then_sent-Satisfies outs (done (d, outs', a)) s = s

  and_then-Satisfies :
      {A B : Type 0} (f : A → Step B) (r : Outcome (Daemon × List Output × A))
      → ((a : A) → Keeps (f a))
      → Satisfies r
      → Satisfies (elim r [ done x ↦ and_then x f | fault ↦ fault ])
  and_then-Satisfies f fault k s = tt
  and_then-Satisfies f (done (d, outs, a)) k s = then_sent-Satisfies outs (f a d) ((k a).run d s)

module _ {I : Daemon → Type 0} where
  pub bind-Keeps :
      {A B : Type 0} (m : Step A) (f : A → Step B)
      → Keeps I m
      → ((a : A) → Keeps I (f a))
      → Keeps I (m >>= f)
  bind-Keeps m f first rest = record {
    run = λ d i. and_then-Satisfies I f (m d) rest (first.run d i);
  }

  pub pure-Keeps : {A : Type 0} (a : A) → Keeps I (pure a)
  pure-Keeps a = record { run = λ d i. i }

  pub gets-Keeps : {A : Type 0} (f : Daemon → A) → Keeps I (gets f)
  gets-Keeps f = record { run = λ d i. i }

  -- What follows a look at the state, with what is known of the value.
  pub bind-gets-Keeps :
      {A B : Type 0} (P : A → Type 0) (f : Daemon → A) (k : A → Step B)
      → ((d : Daemon) → I d → P (f d))
      → ((a : A) → P a → Keeps I (k a))
      → Keeps I (gets f >>= k)
  bind-gets-Keeps P f k known rest = record {
    run = λ d i. then_sent-Satisfies I [] (k (f d) d) ((rest (f d) (known d i)).run d i);
  }

  pub crash-Keeps : {A : Type 0} → Keeps I (crash {A = A})
  crash-Keeps = record { run = λ d i. tt }

  pub send-Keeps : (out : Output) → Keeps I (send out)
  send-Keeps out = record { run = λ d i. i }

  pub if-Keeps :
      {A : Type 0} (b : Bool) (x y : Step A)
      → (b ≡ true → Keeps I x)
      → (b ≡ false → Keeps I y)
      → Keeps I (if b then x else y)
  if-Keeps true x y on off = on refl
  if-Keeps false x y on off = off refl

  pub option-Keeps :
      {A B : Type 0} (o : Option A) (x : Step B) (f : A → Step B)
      → (o ≡ none → Keeps I x)
      → ((a : A) → o ≡ some a → Keeps I (f a))
      → Keeps I (elim o [ none ↦ x | some a ↦ f a ])
  option-Keeps none x f absent here = absent refl
  option-Keeps (some a) x f absent here = here a refl

  pub modify-Keeps :
      (f : Daemon → Daemon) → ((d : Daemon) → I d → I (f d)) → Keeps I (Daemon.modify f)
  modify-Keeps f k = record { run = k }

  pub on_db-Keeps :
      {A : Type 0} (f : Db → Db × A)
      → ((d : Daemon) → I d → I (record d { db = (f d.db).0 }))
      → Keeps I (on_db f)
  on_db-Keeps f k = record { run = k }

  pub try_db-Keeps :
      {A : Type 0} (f : Db → Outcome (Db × A))
      → ((d : Daemon) (db : Db) (a : A) → f d.db ≡ done (db, a) → I d → I (record d { db = db }))
      → Keeps I (try_db f)
  try_db-Keeps f k = record {
    run = λ d i. elim (Outcome-cases (f d.db)) [
      | inl failed ↦ rw (failed, Satisfies) tt
      | inr ((db, a), ran) ↦ rw (ran, Satisfies) (k d db a ran i)
    ];
  }

  pub follow_db-Keeps :
      {A : Type 0} (f : Db → Option (Db × A))
      → ((d : Daemon) (db : Db) (a : A) → f d.db ≡ some (db, a) → I d → I (record d { db = db }))
      → Keeps I (follow_db f)
  follow_db-Keeps f k = record {
    run = λ d i. elim (Option-cases (f d.db)) [
      | inl failed ↦ rw (failed, Satisfies) tt
      | inr ((db, a), ran) ↦ rw (ran, Satisfies) (k d db a ran i)
    ];
  }
