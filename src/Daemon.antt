-- ===== src/Daemon.antt =====
-- The state of the daemon besides its database, and the steps of its handlers: a step changes the
-- state, sends messages, and gives a result, or is `fault` (a division by zero, or a pointer to
-- nothing). A step is the code of a handler, run to its end.
pub mod Runs
pub mod Keeps
pub mod Sample
use des_aodv.Common.{ℕ, ◌+◌, ◌%◌, ◌^◌, Bool, true, false, Option, none, some, List, [], ◌∷◌, ◌++◌}
use des_aodv.PdrTracker.{Outcome, done, fault}
use des_aodv.Gossip.{Gossip}
use des_aodv.Database.{Db}
use des_aodv.Message.{Msg, Output}

-- `aodv_rreq_series_t`; `self` is the address.
pub record Series : Type 0 where
  pub self : ℕ
  pub msg : Msg
  pub retries : ℕ
  pub key : ℕ
  pub stop : Bool

-- The globals of the pipeline. `series` are the series that are allocated; those of which `stop` is
-- not set are the elements of `series_list`.
pub record Daemon : Type 0 where
  pub db : Db
  pub seq_num_global : ℕ
  pub data_seq_global : ℕ
  pub seq_num_hello : ℕ
  pub series : List Series
  pub gossip : Gossip

abbrev pub Step : Type 0 → Type 0
Step A = Daemon → Outcome (Daemon × List Output × A)

module _ {A : Type 0} where
  abbrev pub pure : A → Step A
  pure a d = done (d, [], a)

  abbrev pub gets : (Daemon → A) → Step A
  gets f d = done (d, [], f d)

  abbrev pub crash : Step A
  crash d = fault

  -- a call of the database
  abbrev pub on_db : (Db → Db × A) → Step A
  on_db f d = let (db, a) = f d.db in done (record d { db = db }, [], a)

  abbrev pub try_db : (Db → Outcome (Db × A)) → Step A
  try_db f d = elim (f d.db) [ done (db, a) ↦ done (record d { db = db }, [], a) | fault ↦ fault ]

  -- a call that follows a pointer to nothing where it gives `none`
  abbrev pub follow_db : (Db → Option (Db × A)) → Step A
  follow_db f d = elim (f d.db) [ some (db, a) ↦ done (record d { db = db }, [], a) | none ↦ fault ]

abbrev pub modify : (Daemon → Daemon) → Step (Unit {0})
modify f d = done (f d, [], tt)

abbrev pub send : Output → Step (Unit {0})
send out d = done (d, out ∷ [], tt)

abbrev pub and_then :
    {A B : Type 0} → Daemon × List Output × A → (A → Step B) → Outcome (Daemon × List Output × B)
and_then (d, out, a) f = elim (f a d) [
  | done (d', out', b) ↦ done (d', out ++ out', b)
  | fault ↦ fault
]

infixl 5 ◌>>=◌ ◌>>◌
abbrev pub ◌>>=◌ : {A B : Type 0} → Step A → (A → Step B) → Step B
◌>>=◌ m f d = elim (m d) [ done r ↦ and_then r f | fault ↦ fault ]

abbrev pub ◌>>◌ : {A B : Type 0} → Step A → Step B → Step B
m >> k = m >>= λ _. k
