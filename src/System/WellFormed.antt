-- ===== src/System/WellFormed.antt =====
-- What holds of the state of the daemon after every step.
use des_aodv.Common.{
  ℕ, ◌≡◌, ◌≤◌, ◌<◌, ◌^◌, refl, Bool, true, false, Option, some, List, [], ◌∷◌, is_some, arith,
}
use des_aodv.Config.{rreq_retries}
use des_aodv.Table.{find, remove, modify, add, at_address, Apart, find-add, is_some-find-remove}
use des_aodv.PdrTracker.{Outcome, done}
use des_aodv.PacketBuffer.{PbEl}
use des_aodv.Database.{Db}
use des_aodv.Message.{Msg}
use des_aodv.Daemon
use des_aodv.Daemon.{Series, Daemon, Step, on_db, try_db, follow_db}
use des_aodv.Daemon.Keeps.{Keeps, on_db-Keeps, try_db-Keeps, follow_db-Keeps, modify-Keeps}
use des_aodv.RreqSeries.{running, address, set_series, free_series}
use des_aodv.Forward.Buffer.{BufferIsApart}

-- A series has a RREQ to send, and was not tried too often.
pub record Sound (s : Series) : Type 0 where
  pub is_rreq : is_some s.msg.rreq ≡ true
  pub tried : s.retries ≤ rreq_retries

-- Each series is sound, and no two live ones are for the same host.
abbrev pub SeriesAreSound : List Series → Type 0
SeriesAreSound [] = Unit {0}
SeriesAreSound (s ∷ ss) =
    Sound s × (s.stop ≡ false → is_some (find (running s.key) ss) ≡ false) × SeriesAreSound ss

-- No host is twice in the packet buffer, the series are sound, the numbers have their width, and no
-- RREQ is held back.
pub record WellFormed (d : Daemon) : Type 0 where
  pub apart : BufferIsApart d
  pub series : SeriesAreSound d.series
  pub seq_num_global : d.seq_num_global < 2 ^ 32
  pub data_seq_global : d.data_seq_global < 2 ^ 16
  pub seq_num_hello : d.seq_num_hello < 2 ^ 16
  pub unheld : d.gossip.hold_queue ≡ []

pub same_buffer :
    (d : Daemon) (db : Db) → db.pb ≡ d.db.pb → WellFormed d → WellFormed (record d { db = db })
same_buffer d db same w = record {
  apart = rw same w.apart;
  series = w.series;
  seq_num_global = w.seq_num_global;
  data_seq_global = w.data_seq_global;
  seq_num_hello = w.seq_num_hello;
  unheld = w.unheld;
}

-- Calls of the database that leave the packet buffer alone.
pub on_db-WellFormed :
    {A : Type 0} (f : Db → Db × A) → ((db : Db) → (f db).0.pb ≡ db.pb) → Keeps WellFormed (on_db f)
on_db-WellFormed f same = on_db-Keeps f (λ d w. same_buffer d (f d.db).0 (same d.db) w)

pub try_db-WellFormed :
    {A : Type 0} (f : Db → Outcome (Db × A))
    → ((db db' : Db) (a : A) → f db ≡ done (db', a) → db'.pb ≡ db.pb)
    → Keeps WellFormed (try_db f)
try_db-WellFormed f same = try_db-Keeps f (λ d db a ran w. same_buffer d db (same d.db db a ran) w)

pub follow_db-WellFormed :
    {A : Type 0} (f : Db → Option (Db × A))
    → ((db db' : Db) (a : A) → f db ≡ some (db', a) → db'.pb ≡ db.pb)
    → Keeps WellFormed (follow_db f)
follow_db-WellFormed f same =
    follow_db-Keeps f (λ d db a ran w. same_buffer d db (same d.db db a ran) w)

-- A call of the database that changes the packet buffer.
pub buffer_db-WellFormed :
    {A : Type 0} (f : Db → Db × A)
    → ((db : Db)
        → Apart (λ (e : PbEl Msg). e.dhost_ether) db.pb.entries
        → Apart (λ (e : PbEl Msg). e.dhost_ether) (f db).0.pb.entries)
    → Keeps WellFormed (on_db f)
buffer_db-WellFormed f kept = on_db-Keeps f (λ d w. record {
  apart = kept d.db w.apart;
  series = w.series;
  seq_num_global = w.seq_num_global;
  data_seq_global = w.data_seq_global;
  seq_num_hello = w.seq_num_hello;
  unheld = w.unheld;
})

-- Assignments to the series.
series-WellFormed :
    (f : List Series → List Series)
    → ((ss : List Series) → SeriesAreSound ss → SeriesAreSound (f ss))
    → Keeps WellFormed (Daemon.modify (λ d. record d { series = f d.series }))
series-WellFormed f kept =
    modify-Keeps (λ d. record d { series = f d.series })
      (λ d w. record {
        apart = w.apart;
        series = kept d.series w.series;
        seq_num_global = w.seq_num_global;
        data_seq_global = w.data_seq_global;
        seq_num_hello = w.seq_num_hello;
        unheld = w.unheld;
      })

-- An assignment that starts no series.
abbrev pub Harmless : (Series → Series) → Type 0
Harmless f =
    (s : Series)
    → Sound s
    → Sound (f s) × ((f s).key ≡ s.key) × ((f s).stop ≡ false → s.stop ≡ false)

none_running-modify :
    (key : ℕ) (p : Series → Bool) (f : Series → Series) (ss : List Series)
    → Harmless f
    → SeriesAreSound ss
    → is_some (find (running key) ss) ≡ false
    → is_some (find (running key) (modify p f ss)) ≡ false
none_running-modify key p f [] harmless sound none_before = refl
none_running-modify key p f (s ∷ ss) harmless sound none_before =
    ground (arith, harmless s sound.0, none_running-modify key p f ss harmless sound.2)

modify-SeriesAreSound :
    (p : Series → Bool) (f : Series → Series) (ss : List Series)
    → Harmless f
    → SeriesAreSound ss
    → SeriesAreSound (modify p f ss)
modify-SeriesAreSound p f [] harmless sound = tt
modify-SeriesAreSound p f (s ∷ ss) harmless sound = ground (
  arith,
  harmless s sound.0,
  modify-SeriesAreSound p f ss harmless sound.2,
  none_running-modify s.key p f ss harmless sound.2,
)

pub set_series-WellFormed :
    (a : ℕ) (f : Series → Series) → Harmless f → Keeps WellFormed (set_series a f)
set_series-WellFormed a f harmless =
    series-WellFormed (λ ss. modify (at_address address a) f ss)
      (λ ss. modify-SeriesAreSound (at_address address a) f ss harmless)

remove-SeriesAreSound :
    (p : Series → Bool) (ss : List Series) → SeriesAreSound ss → SeriesAreSound (remove p ss)
remove-SeriesAreSound p [] sound = tt
remove-SeriesAreSound p (s ∷ ss) sound =
    ground (arith, remove-SeriesAreSound p ss sound.2, is_some-find-remove p (running s.key) ss)

pub free_series-WellFormed : (a : ℕ) → Keeps WellFormed (free_series a)
free_series-WellFormed a =
    series-WellFormed (λ ss. remove (at_address address a) ss)
      (λ ss. remove-SeriesAreSound (at_address address a) ss)

pub add-SeriesAreSound :
    (s : Series) (ss : List Series)
    → Sound s
    → is_some (find (running s.key) ss) ≡ false
    → SeriesAreSound ss
    → SeriesAreSound (add s ss)
add-SeriesAreSound s [] fresh free sound = (fresh, λ live. refl, tt)
add-SeriesAreSound s (x ∷ ss) fresh free sound =
    ground (arith, add-SeriesAreSound s ss fresh, find-add (running x.key) s ss)
