-- ===== src/RateLog/Window.antt =====
-- The counters of the rate logs count the messages whose second has not run out.
use des_aodv.Common.{
  ℕ, Bool, false, ◌+◌, ◌-◌, ◌%◌, ◌^◌, ◌≤◌, ◌<◌, ◌≡◌, refl, true, false, some, List, [], ◌∷◌, ◌==◌,
  if◌then◌else◌, arith, length,
}
use des_aodv.Dessert.{Dessert, Timeval, Ordered}
use des_aodv.Timeslot.{add_until, create, Element, insert, addobject, deleteobject}
use des_aodv.Timeslot.Order.{live, expired, purge_each}
use des_aodv.Timeslot.Expiry.{element, deleteobject_absent, length-insert}
use des_aodv.Timeslot.Refine.{IsValid, purgeobjects_refines, add_until-IsValid, add_until_elements}
use des_aodv.Timeslot.Counting.{
  Below, Below-mono, contains-Below, insert-Below, live-Below, alive_at, still, alive_at-insert,
  alive_at-live, length-live,
}
use des_aodv.RateLog.{
  RateLog, aodv_db_rl_init, decrement_counter, aodv_db_rl_cleanup, aodv_db_rl_putrreq,
  aodv_db_rl_getrreqcount,
}

empty_of_length : (es : List Element) → 0 ≡ length es → es ≡ []
empty_of_length [] h = refl
empty_of_length (e ∷ es) h = absurd (omega arith)

module _ {D : Dessert} (O : Ordered D) where
  open O use {instant}

  purge_each-decrement :
      (es : List Element) (count : ℕ)
      → count < 2 ^ 32
      → (purge_each O decrement_counter es count < 2 ^ 32)
        × ((purge_each O decrement_counter es count + length es) % 2 ^ 32 ≡ count)
  unfolding decrement_counter
  purge_each-decrement [] count h = ground arith
  purge_each-decrement (e ∷ es) count h =
      ground (arith, purge_each-decrement es ((count + 2 ^ 32 - 1) % 2 ^ 32))

  -- The invariant: the counter is the number of elements, and pseudo pointers are not used twice.
  pub record Counts (log : RateLog) : Type 0 where
    pub valid : IsValid O log.ts
    pub counted : log.count ≡ log.ts.size
    pub below : Below log.pseudo_pointer log.ts.elements

  pub cleanup-Counts :
      (log : RateLog) (t : Timeval)
      → Counts log
      → let log' = aodv_db_rl_cleanup D log t in
        Counts log' × (log'.ts.elements ≡ live O t log.ts.elements)
  unfolding aodv_db_rl_cleanup
  cleanup-Counts log t c = ground (
    arith,
    purgeobjects_refines O decrement_counter t log.count c.valid,
    length-live O t log.ts.elements,
    purge_each-decrement (expired O t log.ts.elements) log.count,
    live-Below O log.pseudo_pointer t log.ts.elements c.below,
    c.counted,
    c.valid.counted,
    c.valid.small,
  )

  module _ (log : RateLog) (timestamp now : Timeval) (c : Counts log)
      (room : log.ts.size + 1 < 2 ^ 32) where
    abbrev until : Timeval
    until = D.timevaladd2 log.ts.purge_timeout timestamp

    abbrev queue : List Element
    queue = insert D (element until log.pseudo_pointer) log.ts.elements

    absent : deleteobject log.ts log.pseudo_pointer ≡ (log.ts, false)
    absent =
        deleteobject_absent log.ts log.pseudo_pointer
          (contains-Below log.pseudo_pointer log.ts.elements c.below)

    added :
        let (ts', count, stored) =
          addobject D decrement_counter log.ts timestamp log.pseudo_pointer true now log.count in
        (stored ≡ true)
        × (ts'.elements ≡ (
            if log.ts.size == 0 then element until log.pseudo_pointer ∷ [] else live O now queue))
        × (count ≡ (
            if log.ts.size == 0
            then log.count
            else purge_each O decrement_counter (expired O now queue) log.count))
        × (ts'.purge_timeout ≡ log.ts.purge_timeout)
    unfolding addobject
    added = ground (
      arith,
      absent,
      add_until_elements O decrement_counter until log.pseudo_pointer now log.count c.valid room,
    )

    put_stored-Counts :
        log.pseudo_pointer + 1 < 2 ^ 64
        → let log' = aodv_db_rl_putrreq D log timestamp true now in
          Counts log'
          × (log'.ts.size ≤ log.ts.size + 1)
          × (log'.pseudo_pointer ≡ log.pseudo_pointer + 1)
          × (log'.ts.purge_timeout ≡ log.ts.purge_timeout)
    unfolding aodv_db_rl_putrreq addobject
    put_stored-Counts wrap = ground (
      arith,
      added,
      add_until-IsValid O decrement_counter until log.pseudo_pointer now log.count c.valid true
          room,
      c.counted,
      c.valid.counted,
      length-live O now queue,
      length-insert D (element until log.pseudo_pointer) log.ts.elements,
      purge_each-decrement (expired O now queue) log.count,
      live-Below O (log.pseudo_pointer + 1) now queue,
      insert-Below O (log.pseudo_pointer + 1) (element until log.pseudo_pointer) log.ts.elements,
      Below-mono {m = log.pseudo_pointer} {n = log.pseudo_pointer + 1} log.ts.elements,
    )

    -- What a stored put adds to the number of elements that are alive at a later time.
    put_stored_alive :
        (t : Timeval)
        → O.instant now ≤ O.instant t
        → alive_at O t (aodv_db_rl_putrreq D log timestamp true now).ts.elements
          ≡ still O t until + alive_at O t log.ts.elements
    unfolding aodv_db_rl_putrreq
    put_stored_alive t later = ground (
      arith,
      added,
      alive_at-live O t now queue,
      alive_at-insert O t (element until log.pseudo_pointer) log.ts.elements,
      c.valid.counted,
      empty_of_length log.ts.elements,
    )

    -- A message for which there is no memory uses up an object, and is not counted.
    pub put-Counts :
        (memory : Bool)
        → log.pseudo_pointer + 1 < 2 ^ 64
        → let log' = aodv_db_rl_putrreq D log timestamp memory now in
          Counts log'
          × (log'.ts.size ≤ log.ts.size + 1)
          × (log'.pseudo_pointer ≡ log.pseudo_pointer + 1)
          × (log'.ts.purge_timeout ≡ log.ts.purge_timeout)
    unfolding aodv_db_rl_putrreq addobject add_until
    put-Counts true wrap = put_stored-Counts wrap
    put-Counts false wrap = ground (
      arith,
      c.valid,
      c.counted,
      Below-mono {m = log.pseudo_pointer} {n = log.pseudo_pointer + 1} log.ts.elements,
      c.below,
    )

    -- What a put adds to the number of elements that are alive at a later time.
    pub put_alive :
        (memory : Bool) (t : Timeval)
        → O.instant now ≤ O.instant t
        → alive_at O t (aodv_db_rl_putrreq D log timestamp memory now).ts.elements
          ≡ (if memory then still O t until else 0) + alive_at O t log.ts.elements
    unfolding aodv_db_rl_putrreq addobject add_until
    put_alive true t later = put_stored_alive t later
    put_alive false t later = ground arith

  -- a message sent at a time, whether there was memory to log it, and the clock then
  pub record Sent : Type 0 where
    pub timestamp : Timeval
    pub memory : Bool
    pub now : Timeval

  pub put_all : RateLog → List Sent → RateLog
  put_all log [] = log
  put_all log (m ∷ ms) = put_all (aodv_db_rl_putrreq D log m.timestamp m.memory m.now) ms

  -- The messages that could be logged and of which the time, one timeout on, is after `t`.
  abbrev pub sent_within : Timeval → Timeval → List Sent → ℕ
  sent_within timeout t [] = 0
  sent_within timeout t (m ∷ ms) =
      (if m.memory then still O t (D.timevaladd2 timeout m.timestamp) else 0)
      + sent_within timeout t ms

  -- The clock of no message is after `t`.
  abbrev pub LoggedBefore : Timeval → List Sent → Type 0
  LoggedBefore t [] = Unit {0}
  LoggedBefore t (m ∷ ms) = (O.instant m.now ≤ O.instant t) × LoggedBefore t ms

  pub put_all_alive :
      (ms : List Sent) (log : RateLog) (t : Timeval)
      → Counts log
      → log.ts.size + length ms < 2 ^ 32
      → log.pseudo_pointer + length ms < 2 ^ 64
      → LoggedBefore t ms
      → Counts (put_all log ms)
        × (alive_at O t (put_all log ms).ts.elements
            ≡ sent_within log.ts.purge_timeout t ms + alive_at O t log.ts.elements)
  unfolding put_all
  put_all_alive [] log t c room wrap before = (c, omega arith)
  put_all_alive (m ∷ ms) log t c room wrap before = ground (
    arith,
    put-Counts log m.timestamp m.now c (omega arith) m.memory (omega arith),
    put_alive log m.timestamp m.now c (omega arith) m.memory t before.0,
    put_all_alive ms (aodv_db_rl_putrreq D log m.timestamp m.memory m.now) t,
  )

  -- Start from a log of which the counter is right, and log any sequence of messages, with or
  -- without memory for each, none at a clock after `t`, so few that the counters of 32 and 64
  -- bits do not wrap. Then the count that is read at `t` is the number of these messages for
  -- which there was memory and of which the time, one timeout on, is after `t`, plus that of
  -- the elements before them that are alive at `t`.
  pub getrreqcount_window :
      (ms : List Sent) (log : RateLog) (t : Timeval)
      → Counts log
      → log.ts.size + length ms < 2 ^ 32
      → log.pseudo_pointer + length ms < 2 ^ 64
      → LoggedBefore t ms
      → (aodv_db_rl_getrreqcount D (put_all log ms) t).1
        ≡ sent_within log.ts.purge_timeout t ms + alive_at O t log.ts.elements
  unfolding aodv_db_rl_getrreqcount
  getrreqcount_window ms log t c room wrap before =
      let done = put_all_alive ms log t c room wrap before in
      ground (arith, done, cleanup-Counts (put_all log ms) t done.0)

  pub init-Counts : {log : RateLog} → aodv_db_rl_init true ≡ some log → Counts log
  unfolding aodv_db_rl_init create
  init-Counts e = ground arith
