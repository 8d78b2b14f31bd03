-- ===== src/Report/Timeslots.antt =====
-- src/database/timeslot.c, `timeslot_report`, and the calls that report the timeslot of a table.
use Prim.Native.String.{String, ◌++◌, len}
use des_aodv.Common.{
  ℕ, ◌≡◌, ◌≤◌, refl, ◌∙◌, ◌+◌, ◌*◌, ltb, Option, none, some, List, [], ◌∷◌, length, Bool-cases, inl,
  inr, arith,
}
use text.Mathlib.TextPositions.{len-append}
use des_aodv.Dessert.{Timeval}
use des_aodv.Timeslot.{Element, Timeslot}
use des_aodv.PdrTracker.{Outcome, fault}
use des_aodv.Database.{Db}
use des_aodv.Report.{Printf, Documented, strcat_all}
use des_aodv.Report.Buffer.{total, strcat_all_lem}

-- `ts->head`, the last element of the list
abbrev pub latest : Element → List Element → Element
latest e [] = e
latest e (x ∷ es) = latest x es

module _ (P : Printf) where
  open P use {number, six_digits, snprintf}

  -- a time as `%ld.%.6ld` writes it, with the end of the line
  abbrev pub time_row : Timeval → String
  time_row t = number t.tv_sec ++ ("." ++ (six_digits t.tv_usec ++ "\n"))

  -- The loop over the elements, from the tail on.
  unfoldable pub element_rows : List Element → List String
  element_rows [] = []
  element_rows (e ∷ es) =
      snprintf 128 "element       : " ∷ snprintf 128 (time_row e.purge_time) ∷ element_rows es

  unfoldable pub timeslot_rows : Option Timeslot → List String
  timeslot_rows none = snprintf 128 "Time Slot: NULL\n" ∷ []
  timeslot_rows (some ts) = elim ts.elements [
    | [] ↦ snprintf 128 "Time Slot: EMPTY\n" ∷ []
    | e ∷ es ↦
        snprintf 128 "---------- Time Slot  -------------\n"
        ∷ snprintf 128 ("Timeslot size : " ++ (number ts.size ++ "\n"))
        ∷ snprintf 128 ("max timestamp : " ++ time_row (latest e es).purge_time)
        ∷ element_rows (e ∷ es)
  ]

  -- `none` is a null pointer. The result of `calloc` is not tested.
  unfoldable pub timeslot_report : Option Timeslot → Outcome String
  timeslot_report ts = strcat_all 1024 "" (timeslot_rows ts)

  unfoldable pub aodv_db_neighbor_timeslot_report : Db → Outcome String
  aodv_db_neighbor_timeslot_report db = timeslot_report (some db.nt.ts)

  unfoldable pub aodv_db_packet_buffer_timeslot_report : Db → Outcome String
  aodv_db_packet_buffer_timeslot_report db = timeslot_report (some db.pb.ts)

  unfoldable pub aodv_db_data_seq_timeslot_report : Db → Outcome String
  aodv_db_data_seq_timeslot_report db = timeslot_report (some db.ds.ts)

  module _ (doc : Documented P) where
    -- A row has the bytes of its text, or 127 where it is longer.
    row_least : (n : ℕ) (s : String) → n ≤ len s → n ≤ 127 → n ≤ len (snprintf 128 s)
    row_least n s long short = elim (Bool-cases (ltb (len s) 128)) [
      | inl fits ↦ rw (doc.whole 128 s fits) long
      | inr cut ↦ rw (doc.cut 128 s cut) short
    ]

    time_row_least : (t : Timeval) → 9 ≤ len (time_row t)
    time_row_least t = omega (
      arith,
      len-append (number t.tv_sec) ("." ++ (six_digits t.tv_usec ++ "\n")),
      len-append "." (six_digits t.tv_usec ++ "\n"),
      len-append (six_digits t.tv_usec) "\n",
      doc.digit t.tv_sec,
      doc.digits t.tv_usec,
    )

    element_rows_least : (es : List Element) → 25 * length es ≤ total (element_rows es)
    unfolding element_rows
    element_rows_least [] = omega arith
    element_rows_least (e ∷ es) = omega (
      arith,
      row_least 16 "element       : " (omega arith) (omega arith),
      row_least 9 (time_row e.purge_time) (time_row_least e.purge_time) (omega arith),
      element_rows_least es,
    )

    rows_least :
        (ts : Timeslot) (e : Element) (es : List Element)
        → ts.elements ≡ e ∷ es
        → 79 + 25 * length ts.elements ≤ total (timeslot_rows (some ts))
    unfolding timeslot_rows
    rows_least ts e es full = rw full (
        omega (
          arith,
          row_least 36 "---------- Time Slot  -------------\n" (omega arith) (omega arith),
          row_least 18 ("Timeslot size : " ++ (number ts.size ++ "\n"))
              (omega (
                arith,
                len-append "Timeslot size : " (number ts.size ++ "\n"),
                len-append (number ts.size) "\n",
                doc.digit ts.size,
              ))
              (omega arith),
          row_least 25 ("max timestamp : " ++ time_row (latest e es).purge_time)
              (omega (
                arith,
                len-append "max timestamp : " (time_row (latest e es).purge_time),
                time_row_least (latest e es).purge_time,
              ))
              (omega arith),
          element_rows_least (e ∷ es),
        ))

    at_least :
        (ts : Timeslot)
        → 38 ≤ length ts.elements
        → (es : List Element) → ts.elements ≡ es
        → 1024 ≤ total (timeslot_rows (some ts))
    at_least ts many [] empty = absurd (ground (arith, many, empty))
    at_least ts many (e ∷ es) full = omega (arith, many, rows_least ts e es full)

    -- The report of a timeslot with 38 elements or more writes past the end of its buffer of
    -- 1024 bytes, whatever the times are.
    pub timeslot_report_overflows :
        (ts : Timeslot) → 38 ≤ length ts.elements → timeslot_report (some ts) ≡ fault
    unfolding timeslot_report
    timeslot_report_overflows ts many =
        strcat_all_lem 1024 "" (timeslot_rows (some ts)) (omega arith)
        ∙ ground (arith, at_least ts many ts.elements refl)
