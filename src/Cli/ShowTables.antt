-- ===== src/Cli/ShowTables.antt =====
-- src/cli/aodv_cli.c: the commands that show a table or a timeslot.
use Prim.Native.String.{String, ◌++◌}
use des_aodv.Common.{ℕ, Bool, Option, none, some}
use des_aodv.PdrTracker.{Outcome, done, fault, then_do}
use des_aodv.Database.{Db}
use des_aodv.Report.{Printf}
use des_aodv.Report.Timeslots.{
  aodv_db_neighbor_timeslot_report, aodv_db_packet_buffer_timeslot_report,
  aodv_db_data_seq_timeslot_report,
}
use des_aodv.Report.Tables.{aodv_db_view_routing_table, aodv_db_view_pdr_nt}

-- `cli_print` of a report
abbrev pub print : Outcome String → Outcome String
print report = then_do {B = String} report (λ text. done ("\n" ++ (text ++ "\n")))

-- A report that could not be made is a pointer that is not initialised.
abbrev pub made : Outcome (Option String) → Outcome String
made report = then_do {B = String} report (λ r. elim r [ none ↦ fault | some text ↦ done text ])

module _ (P : Printf) (db : Db) where
  unfoldable pub cli_show_rt : (ℕ → ℕ) → Bool → Outcome String
  cli_show_rt hwaddr memory = print (made (aodv_db_view_routing_table P hwaddr db memory))

  unfoldable pub cli_show_pdr_nt : Bool → Outcome String
  cli_show_pdr_nt memory = print (made (aodv_db_view_pdr_nt P db memory))

  unfoldable pub cli_show_neighbor_timeslot : Outcome String
  cli_show_neighbor_timeslot = print (aodv_db_neighbor_timeslot_report P db)

  unfoldable pub cli_show_packet_buffer_timeslot : Outcome String
  cli_show_packet_buffer_timeslot = print (aodv_db_packet_buffer_timeslot_report P db)

  unfoldable pub cli_show_data_seq_timeslot : Outcome String
  cli_show_data_seq_timeslot = print (aodv_db_data_seq_timeslot_report P db)
