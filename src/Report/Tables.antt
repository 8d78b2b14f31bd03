-- ===== src/Report/Tables.antt =====
-- src/database/routing_table/aodv_rt.c, `aodv_db_rt_report`, and src/database/pdr_tracker/pdr.c,
-- `aodv_db_pdr_nt_report`: a table with a row for each entry.
use Prim.Native.String.{String, ◌++◌, len}
use des_aodv.Common.{
  ℕ, ◌≡◌, ◌≤◌, ◌<◌, refl, ◌∙◌, ◌+◌, ◌*◌, ◌%◌, ◌^◌, ltb, Bool, true, false, Option, none, some, List,
  [], ◌∷◌, length, if◌then◌else◌, Bool-cases, inl, inr, arith,
}
use des_aodv.RoutingTable.{RtEntry}
use des_aodv.PdrTracker.{Outcome, done, then_do, PdrNeighbor}
use des_aodv.Database.{Db}
use des_aodv.Report.{Printf, Documented, strcat_all}
use des_aodv.Report.Buffer.{total, joined, strcat_all_lem}

-- `REPORT_RT_STR_LEN`
abbrev pub report_rt_str_len : ℕ
report_rt_str_len = 150

-- The size of the buffer; its length is summed up in a `uint32_t`, once for each entry.
abbrev pub report_len : ℕ → ℕ
report_len n = n * (report_rt_str_len * 2) % 2 ^ 32

abbrev pub report_room : ℕ → ℕ
report_room n = report_rt_str_len * ((4 + report_len n) % 2 ^ 32) + 1

abbrev pub rt_border : String
rt_border =
    "+-------------------+-------------------+-------------------+-------------+---------------+\n"

abbrev pub pdr_border : String
pdr_border =
    "+-------------------+-------------------+-------------------+-------------------+----------------------+\n"

abbrev pub rt_head : String
rt_head =
    rt_border
    ++ ("|    destination    |      next hop     |  out iface addr   |  route inv  | next hop unkn |\n"
        ++ rt_border)

abbrev pub pdr_head : String
pdr_head =
    pdr_border
    ++ ("|     neighbor      |  hello interval   |  received hellos  |  expected hellos  | neighbor rcvd hellos |\n"
        ++ pdr_border)

-- `%5s` with the name of a truth value
abbrev pub five : Bool → String
five true = " true"
five false = "false"

-- The rows of a table, each with the line under it.
abbrev pub table_rows {ℓ} : {A : Type ℓ} → (A → String) → String → List A → List String
table_rows row border [] = []
table_rows row border (e ∷ es) = row e ∷ border ∷ table_rows row border es

module _ (P : Printf) where
  open P use {number, mac, snprintf}

  -- `hwaddr` gives the address of an interface.
  abbrev pub rt_text : (ℕ → ℕ) → RtEntry → String
  rt_text hwaddr e =
      if e.flags.next_hop_unknown
      then "| "
        ++ (mac e.addr
            ++ (" |                   |                   |   "
                ++ (five e.flags.route_invalid ++ "     |     true      |\n")))
      else "| "
        ++ (mac e.addr
            ++ (" | "
                ++ (mac e.next_hop
                    ++ (" | "
                        ++ (mac (hwaddr e.output_iface)
                            ++ (" |    "
                                ++ (five e.flags.route_invalid ++ "    |     false     |\n")))))))

  abbrev pub rt_row : (ℕ → ℕ) → RtEntry → String
  rt_row hwaddr e = snprintf report_rt_str_len (rt_text hwaddr e)

  -- `none` if there is no memory.
  unfoldable pub aodv_db_rt_report : (ℕ → ℕ) → List RtEntry → Bool → Outcome (Option String)
  aodv_db_rt_report hwaddr entries memory =
      if memory
      then then_do {B = Option String}
          (strcat_all (report_room (length entries)) ""
            (rt_head ∷ table_rows (rt_row hwaddr) rt_border entries))
          (λ output. done (some output))
      else done none

  abbrev pub pdr_text : PdrNeighbor → String
  pdr_text e =
      "| "
      ++ (mac e.ether_neighbor
          ++ (" |      "
              ++ (number e.hello_interv
                  ++ (" ms      |        "
                      ++ (number e.hellos.rcvd_hello_count
                          ++ ("        |       "
                              ++ (number e.expected_hellos
                                  ++ ("       |        "
                                      ++ (number e.nb_rcvd_hello_count ++ "        |\n")))))))))

  abbrev pub pdr_row : PdrNeighbor → String
  pdr_row e = snprintf report_rt_str_len (pdr_text e)

  unfoldable pub aodv_db_pdr_nt_report : List PdrNeighbor → Bool → Outcome (Option String)
  aodv_db_pdr_nt_report entries memory =
      if memory
      then then_do {B = Option String}
          (strcat_all (report_room (length entries)) ""
            (pdr_head ∷ table_rows pdr_row pdr_border entries))
          (λ output. done (some output))
      else done none

  unfoldable pub aodv_db_view_routing_table : (ℕ → ℕ) → Db → Bool → Outcome (Option String)
  aodv_db_view_routing_table hwaddr db memory = aodv_db_rt_report hwaddr db.rt.routes.entries memory

  unfoldable pub aodv_db_view_pdr_nt : Db → Bool → Outcome (Option String)
  aodv_db_view_pdr_nt db memory = aodv_db_pdr_nt_report db.pdr.entries memory

  module _ (doc : Documented P) where
    snprintf_short : (s : String) → len (snprintf report_rt_str_len s) ≤ 149
    snprintf_short s = elim (Bool-cases (ltb (len s) report_rt_str_len)) [
      | inl fits ↦ rw (doc.whole report_rt_str_len s fits) (ground (arith, fits))
      | inr cut ↦ rw (doc.cut report_rt_str_len s cut) (omega arith)
    ]

    rows_short :
        {A : Type 0} (text : A → String) (border : String) (es : List A)
        → len border ≤ 150
        → total (table_rows (λ e. snprintf report_rt_str_len (text e)) border es) ≤ 299 * length es
    rows_short text border [] thin = omega arith
    rows_short text border (e ∷ es) thin =
        omega (arith, thin, snprintf_short (text e), rows_short text border es thin)

    -- A table of fewer than 14316557 rows, which is where the length of the buffer wraps.
    report_fits :
        {A : Type 0} (text : A → String) (head border : String) (es : List A)
        → length es < 14316557
        → len head ≤ 600
        → len border ≤ 150
        → (output : String) × (strcat_all
              (report_room (length es))
              ""
              (head ∷ table_rows (λ e. snprintf report_rt_str_len (text e)) border es)
            ≡ done output)
    report_fits text head border es few small thin =
        let rows = head ∷ table_rows (λ e. snprintf report_rt_str_len (text e)) border es in
        (
          joined "" rows,
          strcat_all_lem (report_room (length es)) "" rows (omega arith)
              ∙ ground (arith, few, small, rows_short text border es thin),
        )

    -- With memory, the reports of a routing table and of a PDR tracker with fewer than
    -- 14316557 entries each end within their buffers.
    pub table_reports_fit :
        (hwaddr : ℕ → ℕ) (routes : List RtEntry) (neighbors : List PdrNeighbor)
        → length routes < 14316557
        → length neighbors < 14316557
        → ((output : String) × (aodv_db_rt_report hwaddr routes true ≡ done (some output)))
          × ((output : String) × (aodv_db_pdr_nt_report neighbors true ≡ done (some output)))
    unfolding aodv_db_rt_report aodv_db_pdr_nt_report
    table_reports_fit hwaddr routes neighbors few_routes few_neighbors =
        let (rt_output, rt_ran) =
          report_fits (rt_text hwaddr) rt_head rt_border routes few_routes (omega arith)
            (omega arith) in
        let (pdr_output, pdr_ran) =
          report_fits pdr_text pdr_head pdr_border neighbors few_neighbors (omega arith)
            (omega arith) in
        ((rt_output, rw rt_ran refl), (pdr_output, rw pdr_ran refl))
