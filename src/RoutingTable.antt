-- ===== src/RoutingTable.antt =====
-- src/database/routing_table/aodv_rt.c: the routes, and for each next hop the destinations over it.
-- The bits of `flags` are Booleans. Pointers (an entry, an interface) are addresses. The callback
-- of the timeslot frees an entry and its mapping in the next-hop table.
pub mod Capture
pub mod Query
pub mod Hops
pub mod Mapping
pub mod Rreq
pub mod Rrep
pub mod Stale
pub mod Lookup
pub mod Examples
use des_aodv.Common.{
  ℕ, zero, suc, ◌+◌, ◌-◌, ◌*◌, ◌/◌, ◌%◌, ◌^◌, Bool, true, false, not, ◌&&◌, ◌||◌, Option, none,
  some, List, [], ◌∷◌, ◌++◌, ◌==◌, if◌then◌else◌, ℤ, pos, is_neg, is_pos, is_some, map,
}
use des_aodv.Config.{my_route_timeout, max_metric}
use des_aodv.Dessert.{Dessert, Timeval}
use des_aodv.Helper.{MetricType, hf_comp_u32, hf_comp_metric}
use des_aodv.Timeslot
use des_aodv.Timeslot.{Timeslot, Purger}
use des_aodv.Table.{find, remove, modify, add, at_address}
use des_aodv.NeighborTable.{NeighborTable, db_nt_reset_rssi}

-- `AODV_FLAGS_…`, a bit set
pub record Flags : Type 0 where
  pub route_invalid : Bool
  pub next_hop_unknown : Bool
  pub route_warn : Bool
  pub local_used : Bool
  pub route_new : Bool

abbrev pub no_flags : Flags
no_flags = record {
  route_invalid = false;
  next_hop_unknown = false;
  route_warn = false;
  local_used = false;
  route_new = false;
}

-- `|` on the bits
abbrev pub or_flags : Flags → Flags → Flags
or_flags f g = record {
  route_invalid = f.route_invalid || g.route_invalid;
  next_hop_unknown = f.next_hop_unknown || g.next_hop_unknown;
  route_warn = f.route_warn || g.route_warn;
  local_used = f.local_used || g.local_used;
  route_new = f.route_new || g.route_new;
}

-- `aodv_rt_precursor_list_entry_t`
pub record Precursor : Type 0 where
  pub addr : ℕ
  pub iface : ℕ

-- `aodv_rt_entry_t`
pub record RtEntry : Type 0 where
  pub self : ℕ
  pub addr : ℕ
  pub next_hop : ℕ
  pub output_iface : ℕ
  pub sequence_number : ℕ
  pub metric : ℕ
  pub hop_count : ℕ
  pub flags : Flags
  pub precursor_list : List Precursor

-- `nht_destlist_entry_t`; `rt_entry` is a pointer.
pub record DestEntry : Type 0 where
  pub destination_host : ℕ
  pub rt_entry : ℕ

-- `nht_entry_t`
pub record NhtEntry : Type 0 where
  pub next_hop : ℕ
  pub dest_list : List DestEntry

-- `rt.entries` and `nht`
pub record Routes : Type 0 where
  pub entries : List RtEntry
  pub nht : List NhtEntry

pub record RoutingTable : Type 0 where
  pub routes : Routes
  pub ts : Timeslot

-- `aodv_link_break_element_t`
pub record LinkBreak : Type 0 where
  pub host : ℕ
  pub sequence_number : ℕ

-- `aodv_capt_rreq_result_t`
pub data CaptRreqResult : Type 0 where
  old new metric_hit : CaptRreqResult

-- What one `rt_entry_create` takes from outside: the address that `malloc` returns, the success of
-- the `malloc` of the timeslot, and the clock.
pub record Supply : Type 0 where
  pub malloc : Option ℕ
  pub memory : Bool
  pub now : Timeval

abbrev pub to_host : ℕ → RtEntry → Bool
to_host addr e = e.addr == addr

abbrev pub over : ℕ → NhtEntry → Bool
over hop n = n.next_hop == hop

abbrev pub for_host : ℕ → DestEntry → Bool
for_host addr d = d.destination_host == addr

abbrev pub address : RtEntry → ℕ
address e = e.self

abbrev pub is_empty {ℓ} : {A : Type ℓ} → List A → Bool
is_empty [] = true
is_empty (x ∷ xs) = false

-- Delete the mapping from a next hop to a destination, and the next hop with its last one.
pub unmap : ℕ → ℕ → List NhtEntry → List NhtEntry
unmap hop addr nht = elim (find (over hop) nht) [
  | none ↦ nht
  | some n ↦
      let dest_list = remove (for_host addr) n.dest_list in
      if is_empty dest_list
      then remove (over hop) nht
      else modify (over hop) (λ m. record m { dest_list = dest_list }) nht
]

pub purge_rt_entry : Purger Routes
purge_rt_entry timestamp object s = record {
  entries = remove (at_address address object) s.entries;
  nht = elim (find (at_address address object) s.entries) [
    | none ↦ s.nht
    | some e ↦ if e.flags.next_hop_unknown then s.nht else unmap e.next_hop e.addr s.nht
  ];
}

unfoldable pub aodv_db_rt_init : Bool → Option RoutingTable
aodv_db_rt_init memory =
    elim (Timeslot.create memory
      (record { tv_sec = my_route_timeout / 1000; tv_usec = my_route_timeout % 1000 * 1000 })) [
        | none ↦ none
        | some ts ↦ some (record { routes = record { entries = []; nht = [] }; ts = ts })
      ]

-- The fields of a new entry.
abbrev pub new_entry : ℕ → ℕ → RtEntry
new_entry self addr = record {
  self = self;
  addr = addr;
  next_hop = 0;
  output_iface = 0;
  sequence_number = 0;
  metric = max_metric;
  hop_count = 255;
  flags = record no_flags { next_hop_unknown = true; route_invalid = true };
  precursor_list = [];
}

-- An assignment to the entry of a host.
abbrev pub set_entry : ℕ → (RtEntry → RtEntry) → RoutingTable → RoutingTable
set_entry addr f rt = record rt {
  routes = record (rt.routes) { entries = modify (to_host addr) f rt.routes.entries };
}

-- Insert an entry at address `rt_entry` into the list of a next hop; `assert(success)` excludes a
-- failing `malloc`.
unfoldable pub map_dest : ℕ → ℕ → ℕ → List NhtEntry → List NhtEntry
map_dest hop addr rt_entry nht =
    let fresh : DestEntry = record { destination_host = addr; rt_entry = rt_entry } in
    elim (find (over hop) nht) [
      | none ↦ add (record { next_hop = hop; dest_list = fresh ∷ [] }) nht
      | some n ↦
          modify (over hop)
            (λ m. record m {
              dest_list =
                  if is_some (find (for_host addr) n.dest_list)
                  then modify (for_host addr) (λ d. record d { rt_entry = rt_entry }) n.dest_list
                  else add fresh n.dest_list;
            })
            nht
    ]

module _ (D : Dessert) where
  -- `timeslot_addobject(rt.ts, timestamp, rt_entry)`
  unfoldable pub touch : RoutingTable → Timeval → ℕ → Bool → Timeval → RoutingTable
  touch rt timestamp object memory now =
      let (ts, routes, stored) =
        Timeslot.addobject D purge_rt_entry rt.ts timestamp object memory now rt.routes in
      record { routes = routes; ts = ts }

  -- `HASH_FIND`, and if there is none `rt_entry_create` and `HASH_ADD_KEYPTR`: the table and the
  -- entry, `none` if `malloc` fails. The object is in the timeslot before it is in the table.
  pub find_or_create : RoutingTable → ℕ → Timeval → Supply → RoutingTable × Option RtEntry
  find_or_create rt addr timestamp supply = elim (find (to_host addr) rt.routes.entries) [
    | some e ↦ (rt, some e)
    | none ↦ elim supply.malloc [
      | none ↦ (rt, none)
      | some a ↦
          let rt' = touch rt timestamp a supply.memory supply.now in
          let e = new_entry a addr in
          (
            record rt' { routes = record (rt'.routes) { entries = add e rt'.routes.entries } },
            some e,
          )
    ]
  ]

  -- The second half of `aodv_db_rt_capt_rreq`, with the entry of the originator at hand.
  pub capt_originator :
      MetricType → RoutingTable → RtEntry → ℕ → ℕ → ℕ → ℕ → ℕ → ℕ → RoutingTable × CaptRreqResult
  capt_originator metric_type rt orig originator prev_hop iface seq metric hop_count =
      let seq_num_cmp = hf_comp_u32 orig.sequence_number seq in
      let newer = is_neg seq_num_cmp in
      let same_seq_num = not (is_neg seq_num_cmp) && not (is_pos seq_num_cmp) in
      let hit = is_neg (hf_comp_metric metric_type orig.metric metric) in
      if newer || same_seq_num && hit
      then (
        set_entry originator
            (λ e. record e {
              next_hop = prev_hop;
              output_iface = iface;
              sequence_number = seq;
              metric = metric;
              hop_count = hop_count;
              flags = record (e.flags) { route_new = false };
            })
            rt,
        if same_seq_num && hit then metric_hit else new,
      )
      else (rt, old)

  -- The result is `none` where the function returns false and leaves `result_out` unset.
  pub aodv_db_rt_capt_rreq :
      MetricType
      → RoutingTable
      → ℕ
      → ℕ
      → ℕ
      → ℕ
      → ℕ
      → ℕ
      → ℕ
      → Timeval
      → Supply
      → Supply
      → RoutingTable × Option CaptRreqResult
  aodv_db_rt_capt_rreq metric_type rt destination originator prev_hop iface seq metric hop_count
        timestamp dest_supply orig_supply =
      let (rt1, dest) = find_or_create rt destination timestamp dest_supply in
      elim dest [
        | none ↦ (rt1, none)
        | some d ↦
            let (rt2, orig) = find_or_create rt1 originator timestamp orig_supply in
            elim orig [
              | none ↦ (rt2, none)
              | some o ↦
                  let (rt3, result) =
                    capt_originator metric_type rt2 o originator prev_hop iface seq metric
                      hop_count in
                  (rt3, some result)
            ]
      ]

  -- The second half of `aodv_db_rt_capt_rrep`, with the entry of the destination at hand.
  pub capt_destination : RoutingTable → RtEntry → ℕ → ℕ → ℕ → ℕ → ℕ → ℕ → RoutingTable × Bool
  capt_destination rt e destination next_hop iface seq metric hop_count =
      let next_hop_known = not e.flags.next_hop_unknown in
      let is_old = is_pos (hf_comp_u32 e.sequence_number seq) in
      let unmapped =
        if next_hop_known then unmap e.next_hop e.addr rt.routes.nht else rt.routes.nht in
      if next_hop_known && is_old then (rt, false) else (
        record rt {
          routes = record {
            entries =
                modify (to_host destination)
                  (λ x. record x {
                    next_hop = next_hop;
                    output_iface = iface;
                    sequence_number = seq;
                    metric = metric;
                    hop_count = hop_count;
                    flags = record (x.flags) {
                      next_hop_unknown = false;
                      route_invalid = false;
                      route_warn = false;
                    };
                  })
                  rt.routes.entries;
            nht = map_dest next_hop destination e.self unmapped;
          };
        },
        true,
      )

  -- With preemptive RREQs on (`threshold > 0`) the RSSI of the next hop is reset.
  pub aodv_db_rt_capt_rrep :
      ℤ
      → RoutingTable
      → NeighborTable
      → ℕ
      → ℕ
      → ℕ
      → ℕ
      → ℕ
      → ℕ
      → Timeval
      → Supply
      → RoutingTable × NeighborTable × Bool
  aodv_db_rt_capt_rrep threshold rt nt destination next_hop iface seq metric hop_count timestamp
        supply =
      let (rt1, dest) = find_or_create rt destination timestamp supply in
      elim dest [
        | none ↦ (rt1, nt, false)
        | some e ↦
            let nt' = if is_pos threshold then (db_nt_reset_rssi nt next_hop iface).0 else nt in
            let (rt2, used) =
              capt_destination rt1 e destination next_hop iface seq metric hop_count in
            (rt2, nt', used)
      ]
