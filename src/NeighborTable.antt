-- ===== src/NeighborTable.antt =====
-- src/database/neighbor_table/nt.c: the bidirectional neighbors, one entry for each interface.
-- An interface is the address of its `dessert_meshif_t`. The callback of the timeslot writes to the
-- schedule table too, so the two are the state that it works on.
pub mod Rssi
pub mod Timeout
pub mod Safety
pub mod Heard
pub mod Examples
use des_aodv.Common.{
  ℕ, zero, suc, ◌+◌, ◌-◌, ◌*◌, ◌/◌, ◌%◌, ◌^◌, Bool, true, false, ◌&&◌, Option, none, some, List, [],
  ◌∷◌, ◌==◌, if◌then◌else◌, ℤ, pos, is_neg, is_pos, sub_ℤ, to_int8, is_some, length,
}
use des_aodv.Config.{allowed_hello_lost, signal_strength_init, sc_send_out_rerr, sc_update_rssi}
use des_aodv.Dessert.{Dessert, Timeval}
use des_aodv.Timeslot
use des_aodv.Timeslot.{Timeslot, Purger}
use des_aodv.Table.{find, remove, modify, add, at_address}
use des_aodv.ScheduleTable.{Schedule, aodv_db_sc_addschedule, aodv_db_sc_dropschedule}

-- `neighbor_entry_t`
pub record Neighbor : Type 0 where
  pub self : ℕ
  pub ether_neighbor : ℕ
  pub iface : ℕ
  pub last_hello_seq : ℕ
  pub max_rssi : ℤ

-- `nt.entries`, and the schedule table
pub record Neighbors : Type 0 where
  pub entries : List Neighbor
  pub schedules : List Schedule

-- `neighbor_table_t`, with the schedule table beside it
pub record NeighborTable : Type 0 where
  pub state : Neighbors
  pub ts : Timeslot

abbrev pub keyed : ℕ → ℕ → Neighbor → Bool
keyed ether_neighbor iface e = (e.ether_neighbor == ether_neighbor) && (e.iface == iface)

abbrev pub address : Neighbor → ℕ
address e = e.self

unfoldable pub db_neighbor_entry_create : Option ℕ → ℕ → ℕ → Option Neighbor
db_neighbor_entry_create none addr iface = none
db_neighbor_entry_create (some a) addr iface = some (record {
  self = a;
  ether_neighbor = addr;
  iface = iface;
  last_hello_seq = 0;
  max_rssi = signal_strength_init;
})

pub db_nt_reset_rssi : NeighborTable → ℕ → ℕ → NeighborTable × Bool
db_nt_reset_rssi nt addr iface =
    if is_some (find (keyed addr iface) nt.state.entries)
    then (
      record nt {
        state = record (nt.state) {
          entries =
              modify (keyed addr iface) (λ e. record e { max_rssi = signal_strength_init })
                nt.state.entries;
        };
      },
      true,
    )
    else (nt, false)

-- `avg_rssi` is what `dessert_rssi_avg` gives; the result is the difference, an `int8_t`.
pub db_nt_update_rssi : NeighborTable → ℕ → ℕ → ℤ → NeighborTable × ℤ
db_nt_update_rssi nt addr iface avg_rssi = elim (find (keyed addr iface) nt.state.entries) [
  | none ↦ (nt, pos 0)
  | some e ↦
      let new : ℤ = elim avg_rssi [
        | pos n ↦ elim n [ zero ↦ signal_strength_init | suc m ↦ pos (suc m) ]
        | other ↦ other
      ] in
      let diff : ℤ = to_int8 (sub_ℤ e.max_rssi new) in
      if is_neg diff
      then (
        record nt {
          state = record (nt.state) {
            entries = modify (keyed addr iface) (λ x. record x { max_rssi = new }) nt.state.entries;
          };
        },
        diff,
      )
      else (nt, diff)
]

-- `hello_interval` is the daemon's own, in milliseconds; the product is a `uint32_t`.
unfoldable pub db_nt_init : ℕ → Bool → Option Timeslot
db_nt_init hello_interval memory =
    let hello_int_msek = hello_interval * (allowed_hello_lost + 1) % 2 ^ 32 in
    Timeslot.create memory
      (record { tv_sec = hello_int_msek / 1000; tv_usec = hello_int_msek % 1000 * 1000 })

-- The loop of `aodv_db_nt_neighbor_destroy`, over all entries.
pub destroy_loop : List Neighbor → List Schedule → ℕ → List Schedule × ℕ
destroy_loop [] schedules count = (schedules, count)
destroy_loop (e ∷ es) schedules count =
    destroy_loop es (aodv_db_sc_dropschedule schedules e.ether_neighbor sc_update_rssi).0
      ((count + 1) % 2 ^ 32)

pub aodv_db_nt_neighbor_destroy : NeighborTable → NeighborTable × ℕ
aodv_db_nt_neighbor_destroy nt =
    let (schedules, count) = destroy_loop nt.state.entries nt.state.schedules 0 in
    (record nt { state = record { entries = []; schedules = schedules } }, count)

-- The old timeslot is freed; if no new one can be made the pointer to the old one stays, which is
-- `none` here.
pub aodv_db_nt_neighbor_reset : NeighborTable → ℕ → Bool → Neighbors × Option Timeslot × ℕ
aodv_db_nt_neighbor_reset nt hello_interval memory =
    let (nt', count) = aodv_db_nt_neighbor_destroy nt in
    (nt'.state, db_nt_init hello_interval memory, count)

module _ (D : Dessert) where
  -- `memory o` is the success of the `malloc` of the schedule for the entry at address `o`.
  pub on_neighbor_timeout : (ℕ → Bool) → Purger Neighbors
  on_neighbor_timeout memory timestamp object s = record {
    entries = remove (at_address address object) s.entries;
    schedules = elim (find (at_address address object) s.entries) [
      | none ↦ s.schedules
      | some e ↦
          (aodv_db_sc_dropschedule
            (aodv_db_sc_addschedule D s.schedules timestamp e.ether_neighbor sc_send_out_rerr 0
              (memory object)).0
            e.ether_neighbor sc_update_rssi).0
    ];
  }

  -- `timeslot_addobject(nt.ts, timestamp, entry)`
  unfoldable pub touch : NeighborTable → Timeval → ℕ → Bool → (ℕ → Bool) → Timeval → NeighborTable
  touch nt timestamp object memory oracle now =
      let (ts, state, stored) =
        Timeslot.addobject D (on_neighbor_timeout oracle) nt.ts timestamp object memory now
          nt.state in
      record { state = state; ts = ts }

  -- The second half of `db_nt_cap2_dneigh`: the entry is in the table, at address `object`.
  -- `sc_memory` is the success of the `malloc` of the schedule.
  pub refresh :
      NeighborTable
      → ℕ
      → ℕ
      → ℕ
      → ℕ
      → ℤ
      → Timeval
      → Bool
      → Bool
      → (ℕ → Bool)
      → Timeval
      → NeighborTable
  refresh nt object addr hello_seq iface threshold timestamp sc_memory memory oracle now =
      let seen : Neighbors = record (nt.state) {
        entries =
            modify (keyed addr iface) (λ e. record e { last_hello_seq = hello_seq })
              nt.state.entries;
        schedules =
            if is_pos threshold
            then (aodv_db_sc_addschedule D nt.state.schedules timestamp addr sc_update_rssi iface
                sc_memory).0
            else nt.state.schedules;
      } in
      touch (record nt { state = seen }) timestamp object memory oracle now

  pub db_nt_cap2_dneigh :
      NeighborTable
      → ℕ
      → ℕ
      → ℕ
      → ℤ
      → Timeval
      → Option ℕ
      → Bool
      → Bool
      → (ℕ → Bool)
      → Timeval
      → NeighborTable × Bool
  db_nt_cap2_dneigh nt addr hello_seq iface threshold timestamp malloc sc_memory memory oracle now =
      elim (find (keyed addr iface) nt.state.entries) [
        | none ↦ elim (db_neighbor_entry_create malloc addr iface) [
          | none ↦ (nt, false)
          | some e ↦ (
            refresh (record nt { state = record (nt.state) { entries = add e nt.state.entries } })
                e.self addr hello_seq iface threshold timestamp sc_memory memory oracle now,
            true,
          )
        ]
        | some e ↦ (
          refresh nt e.self addr hello_seq iface threshold timestamp sc_memory memory oracle now,
          true,
        )
      ]

  unfoldable pub db_nt_cleanup : NeighborTable → (ℕ → Bool) → Timeval → NeighborTable
  db_nt_cleanup nt oracle timestamp =
      let (ts, state) =
        Timeslot.purgeobjects D (on_neighbor_timeout oracle) nt.ts timestamp nt.state in
      record { state = state; ts = ts }

  unfoldable pub db_nt_check2_dneigh :
      NeighborTable → ℕ → ℕ → (ℕ → Bool) → Timeval → NeighborTable × Bool
  db_nt_check2_dneigh nt addr iface oracle timestamp =
      let nt' = db_nt_cleanup nt oracle timestamp in
      (nt', is_some (find (keyed addr iface) nt'.state.entries))
