-- ===== src/DataSeq.antt =====
-- src/database/data_seq/ds.c: the last data sequence number of each source, to drop duplicates.
-- A `malloc` is an argument: the address that it returns, `none` for NULL. `memory` and `now` are
-- those of `timeslot_addobject`. Addresses of hosts are numbers.
pub mod Newer
pub mod Safety
pub mod Examples
use des_aodv.Common.{
  ℕ, ◌+◌, ◌-◌, ◌/◌, ◌*◌, ◌%◌, ◌^◌, Bool, true, false, ◌||◌, Option, none, some, List, [], ◌==◌, ltb,
  if◌then◌else◌, sub_ℕ, is_pos, is_neg, ℤ, pos, negsuc,
}
use des_aodv.Dessert.{Dessert, Timeval}
use des_aodv.Config.{my_route_timeout}
use des_aodv.Timeslot
use des_aodv.Timeslot.{Timeslot, Purger}
use des_aodv.Table.{find, remove, modify, add, at_address}

-- `data_packet_id_t`
pub record PacketId : Type 0 where
  pub self : ℕ
  pub src_addr : ℕ
  pub seq_num : ℕ

-- `data_seq_t`
pub record DataSeq : Type 0 where
  pub entries : List PacketId
  pub ts : Timeslot

abbrev pub from_source : ℕ → PacketId → Bool
from_source src_addr e = e.src_addr == src_addr

unfoldable pub ds_entry_create : Option ℕ → ℕ → ℕ → Option PacketId
ds_entry_create none src_addr seq_num = none
ds_entry_create (some address) src_addr seq_num =
    some (record { self = address; src_addr = src_addr; seq_num = seq_num })

-- The callback of the timeslot: `HASH_DEL` and `free`.
unfoldable pub on_ds_timeout : Purger (List PacketId)
on_ds_timeout timestamp object entries = remove (at_address (λ e. e.self) object) entries

unfoldable pub db_ds_init : Bool → Option DataSeq
db_ds_init memory =
    elim (Timeslot.create memory
      (record { tv_sec = my_route_timeout / 1000; tv_usec = my_route_timeout % 1000 * 1000 })) [
        | none ↦ none
        | some ts ↦ some (record { entries = []; ts = ts })
      ]

-- `a - b > bound` on two `uint16_t`, which C computes as an `int`.
exceeds : ℤ → ℕ → Bool
exceeds (pos n) bound = ltb bound n
exceeds (negsuc n) bound = false

-- The test of `aodv_db_ds_capt_data_seq` for a newer packet.
unfoldable pub is_newer : ℕ → ℕ → Bool
unfolding exceeds
is_newer seq_num data_seq_num =
    exceeds (sub_ℕ seq_num data_seq_num) (2 ^ 15) || ltb seq_num data_seq_num

module _ (D : Dessert) where
  -- `timeslot_addobject(ds.ts, timestamp, entry)`, of which the result is not used
  unfoldable pub touch : DataSeq → Timeval → ℕ → Bool → Timeval → DataSeq
  touch ds timestamp object memory now =
      let (ts, entries, stored) =
        Timeslot.addobject D on_ds_timeout ds.ts timestamp object memory now ds.entries in
      record { entries = entries; ts = ts }

  unfoldable pub aodv_db_ds_capt_data_seq :
      DataSeq → ℕ → ℕ → ℕ → Timeval → Option ℕ → Bool → Timeval → DataSeq × Bool
  aodv_db_ds_capt_data_seq ds src_addr data_seq_num hop_count timestamp malloc memory now =
      elim (find (from_source src_addr) ds.entries) [
        | none ↦ elim (ds_entry_create malloc src_addr data_seq_num) [
          | none ↦ (ds, false)
          | some e ↦
              (touch (record ds { entries = add e ds.entries }) timestamp e.self memory now, true)
        ]
        | some e ↦
            if is_newer e.seq_num data_seq_num
            then (
              touch
                  (record ds {
                    entries =
                        modify (from_source src_addr) (λ x. record x { seq_num = data_seq_num })
                          ds.entries;
                  })
                  timestamp e.self memory now,
              true,
            )
            else (ds, false)
      ]

  pub db_ds_cleanup : DataSeq → Timeval → DataSeq
  db_ds_cleanup ds timestamp =
      let (ts, entries) = Timeslot.purgeobjects D on_ds_timeout ds.ts timestamp ds.entries in
      record { entries = entries; ts = ts }
