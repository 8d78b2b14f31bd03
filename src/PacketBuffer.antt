-- ===== src/PacketBuffer.antt =====
-- src/database/packet_buffer/packet_buffer.c: for each destination without a route, the packets
-- that wait for one. The singly linked list of a destination, from `head` to `tail`, is a list; a
-- failing `malloc` is an argument. What `dessert_msg_clone` makes of a packet is a parameter.
pub mod Fifo
pub mod Push
pub mod Keys
pub mod Examples
use des_aodv.Common.{
  ℕ, ◌+◌, ◌-◌, ◌/◌, ◌*◌, ◌%◌, ◌^◌, Bool, true, false, Option, none, some, List, [], ◌∷◌, ◌++◌, ◌==◌,
  ltb, if◌then◌else◌,
}
use des_aodv.Config.{blacklist_timeout}
use des_aodv.Dessert.{Dessert, Timeval}
use des_aodv.Timeslot
use des_aodv.Timeslot.{Timeslot, Purger}
use des_aodv.Table.{find, remove, modify, add, at_address}

module _ (Msg : Type 0) where
  -- `fifo_list_t`
  pub record FifoList : Type 0 where
    pub msgs : List Msg
    pub size : ℕ

  -- `pb_el_t`
  pub record PbEl : Type 0 where
    pub self : ℕ
    pub dhost_ether : ℕ
    pub fl : FifoList

  -- `pb_t`
  pub record Pb : Type 0 where
    pub entries : List PbEl
    pub ts : Timeslot

  abbrev pub for_dhost : ℕ → PbEl → Bool
  for_dhost dhost e = e.dhost_ether == dhost

  -- The callback of the timeslot frees the packets and the element.
  unfoldable pub purge_packets : Purger (List PbEl)
  purge_packets timestamp object entries = remove (at_address (λ e. e.self) object) entries

  unfoldable pub pb_init : Bool → Option Pb
  pb_init memory =
      elim (Timeslot.create memory
        (record { tv_sec = blacklist_timeout / 1000; tv_usec = blacklist_timeout % 1000 * 1000 })) [
          | none ↦ none
          | some ts ↦ some (record { entries = []; ts = ts })
        ]

  -- the list without its head
  abbrev pub tail : List Msg → List Msg
  tail [] = []
  tail (m ∷ ms) = ms

  -- `FIFO_BUFFER_MAX_ENTRY_SIZE` is 2 ^ 32 - 1. `memory` is the success of the `malloc`.
  unfoldable pub fl_push_packet : (Msg → Msg) → FifoList → Msg → Bool → FifoList
  fl_push_packet clone fl msg memory =
      let msgs = fl.msgs ++ (clone msg ∷ []) in
      let size = (fl.size + 1) % 2 ^ 32 in
      if memory
      then if ltb (2 ^ 32 - 1) size
        then record { msgs = tail msgs; size = (size + 2 ^ 32 - 1) % 2 ^ 32 }
        else record { msgs = msgs; size = size }
      else fl

  unfoldable pub fl_pop_packet : FifoList → FifoList × Option Msg
  fl_pop_packet fl = elim fl.msgs [
    | [] ↦ (fl, none)
    | m ∷ ms ↦ (record { msgs = ms; size = (fl.size + 2 ^ 32 - 1) % 2 ^ 32 }, some m)
  ]

  unfoldable pub pb_cleanup : Dessert → Pb → Timeval → Pb
  pb_cleanup D pb timestamp =
      let (ts, entries) = Timeslot.purgeobjects D purge_packets pb.ts timestamp pb.entries in
      record { entries = entries; ts = ts }

  -- `timeslot_addobject(pbt.ts, timestamp, pb_el)`
  unfoldable pub touch : Dessert → Pb → Timeval → ℕ → Bool → Timeval → Pb
  touch D pb timestamp object memory now =
      let (ts, entries, stored) =
        Timeslot.addobject D purge_packets pb.ts timestamp object memory now pb.entries in
      record { entries = entries; ts = ts }

  -- `malloc` gives the address of a new element, `fl_memory` and `ts_memory` are the success of
  -- the two other allocations.
  unfoldable pub pb_push_packet :
      Dessert → (Msg → Msg) → Pb → ℕ → Msg → Timeval → Option ℕ → Bool → Bool → Timeval → Pb
  pb_push_packet D clone pb dhost msg timestamp malloc fl_memory ts_memory now =
      let pb1 = pb_cleanup D pb timestamp in
      elim (find (for_dhost dhost) pb1.entries) [
        | some e ↦
            touch D
              (record pb1 {
                entries =
                    modify (for_dhost dhost)
                      (λ x. record x { fl = fl_push_packet clone x.fl msg fl_memory }) pb1.entries;
              })
              timestamp e.self ts_memory now
        | none ↦ elim malloc [
          | none ↦ pb1
          | some a ↦
              touch D
                (record pb1 {
                  entries =
                      add
                        (record {
                          self = a;
                          dhost_ether = dhost;
                          fl = fl_push_packet clone (record { msgs = []; size = 0 }) msg fl_memory;
                        })
                        pb1.entries;
                })
                timestamp a ts_memory now
        ]
      ]

  unfoldable pub pb_pop_packet : Pb → ℕ → Pb × Option Msg
  pb_pop_packet pb dhost = elim (find (for_dhost dhost) pb.entries) [
    | none ↦ (pb, none)
    | some e ↦
        let (fl, msg) = fl_pop_packet e.fl in
        elim fl.msgs [
          | [] ↦ (
            record {
              entries = remove (for_dhost dhost) pb.entries;
              ts = (Timeslot.deleteobject pb.ts e.self).0;
            },
            msg,
          )
          | m ∷ ms ↦ (
            record pb { entries = modify (for_dhost dhost) (λ x. record x { fl = fl }) pb.entries },
            msg,
          )
        ]
  ]

  -- the packets that wait for a route to a destination
  abbrev pub waiting : Pb → ℕ → List Msg
  waiting pb dhost = elim (find (for_dhost dhost) pb.entries) [ none ↦ [] | some e ↦ e.fl.msgs ]
