-- ===== src/PdrTracker.antt =====
-- src/database/pdr_tracker/pdr.c: the HELLOs that came from each neighbor, and the quality of the
-- link that they show. `tracking_factor` and the own `hello_interval` are arguments; the timeslot
-- of a neighbor acts on its `Hellos`. A division by zero, which ends the daemon, is `fault`.
-- An entry that its own addition to the timeslot purges is used after its `free` in the source; in
-- the model it is then in the table no more, and an assignment to it changes nothing.
pub mod Links
pub mod Values
pub mod Examples
use des_aodv.Common.{
  ℕ, zero, suc, ◌+◌, ◌-◌, ◌/◌, ◌*◌, ◌%◌, ◌^◌, Bool, true, false, not, ◌||◌, Option, none, some,
  List, [], ◌∷◌, ◌==◌, ltb, leb, if◌then◌else◌, length,
}
use des_aodv.Config.{max_metric, pdr_tracking_purge_factor, pdr_min_tracking_interval}
use des_aodv.Dessert.{Dessert, Timeval}
use des_aodv.Timeslot
use des_aodv.Timeslot.{Timeslot, Purger}
use des_aodv.Table.{find, remove, modify, add, at_address}

pub data Outcome {ℓ} (A : Type ℓ) : Type ℓ where
  done : A → Outcome A
  fault : Outcome A

abbrev pub divide : ℕ → ℕ → Outcome ℕ
divide m n = elim n [ zero ↦ fault | suc k ↦ done (m / suc k) ]

abbrev pub then_do {ℓ ℓ'} : {A : Type ℓ} {B : Type ℓ'} → Outcome A → (A → Outcome B) → Outcome B
then_do (done a) f = f a
then_do fault f = fault

-- `pdr_neighbor_hello_msg_t`
pub record HelloMsg : Type 0 where
  pub self : ℕ
  pub seq_num : ℕ

-- What the callback of a neighbor's own timeslot changes.
pub record Hellos : Type 0 where
  pub msg_list : List HelloMsg
  pub rcvd_hello_count : ℕ

-- `pdr_neighbor_entry_t`
pub record PdrNeighbor : Type 0 where
  pub self : ℕ
  pub ether_neighbor : ℕ
  pub hello_interv : ℕ
  pub expected_hellos : ℕ
  pub nb_rcvd_hello_count : ℕ
  pub hellos : Hellos
  pub ts : Timeslot
  pub purge_tv : Timeval

-- `pdr_neighbor_table_t`
pub record PdrTable : Type 0 where
  pub entries : List PdrNeighbor
  pub nb_expected_hellos : ℕ
  pub ts : Timeslot

abbrev pub from_neighbor : ℕ → PdrNeighbor → Bool
from_neighbor addr e = e.ether_neighbor == addr

abbrev pub with_seq : ℕ → HelloMsg → Bool
with_seq seq m = m.seq_num == seq

-- The number of HELLOs in the tracking interval. The product is an `int` in C; it does not overflow, as
-- an interval has 16 bits and `cli_set_tracking_factor` takes no factor above 1000.
unfoldable pub expected : ℕ → ℕ → Outcome ℕ
expected tracking_factor interv =
    if leb pdr_min_tracking_interval (interv * tracking_factor)
    then done tracking_factor
    else divide pdr_min_tracking_interval interv

abbrev pub purge_ms : ℕ → ℕ → ℕ
purge_ms tracking_factor interv = interv * tracking_factor * pdr_tracking_purge_factor % 2 ^ 32

-- the length of the tracking interval
abbrev pub tracking_interval : ℕ → ℕ → ℕ
tracking_interval tracking_factor interv =
    if leb pdr_min_tracking_interval (interv * tracking_factor)
    then interv * tracking_factor
    else pdr_min_tracking_interval

unfoldable pub pdr_nt_purge_hello_msg : Purger Hellos
pdr_nt_purge_hello_msg timestamp object s = record {
  msg_list = remove (at_address (λ m. m.self) object) s.msg_list;
  rcvd_hello_count = (s.rcvd_hello_count + 255) % 256;
}

-- The entry goes with its HELLOs and its timeslot.
unfoldable pub pdr_nt_purge_nb : Purger (List PdrNeighbor)
pdr_nt_purge_nb timestamp object entries = remove (at_address (λ e. e.self) object) entries

unfoldable pub aodv_db_pdr_nt_upd_expected : ℕ → PdrTable → ℕ → Outcome PdrTable
aodv_db_pdr_nt_upd_expected tracking_factor nt new_interval =
    then_do (expected tracking_factor new_interval)
      (λ n. done (record nt { nb_expected_hellos = n }))

module _ (D : Dessert) (tracking_factor : ℕ) where
  -- `none` inside is a failing `timeslot_create`.
  unfoldable pub aodv_db_pdr_nt_init : ℕ → Bool → Outcome (Option PdrTable)
  aodv_db_pdr_nt_init hello_interval memory =
      then_do (expected tracking_factor hello_interval) (λ n.
        done
          (elim (Timeslot.create memory (D.ms2timeval (purge_ms tracking_factor hello_interval))) [
            | none ↦ none
            | some ts ↦ some (record { entries = []; nb_expected_hellos = n; ts = ts })
          ]))

  -- `pdr_neighbor_entry_create` and the `timeslot_create` of its caller. `none` inside is a failing
  -- allocation.
  unfoldable pub pdr_neighbor_entry_create : ℕ → ℕ → Option ℕ → Bool → Outcome (Option PdrNeighbor)
  pdr_neighbor_entry_create addr interv malloc memory = elim malloc [
    | none ↦ done none
    | some a ↦ then_do (expected tracking_factor interv) (λ n.
        done
          (elim (Timeslot.create memory (D.ms2timeval (tracking_interval tracking_factor interv))) [
            | none ↦ none
            | some ts ↦ some (record {
              self = a;
              ether_neighbor = addr;
              hello_interv = interv;
              expected_hellos = n;
              nb_rcvd_hello_count = 0;
              hellos = record { msg_list = []; rcvd_hello_count = 0 };
              ts = ts;
              purge_tv = D.ms2timeval (purge_ms tracking_factor interv);
            })
          ]))
  ]

  unfoldable pub pdr_neighbor_entry_update : PdrNeighbor → ℕ → Outcome PdrNeighbor
  pdr_neighbor_entry_update e interv = then_do (expected tracking_factor interv) (λ n.
      done (record e {
        hello_interv = interv;
        expected_hellos = n;
        purge_tv = D.ms2timeval (purge_ms tracking_factor interv);
      }))

  -- `timeslot_addobject_varpurge(pdr_nt.ts, timestamp, curr_entry, &(curr_entry->purge_tv))`
  unfoldable pub touch : PdrTable → Timeval → PdrNeighbor → Bool → Timeval → PdrTable
  touch nt timestamp e memory now =
      let (ts, entries, stored) =
        Timeslot.addobject_varpurge D pdr_nt_purge_nb nt.ts timestamp e.self e.purge_tv memory now
          nt.entries in
      record nt { entries = entries; ts = ts }

  -- What the two capture functions begin with: the table with the entry of the neighbor, and this
  -- entry; `none` inside is a return of false.
  unfoldable pub find_or_create :
      PdrTable
      → ℕ
      → ℕ
      → Timeval
      → Option ℕ
      → Bool
      → Bool
      → Timeval
      → Outcome (PdrTable × Option PdrNeighbor)
  find_or_create nt addr interv timestamp malloc ts_memory memory now =
      elim (find (from_neighbor addr) nt.entries) [
        | none ↦ then_do (pdr_neighbor_entry_create addr interv malloc ts_memory) (λ created.
            elim created [
              | none ↦ done (nt, none)
              | some e ↦
                  done (
                    touch (record nt { entries = add e nt.entries }) timestamp e memory now,
                    some e,
                  )
            ])
        | some e ↦
            then_do
              (if e.hello_interv == interv then done e else pdr_neighbor_entry_update e interv)
              (λ e'. done (
                touch (record nt { entries = modify (from_neighbor addr) (λ x. e') nt.entries })
                    timestamp e' memory now,
                some e',
              ))
      ]

  -- The second half of `aodv_db_pdr_nt_cap_hello`, on the entry of the neighbor. A HELLO counts
  -- also if its number is in the list.
  unfoldable pub put_hello :
      PdrNeighbor → ℕ → Timeval → Option ℕ → Bool → Timeval → Option PdrNeighbor
  put_hello e hello_seq timestamp malloc memory now =
      let counted = (e.hellos.rcvd_hello_count + 1) % 256 in
      let store = λ (object : ℕ) (msgs : List HelloMsg).
        let (ts, hellos, stored) =
          Timeslot.addobject D pdr_nt_purge_hello_msg e.ts timestamp object memory now
            (record { msg_list = msgs; rcvd_hello_count = counted }) in
        record e { hellos = hellos; ts = ts } in
      elim (find (with_seq hello_seq) e.hellos.msg_list) [
        | some m ↦ some (store m.self e.hellos.msg_list)
        | none ↦ elim malloc [
          | none ↦ none
          | some a ↦
              some (store a (add (record { self = a; seq_num = hello_seq }) e.hellos.msg_list))
        ]
      ]

  unfoldable pub aodv_db_pdr_nt_cap_hello :
      PdrTable
      → ℕ
      → ℕ
      → ℕ
      → Timeval
      → Option ℕ
      → Bool
      → Bool
      → Option ℕ
      → Bool
      → Timeval
      → Outcome (PdrTable × Bool)
  aodv_db_pdr_nt_cap_hello nt addr hello_seq interv timestamp malloc ts_memory memory msg_malloc
        msg_memory now =
      then_do (find_or_create nt addr interv timestamp malloc ts_memory memory now) (λ found.
        let (nt', entry) = found in
        elim entry [
          | none ↦ done (nt', false)
          | some e ↦ elim (put_hello e hello_seq timestamp msg_malloc msg_memory now) [
            | none ↦ done (nt', false)
            | some e' ↦
                done
                  (record nt' { entries = modify (from_neighbor addr) (λ x. e') nt'.entries }, true)
          ]
        ])

  unfoldable pub aodv_db_pdr_nt_cap_hellorsp :
      PdrTable → ℕ → ℕ → ℕ → Timeval → Option ℕ → Bool → Bool → Timeval → Outcome (PdrTable × Bool)
  aodv_db_pdr_nt_cap_hellorsp nt addr interv hello_count timestamp malloc ts_memory memory now =
      then_do (find_or_create nt addr interv timestamp malloc ts_memory memory now) (λ found.
        let (nt', entry) = found in
        elim entry [
          | none ↦ done (nt', false)
          | some e ↦ done (
            record nt' {
              entries =
                  modify (from_neighbor addr) (λ x. record x { nb_rcvd_hello_count = hello_count })
                    nt'.entries;
            },
            true,
          )
        ])

module _ (D : Dessert) where
  unfoldable pub aodv_db_pdr_nt_cleanup : PdrTable → Timeval → PdrTable
  aodv_db_pdr_nt_cleanup nt timestamp =
      let (ts, entries) = Timeslot.purgeobjects D pdr_nt_purge_nb nt.ts timestamp nt.entries in
      record nt { entries = entries; ts = ts }

  unfoldable pub pdr_nt_cleanup : PdrNeighbor → Timeval → PdrNeighbor
  pdr_nt_cleanup e timestamp =
      let (ts, hellos) = Timeslot.purgeobjects D pdr_nt_purge_hello_msg e.ts timestamp e.hellos in
      record e { hellos = hellos; ts = ts }

-- How many neighbors `pdr_nt_neighbor_destroy` counts; none is left.
unfoldable pub pdr_nt_neighbor_destroy : PdrTable → PdrTable × ℕ
pdr_nt_neighbor_destroy nt = (record nt { entries = [] }, length nt.entries % 2 ^ 32)

-- The reset. `none` inside is a failing `timeslot_create`; the number of the neighbors is the out
-- parameter.
unfoldable pub aodv_db_pdr_nt_neighbor_reset :
    Dessert → ℕ → PdrTable → ℕ → Bool → Outcome (Option PdrTable × ℕ)
aodv_db_pdr_nt_neighbor_reset D tracking_factor nt hello_interval memory =
    let (destroyed, count) = pdr_nt_neighbor_destroy nt in
    then_do {B = Option PdrTable × ℕ} (aodv_db_pdr_nt_init D tracking_factor hello_interval memory)
      (λ renewed. done (renewed, count))
