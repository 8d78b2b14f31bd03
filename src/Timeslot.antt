-- ===== src/Timeslot.antt =====
-- src/database/timeslot.c: objects with the time at which each is to be purged.
-- The doubly linked list from `ts->tail` to `ts->head` is a list, the earliest purge time first;
-- the hash `elements_hash` holds the same elements, and a lookup in it is a search of the list.
-- An object is its address. `gettimeofday` is the argument `now`, the success of the first
-- `malloc` the argument `memory`. A purger acts on the state of the table that owns the timeslot.
pub mod Order
pub mod Expiry
pub mod Refine
pub mod Counting
pub mod Examples
use des_aodv.Common.{
  ℕ, ◌+◌, ◌-◌, ◌%◌, ◌^◌, Bool, true, false, not, Option, none, some, List, [], ◌∷◌, ◌==◌,
  if◌then◌else◌, is_nonpos, is_nonneg,
}
use des_aodv.Dessert.{Dessert, Timeval}

-- `timeslot_element_t`
pub record Element : Type 0 where
  pub purge_time : Timeval
  pub object : ℕ

-- `timeslot_t`
pub record Timeslot : Type 0 where
  pub elements : List Element
  pub size : ℕ
  pub purge_timeout : Timeval

-- `object_purger_t`
abbrev pub Purger : Type 0 → Type 0
Purger S = Timeval → ℕ → S → S

unfoldable pub create : Bool → Timeval → Option Timeslot
create memory timeout =
    if memory then some (record { elements = []; size = 0; purge_timeout = timeout }) else none

-- `HASH_FIND` on the address of an object
abbrev pub contains : ℕ → List Element → Bool
contains object [] = false
contains object (e ∷ es) = if e.object == object then true else contains object es

-- unlinks the element of an object
abbrev pub unlink : ℕ → List Element → List Element
unlink object [] = []
unlink object (e ∷ es) = if e.object == object then es else e ∷ unlink object es

pub deleteobject : Timeslot → ℕ → Timeslot × Bool
deleteobject ts object =
    if contains object ts.elements
    then (
      record ts { elements = unlink object ts.elements; size = (ts.size + 2 ^ 32 - 1) % 2 ^ 32 },
      true,
    )
    else (ts, false)

module _ (D : Dessert) where
  open D use {timevalcmp, timevaladd2}

  -- The search for the place of a new element starts at the head, the end of this list, and goes
  -- on while the new time is before that of the element. `none` means that it went past them all.
  pub place : Element → List Element → Option (List Element)
  place new [] = none
  place new (e ∷ es) = elim (place new es) [
    | some placed ↦ some (e ∷ placed)
    | none ↦
        if is_nonneg (timevalcmp new.purge_time e.purge_time) then some (e ∷ new ∷ es) else none
  ]

  pub insert : Element → List Element → List Element
  insert new es = elim (place new es) [ some placed ↦ placed | none ↦ new ∷ es ]

  module _ {S : Type 0} (purger : Purger S) where
    -- The loop of `timeslot_purgeobjects`: from the tail on, while the purge time is not after `now`.
    unfoldable pub purge_loop : Timeval → List Element → ℕ → S → List Element × ℕ × S
    purge_loop now [] size s = ([], size, s)
    purge_loop now (e ∷ es) size s =
        let rest =
          purge_loop now es ((size + 2 ^ 32 - 1) % 2 ^ 32) (purger e.purge_time e.object s) in
        if is_nonpos (timevalcmp e.purge_time now) then rest else (e ∷ es, size, s)

    unfoldable pub purgeobjects : Timeslot → Timeval → S → Timeslot × S
    purgeobjects ts now s =
        let (es, size, s') = purge_loop now ts.elements ts.size s in
        (record ts { elements = es; size = size }, s')

    -- The body that `timeslot_addobject` and `timeslot_addobject_varpurge` share, from the purge
    -- time on: delete the old element, insert the new one, purge. A first element is not purged.
    unfoldable pub add_until : Timeslot → Timeval → ℕ → Bool → Timeval → S → Timeslot × S × Bool
    add_until ts purge_time object memory now s =
        let new : Element = record { purge_time = purge_time; object = object } in
        let ts' : Timeslot = (deleteobject ts object).0 in
        let added : Timeslot = record ts' {
          elements = insert new ts'.elements;
          size = (ts'.size + 1) % 2 ^ 32;
        } in
        let purged : Timeslot × S = purgeobjects added now s in
        if not memory
        then (ts, s, false)
        else if ts'.size == 0
        then (record ts' { elements = new ∷ []; size = 1 }, s, true)
        else (purged.0, purged.1, true)

    unfoldable pub addobject : Timeslot → Timeval → ℕ → Bool → Timeval → S → Timeslot × S × Bool
    addobject ts timestamp object memory now s =
        add_until ts (timevaladd2 ts.purge_timeout timestamp) object memory now s

    unfoldable pub addobject_varpurge :
        Timeslot → Timeval → ℕ → Timeval → Bool → Timeval → S → Timeslot × S × Bool
    addobject_varpurge ts timestamp object lifetime memory now s =
        add_until ts (timevaladd2 lifetime timestamp) object memory now s
