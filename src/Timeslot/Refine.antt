-- ===== src/Timeslot/Refine.antt =====
-- The operations of src/database/timeslot.c keep their invariant, and implement a finite map from
-- objects to purge times.
use des_aodv.Common.{
  ℕ, ◌+◌, ◌-◌, ◌%◌, ◌^◌, ◌≤◌, ◌<◌, ◌≡◌, refl, inl, inr, Bool, true, false, Option, none, some, List,
  [], ◌∷◌, ◌==◌, if◌then◌else◌, arith, leb, Bool-cases, length, is_some,
}
use des_aodv.Dessert.{Dessert, Timeval, Ordered}
use des_aodv.Timeslot.{
  Element, Timeslot, insert, Purger, purge_loop, purgeobjects, deleteobject, add_until, create,
}
use des_aodv.Timeslot.Order.{
  SortedFrom, live, expired, purge_each, insert-SortedFrom, unlink-SortedFrom, live-SortedFrom,
  purge_loop-live,
}
use des_aodv.Timeslot.Expiry.{
  element, expiry, Distinct, expiry-unlink, unlink-Distinct, contains-none, contains-expiry,
  contains_pos, length-unlink, expiry-insert, insert-Distinct, length-insert,
}

module _ {D : Dessert} (O : Ordered D) where
  open O use {instant}

  -- What a purge at `now` leaves of a purge time.
  abbrev pub alive : Timeval → Option Timeval → Option Timeval
  alive now none = none
  alive now (some t) = if leb (instant t) (instant now) then none else some t

  pub expiry-live :
      (now : Timeval) (q : ℕ) (es : List Element)
      → Distinct es
      → expiry q (live O now es) ≡ alive now (expiry q es)
  expiry-live now q [] d = refl
  expiry-live now q (e ∷ es) d =
      ground (arith, expiry-live now q es d.1, expiry-live now e.object es d.1)

  pub live-Distinct : (now : Timeval) (es : List Element) → Distinct es → Distinct (live O now es)
  live-Distinct now [] d = tt
  live-Distinct now (e ∷ es) d =
      ground (arith, live-Distinct now es d.1, expiry-live now e.object es d.1)

  -- The invariant: sorted, one element for each object, and `size` counts them.
  pub record IsValid (ts : Timeslot) : Type 0 where
    pub sorted : SortedFrom O 0 ts.elements
    pub distinct : Distinct ts.elements
    pub counted : ts.size ≡ length ts.elements
    pub small : ts.size < 2 ^ 32

  pub create-IsValid :
      (timeout : Timeval) {ts : Timeslot} → create true timeout ≡ some ts → IsValid ts
  unfolding create
  create-IsValid timeout e = ground arith

  pub deleteobject-IsValid : {ts : Timeslot} (o : ℕ) → IsValid ts → IsValid (deleteobject ts o).0
  unfolding deleteobject
  deleteobject-IsValid {ts} o v = ground (
    arith,
    unlink-SortedFrom O o 0 ts.elements v.sorted,
    unlink-Distinct o ts.elements v.distinct,
    length-unlink o ts.elements,
  )

  -- A deletion from a valid timeslot removes the object and no other, and returns whether the
  -- object was there.
  pub deleteobject_refines :
      {ts : Timeslot} (o q : ℕ)
      → IsValid ts
      → (expiry q (deleteobject ts o).0.elements ≡ (if o == q then none else expiry q ts.elements))
        × ((deleteobject ts o).1 ≡ is_some (expiry o ts.elements))
  unfolding deleteobject
  deleteobject_refines {ts} o q v = ground (
    arith,
    expiry-unlink o q ts.elements v.distinct,
    contains-expiry o ts.elements,
    contains-none o ts.elements,
  )

  module _ {S : Type 0} (purger : Purger S) where
    purge_loop-size :
        (now : Timeval) (es : List Element) (size : ℕ) (s : S)
        → size ≡ length es
        → size < 2 ^ 32
        → (purge_loop D purger now es size s).1 ≡ length (purge_loop D purger now es size s).0
    unfolding purge_loop
    purge_loop-size now [] size s c h = c
    purge_loop-size now (e ∷ es) size s c h = ground (
      arith,
      purge_loop-size now es ((size + 2 ^ 32 - 1) % 2 ^ 32) (purger e.purge_time e.object s),
    )

    length-live-le : (now : Timeval) (es : List Element) → length (live O now es) ≤ length es
    length-live-le now [] = omega arith
    length-live-le now (e ∷ es) = ground (arith, length-live-le now es)

    pub purgeobjects_refines :
        {ts : Timeslot} (now : Timeval) (s : S)
        → IsValid ts
        → IsValid (purgeobjects D purger ts now s).0
          × ((purgeobjects D purger ts now s).0.elements ≡ live O now ts.elements)
          × ((purgeobjects D purger ts now s).1 ≡ purge_each O purger (expired O now ts.elements) s)
    unfolding purgeobjects
    purgeobjects_refines {ts} now s v = ground (
      arith,
      purge_loop-live O purger now 0 ts.elements ts.size s v.sorted,
      purge_loop-size now ts.elements ts.size s v.counted,
      live-SortedFrom O now 0 ts.elements v.sorted,
      live-Distinct now ts.elements v.distinct,
      length-live-le now ts.elements,
    )

    module _ {ts : Timeslot} (t : Timeval) (o : ℕ) (now : Timeval) (s : S) (v : IsValid ts) where
      abbrev pub deleted : Timeslot
      deleted = (deleteobject ts o).0

      abbrev pub queued : List Element
      queued = insert D (element t o) deleted.elements

      abbrev pub added : Timeslot
      added = record deleted { elements = queued; size = (deleted.size + 1) % 2 ^ 32 }

      fresh : expiry o deleted.elements ≡ none
      fresh = ground (arith, deleteobject_refines o o v)

      deleted-IsValid : IsValid deleted
      deleted-IsValid = deleteobject-IsValid o v

      added-IsValid : deleted.size + 1 < 2 ^ 32 → IsValid added
      added-IsValid small = record {
        sorted =
            insert-SortedFrom O (element t o) 0 deleted.elements (omega arith)
              deleted-IsValid.sorted;
        distinct = insert-Distinct D (element t o) deleted.elements fresh deleted-IsValid.distinct;
        counted =
            omega (arith, length-insert D (element t o) deleted.elements, deleted-IsValid.counted);
        small = omega arith;
      }

      deleted-size-le : deleted.size ≤ ts.size
      unfolding deleteobject
      deleted-size-le = ground (arith, contains_pos o ts.elements, v.counted, v.small)

      pub expiry-queued :
          (q : ℕ) → expiry q queued ≡ (if o == q then some t else expiry q ts.elements)
      expiry-queued q = ground (
        arith,
        expiry-insert D (element t o) q deleted.elements fresh,
        deleteobject_refines o q v,
      )

      room_lem : ts.size + 1 < 2 ^ 32 → deleted.size + 1 < 2 ^ 32
      room_lem room = omega (arith, deleted-size-le)

      purged :
          ts.size + 1 < 2 ^ 32
          → IsValid (purgeobjects D purger added now s).0
            × ((purgeobjects D purger added now s).0.elements ≡ live O now queued)
            × ((purgeobjects D purger added now s).1 ≡ purge_each O purger (expired O now queued) s)
      purged room = purgeobjects_refines now s (added-IsValid (room_lem room))

      pub queued-Distinct : ts.size + 1 < 2 ^ 32 → Distinct queued
      queued-Distinct room = (added-IsValid (room_lem room)).distinct

      -- An addition to a timeslot with room for one more element keeps it valid: sorted by
      -- time, with one element for each object, and with `size` the number of elements; also
      -- if there is no memory.
      pub add_until-IsValid :
          (memory : Bool)
          → ts.size + 1 < 2 ^ 32
          → IsValid (add_until D purger ts t o memory now s).0
      unfolding add_until
      add_until-IsValid memory room = elim (Bool-cases (deleted.size == 0)) [
        | inl empty ↦ ground (arith, v.sorted, v.distinct, v.counted, v.small)
        | inr more ↦ ground (arith, (purged room).0, v.sorted, v.distinct, v.counted, v.small)
      ]

      -- On a valid timeslot with room for one more element, and with memory, an addition
      -- succeeds. If the timeslot is empty once the old element of the object is gone, it then
      -- holds the object alone and nothing is purged; otherwise it holds the object with its
      -- new time and the other objects with theirs, less those that have run out, and the
      -- purger is applied to these in the order of their times.
      pub add_until_refines :
          (q : ℕ)
          → ts.size + 1 < 2 ^ 32
          → let (ts', s', stored) = add_until D purger ts t o true now s in
            (stored ≡ true)
            × (expiry q ts'.elements ≡ (
                if deleted.size == 0
                then (if o == q then some t else none)
                else alive now (if o == q then some t else expiry q ts.elements)))
            × (s' ≡ (if deleted.size == 0 then s else purge_each O purger (expired O now queued) s))
      unfolding add_until
      add_until_refines q room = ground (
        arith,
        (purged room).1,
        (purged room).2,
        expiry-queued q,
        expiry-live now q queued (added-IsValid (room_lem room)).distinct,
      )

      -- The list, the size and the purger's state after an addition.
      pub add_until_elements :
          ts.size + 1 < 2 ^ 32
          → let (ts', s', stored) = add_until D purger ts t o true now s in
            (stored ≡ true)
            × (ts'.elements ≡ (if deleted.size == 0 then element t o ∷ [] else live O now queued))
            × (s' ≡ (if deleted.size == 0 then s else purge_each O purger (expired O now queued) s))
            × (ts'.purge_timeout ≡ ts.purge_timeout)
      unfolding add_until purgeobjects deleteobject
      add_until_elements room = ground (arith, (purged room).1, (purged room).2)

      -- If `malloc` fails nothing changes.
      pub add_until_no_memory : add_until D purger ts t o false now s ≡ (ts, s, false)
      unfolding add_until
      add_until_no_memory = refl
