-- ===== src/Table/Safety.antt =====
-- No timeslot keeps the address of an entry that has been freed.
use des_aodv.Common.{
  ℕ, ◌+◌, ◌^◌, ◌<◌, ◌≡◌, refl, ap, ◌∙◌, Bool, true, false, Option, none, some, List, [], ◌∷◌, ◌==◌,
  if◌then◌else◌, arith, leb, is_some,
}
use des_aodv.Dessert.{Dessert, Timeval, Ordered}
use des_aodv.Timeslot.{Element, Timeslot, Purger, deleteobject, purgeobjects, add_until}
use des_aodv.Timeslot.Order.{expired, purge_each}
use des_aodv.Timeslot.Expiry.{expiry, Distinct}
use des_aodv.Timeslot.Refine.{
  IsValid, expiry-live, purgeobjects_refines, add_until_elements, add_until_no_memory, queued,
  queued-Distinct, expiry-queued, deleteobject_refines,
}
use des_aodv.Table.{
  add, modify, add-Apart, modify-Apart, find-add, is_some-find-modify, find, remove, at_address,
  Apart, find-remove, find-remove_ne, find-remove-none, remove-Apart,
}

module _ {D : Dessert} (O : Ordered D) where
  open O use {instant}

  -- what has run out of a purge time
  abbrev pub run_out : Timeval → Option Timeval → Bool
  run_out now none = false
  run_out now (some t) = leb (instant t) (instant now)

  pub expiry-expired :
      (now : Timeval) (q : ℕ) (es : List Element)
      → Distinct es
      → is_some (expiry q (expired O now es)) ≡ run_out now (expiry q es)
  expiry-expired now q [] d = refl
  expiry-expired now q (e ∷ es) d =
      ground (arith, expiry-expired now q es d.1, expiry-expired now e.object es d.1)

  module _ {S E : Type 0} (self : E → ℕ) (entries : S → List E) (purger : Purger S)
      (frees : (t : Timeval) (o : ℕ) (s : S)
        → entries (purger t o s) ≡ remove (at_address self o) (entries s)) where
    -- whether an address points to a live entry
    abbrev pub is_entry : ℕ → S → Bool
    is_entry q s = is_some (find (at_address self q) (entries s))

    -- Every object of the timeslot is a live entry, and no two entries share an address.
    pub record NoDangling (ts : Timeslot) (s : S) : Type 0 where
      pub apart : Apart self (entries s)
      pub owned : (q : ℕ) → is_some (expiry q ts.elements) ≡ true → is_entry q s ≡ true

    -- More entries do no harm.
    pub NoDangling-mono :
        (ts : Timeslot) (s s' : S)
        → Apart self (entries s')
        → ((q : ℕ) → is_entry q s ≡ true → is_entry q s' ≡ true)
        → NoDangling ts s
        → NoDangling ts s'
    NoDangling-mono ts s s' a more n = record { apart = a; owned = λ q h. more q (n.owned q h) }

    -- A new entry, at an address that `malloc` may return.
    pub add-NoDangling :
        (ts : Timeslot) (s s' : S) (e : E)
        → entries s' ≡ add e (entries s)
        → is_entry (self e) s ≡ false
        → NoDangling ts s
        → NoDangling ts s' × (is_entry (self e) s' ≡ true)
    add-NoDangling ts s s' e new fresh n = (
      NoDangling-mono ts s s' (rw new (add-Apart self e (entries s) fresh n.apart))
          (λ q h. rw new (ground (arith, find-add (at_address self q) e (entries s)))) n,
      rw new (ground (arith, find-add (at_address self (self e)) e (entries s))),
    )

    -- An assignment to fields other than the address.
    pub modify-NoDangling :
        (ts : Timeslot) (s s' : S) (p : E → Bool) (f : E → E)
        → entries s' ≡ modify p f (entries s)
        → ((e : E) → self (f e) ≡ self e)
        → NoDangling ts s
        → NoDangling ts s' × ((q : ℕ) → is_entry q s' ≡ is_entry q s)
    modify-NoDangling ts s s' p f new same n = (
      NoDangling-mono ts s s' (rw new (modify-Apart self p f (entries s) same n.apart))
          (λ q h. rw new (
            is_some-find-modify p (at_address self q) f (entries s) (λ e. ap (λ a. a == q) (same e))
            ∙ h))
          n,
      λ q. rw new (
          is_some-find-modify p (at_address self q) f (entries s) (λ e. ap (λ a. a == q) (same e))),
    )

    purge_each-entries :
        (es : List Element) (s : S) (q : ℕ)
        → Apart self (entries s)
        → Apart self (entries (purge_each O purger es s))
          × (is_entry q (purge_each O purger es s)
              ≡ (if is_some (expiry q es) then false else is_entry q s))
    purge_each-entries [] s q a = (a, refl)
    purge_each-entries (e ∷ es) s q a = ground (
      arith,
      frees e.purge_time e.object s,
      remove-Apart self e.object (entries s) a,
      find-remove self e.object q (entries s) a,
      purge_each-entries es (purger e.purge_time e.object s) q,
    )

    -- A purge frees each expired entry, once, and leaves none of them in the timeslot.
    pub purgeobjects-NoDangling :
        (ts : Timeslot) (now : Timeval) (s : S)
        → IsValid O ts
        → NoDangling ts s
        → NoDangling (purgeobjects D purger ts now s).0 (purgeobjects D purger ts now s).1
    purgeobjects-NoDangling ts now s v n = record {
      apart = ground (
        arith,
        purgeobjects_refines O purger now s v,
        purge_each-entries (expired O now ts.elements) s 0 n.apart,
      );
      owned = λ q h. ground (
        arith,
        purgeobjects_refines O purger now s v,
        purge_each-entries (expired O now ts.elements) s q n.apart,
        n.owned q,
        expiry-live O now q ts.elements v.distinct,
        expiry-expired now q ts.elements v.distinct,
      );
    }

    -- An object that is added to the timeslot, for the first time or again, must be an entry.
    pub add_until-NoDangling :
        (ts : Timeslot) (t : Timeval) (o : ℕ) (memory : Bool) (now : Timeval) (s : S)
        → IsValid O ts
        → ts.size + 1 < 2 ^ 32
        → NoDangling ts s
        → is_entry o s ≡ true
        → let (ts', s', stored) = add_until D purger ts t o memory now s in NoDangling ts' s'
    add_until-NoDangling ts t o false now s v room n live_entry =
        rw (add_until_no_memory O purger t o now s v) n
    add_until-NoDangling ts t o true now s v room n live_entry =
        let r = add_until_elements O purger t o now s v room in
        let list : List Element = queued O purger t o now s v in
        record {
          apart = ground (arith, r, n.apart, purge_each-entries (expired O now list) s 0 n.apart);
          owned = λ q h. ground (
            arith,
            r,
            purge_each-entries (expired O now list) s q n.apart,
            n.owned q,
            live_entry,
            expiry-queued O purger t o now s v q,
            expiry-live O now q list (queued-Distinct O purger t o now s v room),
            expiry-expired now q list (queued-Distinct O purger t o now s v room),
          );
        }

    pub deleteobject-NoDangling :
        (ts : Timeslot) (o : ℕ) (s s' : S)
        → IsValid O ts
        → NoDangling ts s
        → entries s' ≡ remove (at_address self o) (entries s)
        → NoDangling (deleteobject ts o).0 s'
    deleteobject-NoDangling ts o s s' v n e = record {
      apart = ground (arith, e, remove-Apart self o (entries s) n.apart);
      owned = λ q h. ground (
        arith,
        e,
        find-remove self o q (entries s) n.apart,
        n.owned q,
        deleteobject_refines O o q v,
      );
    }

    purge_each-keeps :
        (es : List Element) (s : S) (p : E → Bool) (x : E)
        → find p (entries s) ≡ some x
        → is_some (expiry (self x) es) ≡ false
        → find p (entries (purge_each O purger es s)) ≡ some x
    purge_each-keeps [] s p x h n = h
    purge_each-keeps (e ∷ es) s p x h n = ground (
      arith,
      frees e.purge_time e.object s,
      find-remove_ne self p e.object (entries s) x h,
      purge_each-keeps es (purger e.purge_time e.object s) p x,
    )

    -- A purge keeps what is found, if its purge time is after `now`.
    pub purgeobjects-keeps :
        (ts : Timeslot) (now : Timeval) (s : S) (p : E → Bool) (x : E)
        → IsValid O ts
        → find p (entries s) ≡ some x
        → run_out now (expiry (self x) ts.elements) ≡ false
        → find p (entries (purgeobjects D purger ts now s).1) ≡ some x
    purgeobjects-keeps ts now s p x v h n = ground (
      arith,
      purgeobjects_refines O purger now s v,
      expiry-expired now (self x) ts.elements v.distinct,
      purge_each-keeps (expired O now ts.elements) s p x h,
    )

    -- So does an addition.
    pub add_until-keeps :
        (ts : Timeslot) (t : Timeval) (o : ℕ) (memory : Bool) (now : Timeval) (s : S) (p : E → Bool)
        (x : E)
        → IsValid O ts
        → ts.size + 1 < 2 ^ 32
        → find p (entries s) ≡ some x
        → run_out now (if o == self x then some t else expiry (self x) ts.elements) ≡ false
        → find p (entries (add_until D purger ts t o memory now s).1) ≡ some x
    add_until-keeps ts t o false now s p x v room h n =
        rw (add_until_no_memory O purger t o now s v) h
    add_until-keeps ts t o true now s p x v room h n = ground (
      arith,
      add_until_elements O purger t o now s v room,
      expiry-queued O purger t o now s v (self x),
      expiry-expired now (self x) (queued O purger t o now s v)
          (queued-Distinct O purger t o now s v room),
      purge_each-keeps (expired O now (queued O purger t o now s v)) s p x h,
    )

    purge_each-none :
        (es : List Element) (s : S) (p : E → Bool)
        → find p (entries s) ≡ none
        → find p (entries (purge_each O purger es s)) ≡ none
    purge_each-none [] s p h = h
    purge_each-none (e ∷ es) s p h = ground (
      arith,
      frees e.purge_time e.object s,
      find-remove-none p (at_address self e.object) (entries s) h,
      purge_each-none es (purger e.purge_time e.object s) p,
    )

    -- No operation on the timeslot makes an entry appear.
    pub add_until-none :
        (ts : Timeslot) (t : Timeval) (o : ℕ) (memory : Bool) (now : Timeval) (s : S) (p : E → Bool)
        → IsValid O ts
        → ts.size + 1 < 2 ^ 32
        → find p (entries s) ≡ none
        → find p (entries (add_until D purger ts t o memory now s).1) ≡ none
    add_until-none ts t o false now s p v room h = rw (add_until_no_memory O purger t o now s v) h
    add_until-none ts t o true now s p v room h = ground (
      arith,
      add_until_elements O purger t o now s v room,
      purge_each-none (expired O now (queued O purger t o now s v)) s p h,
    )

    -- An object may be added to the timeslot before its entry is added to the table, if it does not
    -- run out at once.
    pub add_early-NoDangling :
        (ts : Timeslot) (t : Timeval) (memory : Bool) (now : Timeval) (s s' : S) (e : E)
        → IsValid O ts
        → ts.size + 1 < 2 ^ 32
        → NoDangling ts s
        → is_entry (self e) s ≡ false
        → instant now < instant t
        → entries s' ≡ add e (entries (add_until D purger ts t (self e) memory now s).1)
        → NoDangling (add_until D purger ts t (self e) memory now s).0 s'
    add_early-NoDangling ts t false now s s' e v room n fresh early new =
        let same = add_until_no_memory O purger t (self e) now s v in
        rw same ((add-NoDangling ts s s' e (rw same at new) fresh n).0)
    add_early-NoDangling ts t true now s s' e v room n fresh early new =
        let r = add_until_elements O purger t (self e) now s v room in
        let list : List Element = queued O purger t (self e) now s v in
        let s1 = (add_until D purger ts t (self e) true now s).1 in
        let left : Apart self (entries s1) =
          ground (arith, r, n.apart, purge_each-entries (expired O now list) s 0 n.apart) in
        let gone : is_entry (self e) s1 ≡ false =
          ground (arith, r, fresh, purge_each-entries (expired O now list) s (self e) n.apart) in
        record {
          apart = rw new (add-Apart self e (entries s1) gone left);
          owned = λ q h. rw new (
              ground (
                arith,
                r,
                find-add (at_address self q) e (entries s1),
                purge_each-entries (expired O now list) s q n.apart,
                n.owned q,
                expiry-queued O purger t (self e) now s v q,
                expiry-live O now q list (queued-Distinct O purger t (self e) now s v room),
                expiry-expired now q list (queued-Distinct O purger t (self e) now s v room),
              ));
        }
