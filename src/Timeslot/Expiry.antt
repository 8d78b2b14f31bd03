-- ===== src/Timeslot/Expiry.antt =====
-- A timeslot as a finite map from objects to purge times, and the invariant under which
-- src/database/timeslot.c keeps to it.
use des_aodv.Common.{
  ℕ, ◌+◌, ◌<◌, ◌≡◌, refl, inl, inr, true, false, Option, none, some, List, [], ◌∷◌, ◌==◌,
  if◌then◌else◌, arith, Option-cases, length, is_some,
}
use des_aodv.Dessert.{Dessert, Timeval}
use des_aodv.Timeslot.{Element, Timeslot, contains, unlink, place, insert, deleteobject}

abbrev pub element : Timeval → ℕ → Element
element t o = record { purge_time = t; object = o }

-- the purge time of an object
abbrev pub expiry : ℕ → List Element → Option Timeval
expiry object [] = none
expiry object (e ∷ es) = if e.object == object then some e.purge_time else expiry object es

-- No object has two elements.
abbrev pub Distinct : List Element → Type 0
Distinct [] = Unit {0}
Distinct (e ∷ es) = (expiry e.object es ≡ none) × Distinct es

pub expiry-unlink :
    (o q : ℕ) (es : List Element)
    → Distinct es
    → expiry q (unlink o es) ≡ (if o == q then none else expiry q es)
expiry-unlink o q [] d = ground arith
expiry-unlink o q (e ∷ es) d = ground (arith, expiry-unlink o q es d.1)

pub unlink-Distinct : (o : ℕ) (es : List Element) → Distinct es → Distinct (unlink o es)
unlink-Distinct o [] d = tt
unlink-Distinct o (e ∷ es) d =
    ground (arith, unlink-Distinct o es d.1, expiry-unlink o e.object es d.1)

pub contains-none : (o : ℕ) (es : List Element) → contains o es ≡ false → expiry o es ≡ none
contains-none o [] h = refl
contains-none o (e ∷ es) h = ground (arith, contains-none o es)

pub contains-expiry : (o : ℕ) (es : List Element) → contains o es ≡ is_some (expiry o es)
contains-expiry o [] = refl
contains-expiry o (e ∷ es) = ground (arith, contains-expiry o es)

pub contains_pos : (o : ℕ) (es : List Element) → contains o es ≡ true → 0 < length es
contains_pos o [] h = absurd (cc)
contains_pos o (e ∷ es) h = omega arith

pub length-unlink :
    (o : ℕ) (es : List Element) → contains o es ≡ true → length (unlink o es) + 1 ≡ length es
length-unlink o [] h = absurd (cc)
length-unlink o (e ∷ es) h = ground (arith, length-unlink o es)

pub deleteobject_absent :
    (ts : Timeslot) (o : ℕ) → contains o ts.elements ≡ false → deleteobject ts o ≡ (ts, false)
unfolding deleteobject
deleteobject_absent ts o h = rw h

module _ (D : Dessert) where
  expiry-place :
      (new : Element) (q : ℕ) (es placed : List Element)
      → expiry new.object es ≡ none
      → place D new es ≡ some placed
      → expiry q placed ≡ (if new.object == q then some new.purge_time else expiry q es)
  unfolding place
  expiry-place new q [] placed d h = absurd (cc)
  expiry-place new q (e ∷ es) placed d h = elim (Option-cases (place D new es)) [
    | inl past ↦ ground arith
    | inr (p, found) ↦ ground (arith, expiry-place new q es p (ground arith) found)
  ]

  pub expiry-insert :
      (new : Element) (q : ℕ) (es : List Element)
      → expiry new.object es ≡ none
      → expiry q (insert D new es) ≡ (if new.object == q then some new.purge_time else expiry q es)
  unfolding insert
  expiry-insert new q es d = elim (Option-cases (place D new es)) [
    | inl past ↦ ground arith
    | inr (p, found) ↦ ground (arith, expiry-place new q es p d found)
  ]

  place-Distinct :
      (new : Element) (es placed : List Element)
      → expiry new.object es ≡ none
      → Distinct es
      → place D new es ≡ some placed
      → Distinct placed
  unfolding place
  place-Distinct new [] placed n d h = absurd (cc)
  place-Distinct new (e ∷ es) placed n d h = elim (Option-cases (place D new es)) [
    | inl past ↦ ground arith
    | inr (p, found) ↦ ground (
      arith,
      place-Distinct new es p (ground arith) d.1 found,
      expiry-place new e.object es p (ground arith) found,
    )
  ]

  pub insert-Distinct :
      (new : Element) (es : List Element)
      → expiry new.object es ≡ none
      → Distinct es
      → Distinct (insert D new es)
  unfolding insert
  insert-Distinct new es n d = elim (Option-cases (place D new es)) [
    | inl past ↦ ground arith
    | inr (p, found) ↦ ground (arith, place-Distinct new es p n d found)
  ]

  length-place :
      (new : Element) (es placed : List Element)
      → place D new es ≡ some placed
      → length placed ≡ length es + 1
  unfolding place
  length-place new [] placed h = absurd (cc)
  length-place new (e ∷ es) placed h = elim (Option-cases (place D new es)) [
    | inl past ↦ ground arith
    | inr (p, found) ↦ ground (arith, length-place new es p found)
  ]

  pub length-insert : (new : Element) (es : List Element) → length (insert D new es) ≡ length es + 1
  unfolding insert
  length-insert new es = elim (Option-cases (place D new es)) [
    | inl past ↦ ground arith
    | inr (p, found) ↦ ground (arith, length-place new es p found)
  ]
