-- ===== src/Timeslot/Order.antt =====
-- The elements of a timeslot stay in the order of their purge times.
use des_aodv.Common.{
  ℕ, ◌+◌, ◌-◌, ◌%◌, ◌^◌, ◌≤◌, ◌<◌, ◌≡◌, refl, inl, inr, none, some, List, [], ◌∷◌, if◌then◌else◌,
  arith, leb, Option-cases,
}
use des_aodv.Dessert.{Dessert, Timeval, Ordered, is_nonpos-cmp, is_nonneg-cmp}
use des_aodv.Timeslot.{Element, unlink, place, insert, Purger, purge_loop}

module _ {D : Dessert} (O : Ordered D) where
  open O use {instant}

  -- The purge times rise along the list, from `n` on.
  abbrev pub SortedFrom : ℕ → List Element → Type 0
  SortedFrom n [] = Unit {0}
  SortedFrom n (e ∷ es) = (n ≤ instant e.purge_time) × SortedFrom (instant e.purge_time) es

  pub SortedFrom-mono : {m n : ℕ} (es : List Element) → m ≤ n → SortedFrom n es → SortedFrom m es
  SortedFrom-mono [] h s = tt
  SortedFrom-mono (e ∷ es) h s = (omega arith, s.1)

  pub unlink-SortedFrom :
      (object n : ℕ) (es : List Element) → SortedFrom n es → SortedFrom n (unlink object es)
  unlink-SortedFrom object n [] s = tt
  unlink-SortedFrom object n (e ∷ es) s = ground (
    arith,
    unlink-SortedFrom object (instant e.purge_time) es s.1,
    SortedFrom-mono {m = n} {n = instant e.purge_time} es,
  )

  place-none :
      (new : Element) (n : ℕ) (es : List Element)
      → SortedFrom n es
      → place D new es ≡ none
      → SortedFrom (instant new.purge_time) es
  unfolding place
  place-none new n [] s h = tt
  place-none new n (e ∷ es) s h =
      ground (arith, Option-cases (place D new es), is_nonneg-cmp O new.purge_time e.purge_time)

  place-SortedFrom :
      (new : Element) (n : ℕ) (es placed : List Element)
      → SortedFrom n es
      → place D new es ≡ some placed
      → SortedFrom n placed
  unfolding place
  place-SortedFrom new n [] placed s h = absurd (cc)
  place-SortedFrom new n (e ∷ es) placed s h = elim (Option-cases (place D new es)) [
    | inl past ↦ ground (
      arith,
      is_nonneg-cmp O new.purge_time e.purge_time,
      place-none new (instant e.purge_time) es s.1 past,
    )
    | inr (p, found) ↦ ground (arith, place-SortedFrom new (instant e.purge_time) es p s.1 found)
  ]

  pub insert-SortedFrom :
      (new : Element) (n : ℕ) (es : List Element)
      → n ≤ instant new.purge_time
      → SortedFrom n es
      → SortedFrom n (insert D new es)
  unfolding insert
  insert-SortedFrom new n es h s = elim (Option-cases (place D new es)) [
    | inl past ↦ ground (arith, place-none new n es s past)
    | inr (p, found) ↦ ground (arith, place-SortedFrom new n es p s found)
  ]

  -- The elements of which the purge time is after `now`.
  abbrev pub live : Timeval → List Element → List Element
  live now [] = []
  live now (e ∷ es) =
      if leb (instant e.purge_time) (instant now) then live now es else e ∷ live now es

  -- and the others
  abbrev pub expired : Timeval → List Element → List Element
  expired now [] = []
  expired now (e ∷ es) =
      if leb (instant e.purge_time) (instant now) then e ∷ expired now es else expired now es

  live_all :
      (now : Timeval) (n : ℕ) (es : List Element)
      → instant now < n
      → SortedFrom n es
      → (live now es ≡ es) × (expired now es ≡ [])
  live_all now n [] h s = (refl, refl)
  live_all now n (e ∷ es) h s =
      ground (arith, live_all now (instant e.purge_time) es (omega arith) s.1)

  -- the purger, called on each element in turn
  abbrev pub purge_each : {S : Type 0} → Purger S → List Element → S → S
  purge_each purger [] s = s
  purge_each purger (e ∷ es) s = purge_each purger es (purger e.purge_time e.object s)

  pub live-SortedFrom :
      (now : Timeval) (n : ℕ) (es : List Element) → SortedFrom n es → SortedFrom n (live now es)
  live-SortedFrom now n [] s = tt
  live-SortedFrom now n (e ∷ es) s = ground (
    arith,
    live-SortedFrom now (instant e.purge_time) es s.1,
    SortedFrom-mono {m = n} {n = instant e.purge_time} (live now es),
  )

  module _ {S : Type 0} (purger : Purger S) where
    -- On a sorted list the loop stops at the right place: it keeps the live elements, and calls the
    -- purger on the expired ones in the order of their purge times.
    pub purge_loop-live :
        (now : Timeval) (n : ℕ) (es : List Element) (size : ℕ) (s : S)
        → SortedFrom n es
        → ((purge_loop D purger now es size s).0 ≡ live now es)
          × ((purge_loop D purger now es size s).2 ≡ purge_each purger (expired now es) s)
    unfolding purge_loop
    purge_loop-live now n [] size s h = (refl, refl)
    purge_loop-live now n (e ∷ es) size s h = ground (
      arith,
      is_nonpos-cmp O e.purge_time now,
      live_all now (instant e.purge_time) es,
      purge_loop-live now (instant e.purge_time) es ((size + 2 ^ 32 - 1) % 2 ^ 32)
          (purger e.purge_time e.object s) h.1,
    )
