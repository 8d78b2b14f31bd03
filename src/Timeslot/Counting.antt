-- ===== src/Timeslot/Counting.antt =====
-- Objects as counted-up numbers, and how many elements of a timeslot are alive at a time.
use des_aodv.Common.{
  ℕ, ◌+◌, ◌≤◌, ◌<◌, ◌≡◌, refl, inl, inr, false, some, List, [], ◌∷◌, if◌then◌else◌, arith, leb,
  Option-cases, length,
}
use des_aodv.Dessert.{Dessert, Timeval, Ordered}
use des_aodv.Timeslot.{Element, contains, place, insert}
use des_aodv.Timeslot.Order.{live, expired}

-- Every object is below `n`.
abbrev pub Below : ℕ → List Element → Type 0
Below n [] = Unit {0}
Below n (e ∷ es) = (e.object < n) × Below n es

pub Below-mono : {m n : ℕ} (es : List Element) → m ≤ n → Below m es → Below n es
Below-mono [] h b = tt
Below-mono {m} {n} (e ∷ es) h b = (omega arith, Below-mono es h b.1)

pub contains-Below : (n : ℕ) (es : List Element) → Below n es → contains n es ≡ false
contains-Below n [] b = refl
contains-Below n (e ∷ es) b = ground (arith, contains-Below n es b.1)

module _ {D : Dessert} (O : Ordered D) where
  open O use {instant}

  -- how many elements are alive at a time
  abbrev pub alive_at : Timeval → List Element → ℕ
  alive_at t es = length (live O t es)

  pub live-Below : (n : ℕ) (t : Timeval) (es : List Element) → Below n es → Below n (live O t es)
  live-Below n t [] b = tt
  live-Below n t (e ∷ es) b = ground (arith, live-Below n t es b.1)

  place-Below :
      (n : ℕ) (new : Element) (es placed : List Element)
      → new.object < n
      → Below n es
      → place D new es ≡ some placed
      → Below n placed
  unfolding place
  place-Below n new [] placed o b h = absurd (cc)
  place-Below n new (e ∷ es) placed o b h = elim (Option-cases (place D new es)) [
    | inl past ↦ ground arith
    | inr (p, found) ↦ ground (arith, place-Below n new es p o b.1 found)
  ]

  pub insert-Below :
      (n : ℕ) (new : Element) (es : List Element)
      → new.object < n
      → Below n es
      → Below n (insert D new es)
  unfolding insert
  insert-Below n new es o b = elim (Option-cases (place D new es)) [
    | inl past ↦ ground arith
    | inr (p, found) ↦ ground (arith, place-Below n new es p o b found)
  ]

  -- one or none
  abbrev pub still : Timeval → Timeval → ℕ
  still t purge_time = if leb (instant purge_time) (instant t) then 0 else 1

  alive_at-place :
      (t : Timeval) (new : Element) (es placed : List Element)
      → place D new es ≡ some placed
      → alive_at t placed ≡ still t new.purge_time + alive_at t es
  unfolding place
  alive_at-place t new [] placed h = absurd (cc)
  alive_at-place t new (e ∷ es) placed h = elim (Option-cases (place D new es)) [
    | inl past ↦ ground arith
    | inr (p, found) ↦ ground (arith, alive_at-place t new es p found)
  ]

  pub alive_at-insert :
      (t : Timeval) (new : Element) (es : List Element)
      → alive_at t (insert D new es) ≡ still t new.purge_time + alive_at t es
  unfolding insert
  alive_at-insert t new es = elim (Option-cases (place D new es)) [
    | inl past ↦ ground arith
    | inr (p, found) ↦ ground (arith, alive_at-place t new es p found)
  ]

  pub alive_at-live :
      (t now : Timeval) (es : List Element)
      → instant now ≤ instant t
      → alive_at t (live O now es) ≡ alive_at t es
  alive_at-live t now [] h = refl
  alive_at-live t now (e ∷ es) h = ground (arith, alive_at-live t now es h)

  pub length-live :
      (now : Timeval) (es : List Element) → alive_at now es + length (expired O now es) ≡ length es
  length-live now [] = omega arith
  length-live now (e ∷ es) = ground (arith, length-live now es)
