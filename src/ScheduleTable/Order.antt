-- ===== src/ScheduleTable/Order.antt =====
-- The schedules stay in the order of their times, and the first that is due is popped.
use des_aodv.Common.{
  ℕ, ◌+◌, ◌≤◌, ◌≡◌, ◌⊎◌, inl, inr, refl, Bool, none, some, List, [], ◌∷◌, is_nonpos, Bool-cases,
  arith,
}
use des_aodv.Dessert.{Dessert, Timeval, Ordered, is_pos-cmp, is_nonpos-cmp}
use des_aodv.Table.{remove}
use des_aodv.ScheduleTable.{
  Schedule, keyed, insert, beside, aodv_db_sc_dropschedule, aodv_db_sc_addschedule,
  aodv_db_sc_popschedule,
}

module _ {D : Dessert} (O : Ordered D) where
  open O use {instant}

  abbrev pub at : Schedule → ℕ
  at s = instant s.execute_ts

  -- The times rise along the list, from `n` on.
  abbrev pub SortedFrom : ℕ → List Schedule → Type 0
  SortedFrom n [] = Unit {0}
  SortedFrom n (s ∷ ss) = (n ≤ at s) × SortedFrom (at s) ss

  SortedFrom-mono : {m n : ℕ} (ss : List Schedule) → m ≤ n → SortedFrom n ss → SortedFrom m ss
  SortedFrom-mono [] h s = tt
  SortedFrom-mono (x ∷ ss) h s = (omega arith, s.1)

  remove-SortedFrom :
      (p : Schedule → Bool) (n : ℕ) (ss : List Schedule)
      → SortedFrom n ss
      → SortedFrom n (remove p ss)
  remove-SortedFrom p n [] s = tt
  remove-SortedFrom p n (x ∷ ss) s =
      ground (arith, remove-SortedFrom p (at x) ss s.1, SortedFrom-mono {m = n} {n = at x} ss)

  insert-SortedFrom :
      (el : Schedule) (n : ℕ) (ss : List Schedule)
      → n ≤ at el
      → SortedFrom n ss
      → SortedFrom n (insert D el ss)
  unfolding insert beside
  insert-SortedFrom el n [] h s = (h, tt)
  insert-SortedFrom el n (x ∷ []) h s = ground (arith, is_pos-cmp O x.execute_ts el.execute_ts)
  insert-SortedFrom el n (x ∷ y ∷ ss) h s = ground (
    arith,
    is_pos-cmp O x.execute_ts el.execute_ts,
    is_pos-cmp O el.execute_ts x.execute_ts,
    insert-SortedFrom el (at x) (y ∷ ss),
  )

  pub dropschedule-SortedFrom :
      (n : ℕ) (ss : List Schedule) (addr type : ℕ)
      → SortedFrom n ss
      → SortedFrom n (aodv_db_sc_dropschedule ss addr type).0
  unfolding aodv_db_sc_dropschedule
  dropschedule-SortedFrom n ss addr type s =
      ground (arith, remove-SortedFrom (keyed addr type) n ss s)

  -- Adding a schedule to a sorted list gives a sorted list, also if there is no memory.
  pub addschedule-SortedFrom :
      (ss : List Schedule) (t : Timeval) (addr type param : ℕ) (memory : Bool)
      → SortedFrom 0 ss
      → SortedFrom 0 (aodv_db_sc_addschedule D ss t addr type param memory).0
  unfolding aodv_db_sc_addschedule
  addschedule-SortedFrom ss t addr type param memory s = ground (
    arith,
    dropschedule-SortedFrom 0 ss addr type s,
    insert-SortedFrom
        (record { execute_ts = t; ether_addr = addr; schedule_id = type; schedule_param = param }) 0
        (aodv_db_sc_dropschedule ss addr type).0,
  )

  -- Every schedule of the list is at `n` or later.
  abbrev pub NoneBefore : ℕ → List Schedule → Type 0
  NoneBefore n [] = Unit {0}
  NoneBefore n (s ∷ ss) = (n ≤ at s) × NoneBefore n ss

  SortedFrom-NoneBefore : (m n : ℕ) (ss : List Schedule) → m ≤ n → SortedFrom n ss → NoneBefore m ss
  SortedFrom-NoneBefore m n [] h s = tt
  SortedFrom-NoneBefore m n (x ∷ ss) h s =
      (omega arith, SortedFrom-NoneBefore m (at x) ss (omega arith) s.1)

  -- On a sorted list of schedules, either nothing is due and nothing changes, or the first
  -- schedule is taken off; it is due, and none that stays is earlier. The list stays sorted.
  pub popschedule_earliest :
      (ss : List Schedule) (t : Timeval)
      → SortedFrom 0 ss
      → let (ss', popped) = aodv_db_sc_popschedule D ss t in
        SortedFrom 0 ss'
        × ((popped ≡ none) × (ss' ≡ ss) × NoneBefore (instant t + 1) ss
            ⊎ ((sc : Schedule) × (popped ≡ some sc)
                × (ss ≡ sc ∷ ss')
                × (at sc ≤ instant t)
                × NoneBefore (at sc) ss'))
  unfolding aodv_db_sc_popschedule
  popschedule_earliest [] t s = (tt, inl (refl, refl, tt))
  popschedule_earliest (x ∷ ss) t s = elim (Bool-cases (is_nonpos (D.timevalcmp x.execute_ts t))) [
    | inl due ↦ rw due (
      SortedFrom-mono {m = 0} {n = at x} ss (omega arith) s.1,
      inr (
        x,
        refl,
        refl,
        ground (arith, is_nonpos-cmp O x.execute_ts t),
        SortedFrom-NoneBefore (at x) (at x) ss (omega arith) s.1,
      ),
    )
    | inr early ↦ rw early (
      s,
      inl (
        refl,
        refl,
        (
          ground (arith, is_nonpos-cmp O x.execute_ts t),
          SortedFrom-NoneBefore (instant t + 1) (at x) ss
              (ground (arith, is_nonpos-cmp O x.execute_ts t)) s.1,
        ),
      ),
    )
  ]
