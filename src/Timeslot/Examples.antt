-- ===== src/Timeslot/Examples.antt =====
-- Examples on src/database/timeslot.c.
use des_aodv.Common.{ℕ, ◌+◌, ◌≡◌, refl, true, none, [], ◌∷◌, arith}
use des_aodv.Clock.{clock, in_order, at_second}
use des_aodv.Timeslot.{Timeslot, Purger, insert, place, deleteobject, add_until}
use des_aodv.Timeslot.Expiry.{expiry}
use des_aodv.Timeslot.Refine.{IsValid, add_until-IsValid, add_until_refines}

-- a table that counts the purged objects
abbrev pub count_purged : Purger ℕ
count_purged t o n = n + 1

abbrev pub two_elements : Timeslot
two_elements = record {
  elements =
      record { purge_time = at_second 4; object = 7 }
      ∷ record { purge_time = at_second 6; object = 9 }
      ∷ [];
  size = 2;
  purge_timeout = at_second 3;
}

pub two_elements-IsValid : IsValid in_order two_elements
two_elements-IsValid = record {
  sorted = ground arith;
  distinct = ground arith;
  counted = refl;
  small = omega arith;
}

add_until-IsValid_example :
    IsValid in_order
      (add_until clock count_purged two_elements (at_second 8) 7 true (at_second 5) 0).0
add_until-IsValid_example =
    add_until-IsValid in_order count_purged (at_second 8) 7 (at_second 5) 0 two_elements-IsValid
      true (omega arith)

add_until_refines_example :
    ((add_until clock count_purged two_elements (at_second 8) 7 true (at_second 7) 0).2 ≡ true)
    × (expiry 9
          (add_until clock count_purged two_elements
            (at_second 8)
            7
            true
            (at_second 7)
            0).0.elements
        ≡ none)
    × ((add_until clock count_purged two_elements (at_second 8) 7 true (at_second 7) 0).1 ≡ 1)
unfolding deleteobject insert place
add_until_refines_example =
    add_until_refines in_order count_purged (at_second 8) 7 (at_second 7) 0 two_elements-IsValid 9
      (omega arith)
