-- ===== src/Clock.antt =====
-- A clock that does what the documentation of libdessert's functions on times says, for examples.
use des_aodv.Common.{
  ℕ, ◌+◌, ◌*◌, ◌/◌, ◌%◌, ◌<◌, ◌≡◌, ℤ, pos, negsuc, ltb, ◌==◌, if◌then◌else◌, arith,
}
use des_aodv.Dessert.{Timeval, Dessert, Ordered}

abbrev pub microseconds : Timeval → ℕ
microseconds t = t.tv_sec * 1000000 + t.tv_usec

abbrev pub compare_times : Timeval → Timeval → ℤ
compare_times a b =
    if ltb (microseconds a) (microseconds b)
    then negsuc 0
    else if microseconds a == microseconds b
    then pos 0
    else pos 1

abbrev pub clock : Dessert
clock = record {
  timevalcmp = compare_times;
  timevaladd2 = λ a b. record {
    tv_sec = a.tv_sec + b.tv_sec + (a.tv_usec + b.tv_usec) / 1000000;
    tv_usec = (a.tv_usec + b.tv_usec) % 1000000;
  };
  timevaladd = λ a s us. record {
    tv_sec = a.tv_sec + s + (a.tv_usec + us) / 1000000;
    tv_usec = (a.tv_usec + us) % 1000000;
  };
  ms2timeval = λ ms. record { tv_sec = ms / 1000; tv_usec = ms % 1000 * 1000 };
}

pub compare_before :
    (a b : Timeval) → microseconds a < microseconds b → compare_times a b ≡ negsuc 0
compare_before a b h = ground (arith, h)

pub compare_equal : (a b : Timeval) → microseconds a ≡ microseconds b → compare_times a b ≡ pos 0
compare_equal a b h = ground (arith, h)

pub compare_after : (a b : Timeval) → microseconds b < microseconds a → compare_times a b ≡ pos 1
compare_after a b h = ground (arith, h)

abbrev pub in_order : Ordered clock
in_order = record {
  instant = microseconds;
  before = compare_before;
  equal = compare_equal;
  after = compare_after;
}

-- so many seconds
abbrev pub at_second : ℕ → Timeval
at_second n = record { tv_sec = n; tv_usec = 0 }
