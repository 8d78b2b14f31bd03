-- ===== src/Dessert.antt =====
-- What the daemon takes from libdessert and the C library.
use des_aodv.Common.{
  ℕ, ◌≡◌, ◌<◌, ℤ, pos, negsuc, ltb, leb, is_neg, is_pos, is_nonpos, is_nonneg, arith,
}

-- `struct timeval`
pub record Timeval : Type 0 where
  pub tv_sec : ℕ
  pub tv_usec : ℕ

-- The functions of libdessert on times.
pub record Dessert : Type 0 where
  pub timevalcmp : Timeval → Timeval → ℤ
  pub timevaladd2 : Timeval → Timeval → Timeval
  -- `dessert_timevaladd`, with the seconds and microseconds to add
  pub timevaladd : Timeval → ℕ → ℕ → Timeval
  pub ms2timeval : ℕ → Timeval

-- What the documentation of `dessert_timevalcmp` says: -1, 0 or 1 as the first time is before,
-- equal to or after the second, in one linear order of times.
pub record Ordered (D : Dessert) : Type 0 where
  pub instant : Timeval → ℕ
  pub before : (a b : Timeval) → instant a < instant b → D.timevalcmp a b ≡ negsuc 0
  pub equal : (a b : Timeval) → instant a ≡ instant b → D.timevalcmp a b ≡ pos 0
  pub after : (a b : Timeval) → instant b < instant a → D.timevalcmp a b ≡ pos 1

module _ {D : Dessert} (O : Ordered D) where
  open D use {timevalcmp}
  open O use {instant, before, equal, after}

  pub is_nonpos-cmp : (a b : Timeval) → is_nonpos (timevalcmp a b) ≡ leb (instant a) (instant b)
  is_nonpos-cmp a b = ground (arith, before a b, equal a b, after a b)

  pub is_neg-cmp : (a b : Timeval) → is_neg (timevalcmp a b) ≡ ltb (instant a) (instant b)
  is_neg-cmp a b = ground (arith, before a b, equal a b, after a b)

  pub is_pos-cmp : (a b : Timeval) → is_pos (timevalcmp a b) ≡ ltb (instant b) (instant a)
  is_pos-cmp a b = ground (arith, before a b, equal a b, after a b)

  pub is_nonneg-cmp : (a b : Timeval) → is_nonneg (timevalcmp a b) ≡ leb (instant b) (instant a)
  is_nonneg-cmp a b = ground (arith, before a b, equal a b, after a b)
