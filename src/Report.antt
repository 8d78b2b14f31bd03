-- ===== src/Report.antt =====
-- The printouts of the tables: texts that are put together in a buffer by `strcat`.
pub mod Buffer
pub mod Timeslots
pub mod Tables
pub mod Examples
use Prim.Native.String.{String, ◌++◌, len}
use des_aodv.Common.{ℕ, ◌≡◌, ◌≤◌, ◌+◌, ◌-◌, ltb, true, false, List, [], ◌∷◌, if◌then◌else◌}
use des_aodv.PdrTracker.{Outcome, done, fault, then_do}

-- What `printf` writes for the conversions of the reports: a number, one with at least six digits,
-- and an address as `MAC`; and `snprintf`, with the size of its buffer.
pub record Printf : Type 0 where
  pub number : ℕ → String
  pub six_digits : ℕ → String
  pub mac : ℕ → String
  pub snprintf : ℕ → String → String

-- What the C library says of them: a number has a digit, `%.6ld` has six, and `snprintf` cuts what
-- does not fit.
pub record Documented (P : Printf) : Type 0 where
  pub digit : (n : ℕ) → 1 ≤ len (P.number n)
  pub digits : (n : ℕ) → 6 ≤ len (P.six_digits n)
  pub whole : (n : ℕ) (s : String) → ltb (len s) n ≡ true → P.snprintf n s ≡ s
  pub cut : (n : ℕ) (s : String) → ltb (len s) n ≡ false → len (P.snprintf n s) ≡ n - 1

-- `strcat` to a text in a buffer of so many bytes; a write past its end is `fault`.
unfoldable pub strcat : ℕ → String → String → Outcome String
strcat room output entry =
    if ltb (len output + len entry) room then done (output ++ entry) else fault

unfoldable pub strcat_all : ℕ → String → List String → Outcome String
strcat_all room output [] = done output
strcat_all room output (entry ∷ entries) =
    then_do (strcat room output entry) (λ longer. strcat_all room longer entries)
