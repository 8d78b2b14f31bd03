-- ===== src/Report/Buffer.antt =====
-- When the texts of a report fit into their buffer.
use Prim.Native.String.{String, ◌++◌, len}
use text.Mathlib.TextPositions.{len-append}
use des_aodv.Common.{
  ℕ, ◌≡◌, ◌<◌, ◌+◌, ltb, List, [], ◌∷◌, if◌then◌else◌, Bool-cases, inl, inr, arith,
}
use des_aodv.PdrTracker.{done, fault}
use des_aodv.Report.{strcat, strcat_all}

-- how many bytes these texts have
abbrev pub total : List String → ℕ
total [] = 0
total (s ∷ ss) = len s + total ss

abbrev pub joined : String → List String → String
joined output [] = output
joined output (s ∷ ss) = joined (output ++ s) ss

-- The texts fit exactly if they do so together, with the byte at the end.
pub strcat_all_lem :
    (room : ℕ) (output : String) (entries : List String)
    → len output < room
    → strcat_all room output entries
      ≡ (if ltb (len output + total entries) room then done (joined output entries) else fault)
unfolding strcat_all strcat
strcat_all_lem room output [] small = ground (arith, small)
strcat_all_lem room output (s ∷ ss) small = elim (Bool-cases (ltb (len output + len s) room)) [
  | inl fits ↦ rw fits (
      let rest = strcat_all_lem room (output ++ s) ss (ground (arith, fits, len-append output s)) in
      ground (arith, rest, len-append output s))
  | inr full ↦ ground (arith, full)
]
