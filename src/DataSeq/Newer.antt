-- ===== src/DataSeq/Newer.antt =====
-- Which data packets src/database/data_seq/ds.c takes for new.
use des_aodv.Common.{ℕ, ◌+◌, ◌-◌, ◌%◌, ◌^◌, ◌≤◌, ◌<◌, ◌≡◌, ◌↔◌, ◌⊎◌, true, false, ltb, arith}
use des_aodv.DataSeq.{is_newer}

-- The test passes for the greater numbers, and for those more than 2 ^ 15 below.
pub is_newer_iff : (s q : ℕ) → (is_newer s q ≡ true) ↔ ((s < q) ⊎ (q + 2 ^ 15 < s))
unfolding is_newer
is_newer_iff s q = (λ h. ground arith, λ h. ground arith)

-- A packet with a number 1 to 2 ^ 15 - 1 steps after the last one is new, also round the wrap
-- to 0.
pub is_newer_ahead :
    (s k : ℕ) → s < 2 ^ 16 → 1 ≤ k → k < 2 ^ 15 → is_newer s ((s + k) % 2 ^ 16) ≡ true
unfolding is_newer
is_newer_ahead s k hs h1 hk = ground arith

-- A packet with a number 1 to 2 ^ 15 steps before the last one is taken for new exactly if the
-- wrap lies between the two.
pub is_newer_behind :
    (s k : ℕ) → s < 2 ^ 16 → 1 ≤ k → k ≤ 2 ^ 15 → is_newer s ((s + 2 ^ 16 - k) % 2 ^ 16) ≡ ltb s k
unfolding is_newer
is_newer_behind s k hs h1 hk = ground arith

pub is_newer_self : (s : ℕ) → is_newer s s ≡ false
unfolding is_newer
is_newer_self s = ground arith
