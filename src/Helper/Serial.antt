-- ===== src/Helper/Serial.antt =====
-- What the comparison of serial numbers in src/helper.c means, and the 64-bit key of an address.
use des_aodv.Common.{
  ◌==◌, false, not, ◌&&◌, is_neg, is_pos, ℕ, ◌+◌, ◌-◌, ◌*◌, ◌%◌, ◌^◌, ◌<◌, ◌≤◌, ◌≡◌, ◌↔◌, pos,
  negsuc, arith,
}
use des_aodv.Helper.{hf_comp_u32, MacBytes, hf_mac_addr_to_uint64}

-- On numbers of 32 bits the comparison is 1 exactly if the first is 1 to 2 ^ 31 - 2 steps
-- ahead of the second, round the wrap.
pub comp-ahead :
    (j k : ℕ)
    → j < 2 ^ 32
    → k < 2 ^ 32
    → (hf_comp_u32 ((j + k) % 2 ^ 32) j ≡ pos 1) ↔ ((1 ≤ k) × (k ≤ 2 ^ 31 - 2))
unfolding hf_comp_u32
comp-ahead j k hj hk = (λ e. ground arith, λ h. ground arith)

-- It is 0 exactly at equal numbers.
pub comp-zero : (i j : ℕ) → (hf_comp_u32 i j ≡ pos 0) ↔ (i ≡ j)
unfolding hf_comp_u32
comp-zero i j = (λ e. ground arith, λ h. ground arith)

abbrev pub IsOpposite : ℕ → ℕ → Type 0
IsOpposite i j = ((i + 2 ^ 32 - j) % 2 ^ 32 ≤ 2 ^ 31 + 1) × (2 ^ 31 - 1 ≤ (i + 2 ^ 32 - j) % 2 ^ 32)

-- Away from the three opposite distances, swapping the numbers swaps ahead and behind.
pub comp-swap :
    (i j : ℕ)
    → i < 2 ^ 32
    → j < 2 ^ 32
    → ¬ IsOpposite i j
    → (hf_comp_u32 i j ≡ pos 1) ↔ (hf_comp_u32 j i ≡ negsuc 0)
unfolding hf_comp_u32
comp-swap i j hi hj far = (λ e. ground arith, λ h. ground arith)

-- Of two numbers of 32 bits that are 2 ^ 31 - 1 to 2 ^ 31 + 1 steps apart, the comparison says
-- that each is behind the other.
pub comp_opposite :
    (i j : ℕ)
    → i < 2 ^ 32
    → j < 2 ^ 32
    → IsOpposite i j
    → (hf_comp_u32 i j ≡ negsuc 0) × (hf_comp_u32 j i ≡ negsuc 0)
unfolding hf_comp_u32
comp_opposite i j hi hj (a, b) = ground arith

pub record IsMac (a : MacBytes) : Type 0 where
  pub b0 : a.b0 < 256
  pub b1 : a.b1 < 256
  pub b2 : a.b2 < 256
  pub b3 : a.b3 < 256
  pub b4 : a.b4 < 256
  pub b5 : a.b5 < 256

mac_value :
    (a : MacBytes)
    → IsMac a
    → hf_mac_addr_to_uint64 a
      ≡ ((((a.b5 * 256 + a.b4) * 256 + a.b3) * 256 + a.b2) * 256 + a.b1) * 256 + a.b0
unfolding hf_mac_addr_to_uint64
mac_value a v = omega arith

-- Two addresses of six bytes that have the same 64-bit key are equal.
pub mac_key_injective :
    (a b : MacBytes) → IsMac a → IsMac b → hf_mac_addr_to_uint64 a ≡ hf_mac_addr_to_uint64 b → a ≡ b
mac_key_injective a b va vb e = ground (arith, mac_value a va, mac_value b vb)

-- The tests of the sign that the callers make.
pub comp_sign :
    (i j : ℕ)
    → ((not (is_neg (hf_comp_u32 i j)) && not (is_pos (hf_comp_u32 i j))) ≡ (i == j))
      × (is_neg (hf_comp_u32 i i) ≡ false)
      × (is_pos (hf_comp_u32 i i) ≡ false)
unfolding hf_comp_u32
comp_sign i j = ground arith
