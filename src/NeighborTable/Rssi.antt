-- ===== src/NeighborTable/Rssi.antt =====
-- The strongest signal of a neighbor, in src/database/neighbor_table/nt.c.
use Prim.Native.Nat.{min}
use des_aodv.Common.{ℕ, zero, suc, ◌≤◌, ◌≡◌, refl, some, ℤ, negsuc, sub_ℕ, arith}
use des_aodv.Table.{find, find-modify_self}
use des_aodv.NeighborTable.{Neighbor, NeighborTable, keyed, db_nt_update_rssi}

-- minus a number
abbrev pub neg : ℕ → ℤ
neg a = sub_ℕ 0 a

-- For a neighbor in the table with a strongest signal of 0 to -127 dBm, and a new signal of -1
-- to -127 dBm, the result is the difference of the strongest signal and the new one, and the
-- stronger of the two is kept.
pub update_rssi_max :
    (nt : NeighborTable) (addr iface a b : ℕ) (e : Neighbor)
    → find (keyed addr iface) nt.state.entries ≡ some e
    → e.max_rssi ≡ neg a
    → a ≤ 127
    → 1 ≤ b
    → b ≤ 127
    → let (nt', diff) = db_nt_update_rssi nt addr iface (neg b) in
      (diff ≡ sub_ℕ b a)
      × (find (keyed addr iface) nt'.state.entries ≡ some (record e { max_rssi = neg (min a b) }))
unfolding db_nt_update_rssi
update_rssi_max nt addr iface a zero e found m ha h1 hb = elim h1 [ ]
update_rssi_max nt addr iface a (suc b) e found m ha h1 hb = ground (
  arith,
  found,
  find-modify_self (keyed addr iface) (λ x. record x { max_rssi = negsuc b }) nt.state.entries e
      (λ x. refl) found,
)
