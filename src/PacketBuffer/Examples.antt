-- ===== src/PacketBuffer/Examples.antt =====
-- Examples on src/database/packet_buffer/packet_buffer.c.
use des_aodv.Common.{ℕ, ◌≡◌, refl, some, [], ◌∷◌, arith}
use des_aodv.Clock.{at_second}
use des_aodv.PacketBuffer.{Pb, pb_pop_packet, waiting}
use des_aodv.PacketBuffer.Fifo.{push_all, pop_all, pop_all-push_all, pop_packet_refines}

pop_all-push_all_example :
    pop_all ℕ 3 (push_all ℕ (λ m. m) (record { msgs = []; size = 0 }) (10 ∷ 11 ∷ 12 ∷ []))
    ≡ some 10 ∷ some 11 ∷ some 12 ∷ []
pop_all-push_all_example = pop_all-push_all ℕ (λ m. m) (10 ∷ 11 ∷ 12 ∷ []) (omega arith)

abbrev pub two_waiting : Pb ℕ
two_waiting = record {
  entries =
      record { self = 1000; dhost_ether = 17; fl = record { msgs = 10 ∷ 11 ∷ []; size = 2 } }
      ∷ record { self = 1001; dhost_ether = 18; fl = record { msgs = 12 ∷ []; size = 1 } }
      ∷ [];
  ts = record { elements = []; size = 0; purge_timeout = at_second 3 };
}

pop_packet_refines_example :
    ((pb_pop_packet ℕ two_waiting 17).1 ≡ some 10)
    × (waiting ℕ (pb_pop_packet ℕ two_waiting 17).0 17 ≡ 11 ∷ [])
pop_packet_refines_example = pop_packet_refines ℕ two_waiting 17 17 (refl, (refl, tt))
