-- ===== src/Gossip/Examples.antt =====
-- Examples on src/pipeline/aodv_gossip.c.
use des_aodv.Common.{ℕ, ◌≡◌, refl, false, some, [], ◌∷◌}
use des_aodv.Table.{find}
use des_aodv.Clock.{at_second}
use des_aodv.Gossip.{Rreq, HoldQueueElem, Gossip, same_hosts, aodv_gossip_capt_rreq}
use des_aodv.Gossip.HoldQueue.{capt_rreq_again}

abbrev pub rreq : ℕ → Rreq
rreq seq = record {
  ether_shost = 17;
  ether_dhost = 18;
  hop_count = 2;
  originator_sequence_number = seq;
}

abbrev pub held : HoldQueueElem
held = record { timeout = at_second 4; msg = rreq 7; quantity = 1 }

abbrev pub one_held : Gossip
one_held = record { hold_queue = held ∷ []; periodic = false; tasks = 0 }

capt_rreq_again_example :
    find (same_hosts (rreq 7)) (aodv_gossip_capt_rreq one_held (rreq 7)).hold_queue
    ≡ some (record held { quantity = 2 })
capt_rreq_again_example = capt_rreq_again one_held (rreq 7) held refl refl
