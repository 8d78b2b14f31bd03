-- ===== src/Gossip/Unheld.antt =====
-- An empty hold queue of src/pipeline/aodv_gossip.c stays empty.
use des_aodv.Common.{◌≡◌, refl, Bool, true, false, none, some, [], arith}
use des_aodv.Dessert.{Dessert, Timeval}
use des_aodv.Table.{find, remove}
use des_aodv.Gossip.{
  Rreq, Gossip, GossipType, gossip_none, gossip_0, gossip_1, gossip_3, pissog_0, pissog_3,
  same_hosts, aodv_gossip_hold_queue_search, aodv_gossip_hold_queue_add,
  aodv_gossip_hold_queue_drop, aodv_gossip_capt_rreq, aodv_gossip, aodv_gossip_3, flush,
}

find_empty :
    (g : Gossip) (msg : Rreq) → g.hold_queue ≡ [] → find (same_hosts msg) g.hold_queue ≡ none
find_empty g msg empty = rw empty refl

gossip_3_unheld :
    (g : Gossip) (msg : Rreq) → g.hold_queue ≡ [] → aodv_gossip g gossip_3 false msg ≡ none
unfolding aodv_gossip aodv_gossip_hold_queue_add aodv_gossip_hold_queue_search
gossip_3_unheld g msg empty = ground (arith, find_empty g msg empty)

pub gossip-empty :
    (g g' : Gossip) (type : GossipType) (lucky relay : Bool) (msg : Rreq)
    → g.hold_queue ≡ []
    → aodv_gossip g type lucky msg ≡ some (g', relay)
    → g'.hold_queue ≡ []
unfolding aodv_gossip aodv_gossip_hold_queue_drop
gossip-empty g g' gossip_none lucky relay msg empty ran = ground (arith, empty, ran)
gossip-empty g g' gossip_0 lucky relay msg empty ran = ground (arith, empty, ran)
gossip-empty g g' gossip_1 lucky relay msg empty ran = ground (arith, empty, ran)
gossip-empty g g' gossip_3 true relay msg empty ran =
    let dropped : remove (same_hosts msg) g.hold_queue ≡ [] = rw empty refl in
    ground (arith, dropped, ran)
gossip-empty g g' gossip_3 false relay msg empty ran =
    absurd (ground (arith, gossip_3_unheld g msg empty, ran))
gossip-empty g g' pissog_0 lucky relay msg empty ran = absurd (ground (arith, ran))
gossip-empty g g' pissog_3 lucky relay msg empty ran = absurd (ground (arith, ran))

pub capt_rreq-empty :
    (g : Gossip) (msg : Rreq) → g.hold_queue ≡ [] → (aodv_gossip_capt_rreq g msg).hold_queue ≡ []
unfolding aodv_gossip_capt_rreq aodv_gossip_hold_queue_search
capt_rreq-empty g msg empty = ground (arith, find_empty g msg empty, empty)

pub gossip_3_idle :
    (D : Dessert) (now : Timeval) (g : Gossip) → g.hold_queue ≡ [] → (aodv_gossip_3 D now g).1 ≡ []
unfolding aodv_gossip_3 flush
gossip_3_idle D now g empty = rw empty refl

pub unlucky_crash :
    (g : Gossip) (type : GossipType) (lucky : Bool) (msg : Rreq)
    → type ≡ gossip_3
    → lucky ≡ false
    → g.hold_queue ≡ []
    → aodv_gossip g type lucky msg ≡ none
unlucky_crash g type lucky msg is_3 unlucky empty = rw (is_3, unlucky) (gossip_3_unheld g msg empty)
