-- ===== src/Gossip.antt =====
-- src/pipeline/aodv_gossip.c: whether a RREQ is sent on, and the queue of RREQs that are held back.
-- A message is what the functions read of it. `aodv_gossip_0`, which draws a random number, is the
-- argument `lucky`. A write through a null pointer and an `assert(false)` are `none`. `periodic` is
-- whether `hold_queue_periodic` is not null, `tasks` the number of tasks that run `aodv_gossip_3`.
pub mod HoldQueue
pub mod Unheld
pub mod Examples
use des_aodv.Common.{
  ℕ, zero, suc, ◌+◌, ◌-◌, ◌*◌, ◌%◌, ◌^◌, Bool, true, false, not, ◌&&◌, ◌||◌, Option, none, some,
  List, [], ◌∷◌, ◌++◌, ◌==◌, ltb, leb, if◌then◌else◌, is_pos, is_neg,
}
use des_aodv.Dessert.{Dessert, Timeval}
use des_aodv.Helper.{hf_comp_u32}
use des_aodv.Table.{find, remove, modify}

pub record Rreq : Type 0 where
  pub ether_shost : ℕ
  pub ether_dhost : ℕ
  pub hop_count : ℕ
  pub originator_sequence_number : ℕ

-- `hold_queue_t`
pub record HoldQueueElem : Type 0 where
  pub timeout : Timeval
  pub msg : Rreq
  pub quantity : ℕ

pub record Gossip : Type 0 where
  pub hold_queue : List HoldQueueElem
  pub periodic : Bool
  pub tasks : ℕ

-- `aodv_gossip_t`
pub data GossipType : Type 0 where
  gossip_none gossip_0 gossip_1 gossip_3 pissog_0 pissog_3 : GossipType

abbrev pub same_hosts : Rreq → HoldQueueElem → Bool
same_hosts msg el =
    (msg.ether_shost == el.msg.ether_shost) && (msg.ether_dhost == el.msg.ether_dhost)

unfoldable pub aodv_gossip_hold_queue_search : Rreq → List HoldQueueElem → Option HoldQueueElem
aodv_gossip_hold_queue_search msg queue = find (same_hosts msg) queue

-- The new element has a name of its own in the inner block, so the pointer that the copy of the
-- message is written through is still null where the search found nothing. The task that is added is
-- not assigned to `hold_queue_periodic`.
unfoldable pub aodv_gossip_hold_queue_add : Gossip → Rreq → Option Gossip
aodv_gossip_hold_queue_add g msg = elim (aodv_gossip_hold_queue_search msg g.hold_queue) [
  | none ↦ none
  | some el ↦ some (record g {
    hold_queue = modify (same_hosts msg) (λ x. record x { msg = msg }) g.hold_queue;
    tasks = if g.periodic then g.tasks else g.tasks + 1;
  })
]

unfoldable pub aodv_gossip_hold_queue_drop : Gossip → Rreq → Gossip
aodv_gossip_hold_queue_drop g msg = record g { hold_queue = remove (same_hosts msg) g.hold_queue }

unfoldable pub aodv_gossip_capt_rreq : Gossip → Rreq → Gossip
aodv_gossip_capt_rreq g msg = elim (aodv_gossip_hold_queue_search msg g.hold_queue) [
  | none ↦ g
  | some el ↦
      let cmp_result =
        hf_comp_u32 el.msg.originator_sequence_number msg.originator_sequence_number in
      if is_pos cmp_result
      then record g { hold_queue = remove (same_hosts msg) g.hold_queue }
      else if is_neg cmp_result
      then g
      else record g {
        hold_queue =
            modify (same_hosts msg) (λ x. record x { quantity = x.quantity + 1 }) g.hold_queue;
      }
]

-- The tasks after `dessert_periodic_del` of `hold_queue_periodic`; where that is null none is deleted.
unfoldable pub tasks_left : Gossip → ℕ
tasks_left g = if g.periodic then g.tasks - 1 else g.tasks

-- The loop of `aodv_gossip_3`: what is left, and the messages that are sent.
pub flush : Dessert → Timeval → List HoldQueueElem → List HoldQueueElem × List Rreq
flush D scheduled [] = ([], [])
flush D scheduled (head ∷ queue) =
    let rest = flush D scheduled queue in
    if is_pos (D.timevalcmp head.timeout scheduled)
    then (head ∷ queue, [])
    else if leb 2 head.quantity
    then rest
    else (rest.0, head.msg ∷ rest.1)

unfoldable pub aodv_gossip_3 : Dessert → Timeval → Gossip → Gossip × List Rreq
aodv_gossip_3 D scheduled g =
    let (queue, sent) = flush D scheduled g.hold_queue in
    (
      record {
        hold_queue = queue;
        periodic = elim queue [ [] ↦ false | head ∷ rest ↦ g.periodic ];
        tasks = elim queue [ [] ↦ tasks_left g | head ∷ rest ↦ g.tasks ];
      },
      sent,
    )

-- Whether to send the message on.
unfoldable pub aodv_gossip : Gossip → GossipType → Bool → Rreq → Option (Gossip × Bool)
aodv_gossip g gossip_none lucky msg = some (g, true)
aodv_gossip g gossip_0 lucky msg = some (g, lucky)
aodv_gossip g gossip_1 lucky msg = some (g, leb msg.hop_count 1 || lucky)
aodv_gossip g gossip_3 lucky msg =
    if lucky
    then some (aodv_gossip_hold_queue_drop g msg, true)
    else elim (aodv_gossip_hold_queue_add g msg) [ none ↦ none | some g' ↦ some (g', false) ]
aodv_gossip g pissog_0 lucky msg = none
aodv_gossip g pissog_3 lucky msg = none
