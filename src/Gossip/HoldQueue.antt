-- ===== src/Gossip/HoldQueue.antt =====
-- The hold queue of src/pipeline/aodv_gossip.c.
use des_aodv.Common.{
  ◌%◌, ◌^◌, ℕ, ◌↔◌, ◌+◌, ◌<◌, ◌≤◌, ◌≡◌, refl, false, not, ◌&&◌, none, some, List, [], ◌∷◌, leb,
  if◌then◌else◌, Option-cases, inl, inr, arith,
}
use des_aodv.Dessert.{Dessert, Timeval, Ordered, is_pos-cmp}
use des_aodv.Helper.{hf_comp_u32}
use des_aodv.Helper.Serial.{comp_sign}
use des_aodv.Table.{find, find-modify_self}
use des_aodv.Gossip.{
  Rreq, HoldQueueElem, Gossip, gossip_3, same_hosts, aodv_gossip_hold_queue_search,
  aodv_gossip_hold_queue_add, aodv_gossip_capt_rreq, flush, aodv_gossip_3, aodv_gossip,
}

module _ {D : Dessert} (O : Ordered D) where
  -- all elements wait until after this time
  abbrev pub AllAfter : Timeval → List HoldQueueElem → Type 0
  AllAfter t [] = Unit {0}
  AllAfter t (el ∷ queue) = (O.instant t < O.instant el.timeout) × AllAfter t queue

  -- the timeouts do not fall
  abbrev pub InOrder : ℕ → List HoldQueueElem → Type 0
  InOrder bound [] = Unit {0}
  InOrder bound (el ∷ queue) = (bound ≤ O.instant el.timeout) × InOrder (O.instant el.timeout) queue

  -- what is due and was heard but once
  abbrev pub due : Timeval → List HoldQueueElem → List Rreq
  due t [] = []
  due t (el ∷ queue) =
      if leb (O.instant el.timeout) (O.instant t) && not (leb 2 el.quantity)
      then el.msg ∷ due t queue
      else due t queue

  later-due :
      (t : Timeval) (bound : ℕ) (queue : List HoldQueueElem)
      → InOrder bound queue
      → O.instant t < bound
      → (due t queue ≡ []) × AllAfter t queue
  later-due t bound [] o h = (refl, tt)
  later-due t bound (el ∷ queue) o h = ground (arith, later-due t (O.instant el.timeout) queue o.1)

  InOrder-mono : (m n : ℕ) (queue : List HoldQueueElem) → m ≤ n → InOrder n queue → InOrder m queue
  InOrder-mono m n [] less o = tt
  InOrder-mono m n (el ∷ queue) less o = (omega (arith, less, o.0), o.1)

  flush-due :
      (t : Timeval) (queue : List HoldQueueElem) (bound : ℕ)
      → InOrder bound queue
      → ((flush D t queue).1 ≡ due t queue)
        × AllAfter t (flush D t queue).0
        × InOrder bound (flush D t queue).0
  unfolding flush
  flush-due t [] bound o = (refl, tt, tt)
  flush-due t (el ∷ queue) bound o =
      let (sent, after, ordered) = flush-due t queue (O.instant el.timeout) o.1 in
      ground (
        arith,
        is_pos-cmp O el.timeout t,
        sent,
        after,
        InOrder-mono bound (O.instant el.timeout) (flush D t queue).0 o.0 ordered,
        later-due t (O.instant el.timeout) queue o.1,
      )

  -- If the timeouts in the hold queue do not fall, the periodic task sends exactly the
  -- messages that are due and were heard less than twice, in their order; what stays in the
  -- queue is not due yet, and its timeouts do not fall.
  pub gossip_3_sends_due :
      (t : Timeval) (g : Gossip) (bound : ℕ)
      → InOrder bound g.hold_queue
      → let (g', sent) = aodv_gossip_3 D t g in
        (sent ≡ due t g.hold_queue) × AllAfter t g'.hold_queue × InOrder bound g'.hold_queue
  unfolding aodv_gossip_3
  gossip_3_sends_due t g bound ordered = flush-due t g.hold_queue bound ordered

-- Under GOSSIP_3 without luck, the function writes through a null pointer exactly if no
-- message between the two hosts is held.
pub gossip_3_null :
    (g : Gossip) (msg : Rreq)
    → (aodv_gossip g gossip_3 false msg ≡ none) ↔ (find (same_hosts msg) g.hold_queue ≡ none)
unfolding aodv_gossip aodv_gossip_hold_queue_add aodv_gossip_hold_queue_search
gossip_3_null g msg = elim (Option-cases (find (same_hosts msg) g.hold_queue)) [
  | inl absent ↦ ground (arith, absent)
  | inr (el, here) ↦ ground (arith, here)
]

-- If a message is held for the two hosts, and the sequence number of the captured RREQ is 1 to
-- 2 ^ 31 steps ahead of its number, round the wrap, the capture changes nothing: the held
-- message stays and its count does not rise.
pub capt_rreq_newer :
    (g : Gossip) (msg : Rreq) (el : HoldQueueElem) (k : ℕ)
    → find (same_hosts msg) g.hold_queue ≡ some el
    → el.msg.originator_sequence_number < 2 ^ 32
    → 1 ≤ k
    → k ≤ 2 ^ 31
    → msg.originator_sequence_number ≡ (el.msg.originator_sequence_number + k) % 2 ^ 32
    → aodv_gossip_capt_rreq g msg ≡ g
unfolding aodv_gossip_capt_rreq aodv_gossip_hold_queue_search hf_comp_u32
capt_rreq_newer g msg el k here small some_steps few ahead =
    rw (here, aodv_gossip_capt_rreq, aodv_gossip_hold_queue_search) (ground (arith, ahead))

pub capt_rreq_again :
    (g : Gossip) (msg : Rreq) (el : HoldQueueElem)
    → find (same_hosts msg) g.hold_queue ≡ some el
    → el.msg.originator_sequence_number ≡ msg.originator_sequence_number
    → find (same_hosts msg) (aodv_gossip_capt_rreq g msg).hold_queue
      ≡ some (record el { quantity = el.quantity + 1 })
unfolding aodv_gossip_capt_rreq aodv_gossip_hold_queue_search
capt_rreq_again g msg el here same =
    rw (here, aodv_gossip_capt_rreq, aodv_gossip_hold_queue_search)
      (ground (
        arith,
        same,
        comp_sign el.msg.originator_sequence_number msg.originator_sequence_number,
        find-modify_self (same_hosts msg) (λ x. record x { quantity = x.quantity + 1 }) g.hold_queue
            el (λ x. refl) here,
      ))
