-- ===== src/PacketBuffer/Keys.antt =====
-- No host is twice in the packet buffer of src/database/packet_buffer/packet_buffer.c.
use des_aodv.Common.{
  ℕ, ◌≡◌, refl, Bool, true, false, Option, List, [], ◌∷◌, ◌==◌, arith, Option-cases, Bool-cases,
  ◌+◌, ◌-◌, ◌%◌, ◌^◌, is_nonpos, inl, inr,
}
use des_aodv.Dessert.{Dessert, Timeval}
use des_aodv.Timeslot.{
  Element, purge_loop, deleteobject, insert, purgeobjects, add_until, addobject,
}
use des_aodv.Table.{find, at_address, Apart, remove_any-Apart, add-Apart, modify-Apart}
use des_aodv.PacketBuffer.{
  PbEl, Pb, for_dhost, purge_packets, pb_cleanup, touch, pb_push_packet, fl_push_packet,
}
use des_aodv.PdrTracker.{Outcome, done, fault, then_do}
use des_aodv.Message.{Msg}

abbrev pub dhost : PbEl Msg → ℕ
dhost e = e.dhost_ether

-- The purges of the packet buffer.
module _ (D : Dessert) where
  purge_loop-Apart :
      (now : Timeval) (es : List Element) (size : ℕ) (pbs : List (PbEl Msg))
      → Apart dhost pbs
      → Apart dhost (purge_loop D (purge_packets Msg) now es size pbs).2
  unfolding purge_loop purge_packets
  purge_loop-Apart now [] size pbs apart = apart
  purge_loop-Apart now (e ∷ es) size pbs apart =
      let rest =
        purge_loop-Apart now es ((size + 2 ^ 32 - 1) % 2 ^ 32)
          (purge_packets Msg e.purge_time e.object pbs)
          (remove_any-Apart dhost (at_address (λ x. x.self) e.object) pbs apart) in
      elim (Bool-cases (is_nonpos (D.timevalcmp e.purge_time now))) [
        | inl due ↦ rw due rest
        | inr later ↦ rw later apart
      ]

  pub pb_cleanup-Apart :
      (pb : Pb Msg) (t : Timeval)
      → Apart dhost pb.entries
      → Apart dhost (pb_cleanup Msg D pb t).entries
  unfolding pb_cleanup purgeobjects
  pb_cleanup-Apart pb t apart = purge_loop-Apart t pb.ts.elements pb.ts.size pb.entries apart

  touch-Apart :
      (pb : Pb Msg) (t : Timeval) (object : ℕ) (memory : Bool) (now : Timeval)
      → Apart dhost pb.entries
      → Apart dhost (touch Msg D pb t object memory now).entries
  unfolding touch addobject add_until purgeobjects
  touch-Apart pb t object false now apart = apart
  touch-Apart pb t object true now apart =
      let ts' = (deleteobject pb.ts object).0 in
      let new : Element = record {
        purge_time = D.timevaladd2 pb.ts.purge_timeout t;
        object = object;
      } in
      let rest =
        purge_loop-Apart now (insert D new ts'.elements) ((ts'.size + 1) % 2 ^ 32) pb.entries
          apart in
      elim (Bool-cases (ts'.size == 0)) [
        | inl empty ↦ rw empty apart
        | inr some_left ↦ rw some_left rest
      ]

  pub pb_push_packet-Apart :
      (clone : Msg → Msg) (pb : Pb Msg) (host : ℕ) (msg : Msg) (t : Timeval) (malloc : Option ℕ)
      (fl_memory ts_memory : Bool) (now : Timeval)
      → Apart dhost pb.entries
      → Apart dhost
          (pb_push_packet Msg D clone pb host msg t malloc fl_memory ts_memory now).entries
  unfolding pb_push_packet
  pb_push_packet-Apart clone pb host msg t malloc fl_memory ts_memory now apart =
      let pb1 = pb_cleanup Msg D pb t in
      let apart1 = pb_cleanup-Apart pb t apart in
      elim (Option-cases (find (for_dhost Msg host) pb1.entries)) [
        | inr (e, here) ↦
            rw (here, pb_push_packet)
              (touch-Apart _ t e.self ts_memory now (
                modify-Apart dhost (for_dhost Msg host)
                  (λ x. record x { fl = fl_push_packet Msg clone x.fl msg fl_memory }) pb1.entries
                  (λ x. refl) apart1))
        | inl absent ↦ elim (Option-cases malloc) [
          | inl no_memory ↦ rw (absent, no_memory, pb_push_packet) apart1
          | inr (a, given) ↦
              rw (absent, given, pb_push_packet)
                (touch-Apart _ t a ts_memory now
                  (add-Apart dhost _ pb1.entries (rw absent refl) apart1))
        ]
      ]

-- Calls that may fail, and change no more than the table that they were given.
then_do-same :
    {A B C : Type 0} (r : Outcome A) (f : A → B) (pb : B → C) (c : C)
    → ((a : A) → pb (f a) ≡ c)
    → (b : B) → then_do {B = B} r (λ a. done (f a)) ≡ done b
    → pb b ≡ c
then_do-same fault f pb c same b ran = absurd (cc)
then_do-same (done a) f pb c same b ran = ground (arith, same a, ran)
