-- ===== src/PacketBuffer/Push.antt =====
-- A packet that is put into the packet buffer of src/database/packet_buffer/packet_buffer.c waits
-- behind those for the same host.
use des_aodv.Common.{
  ℕ, ◌≡◌, ◌<◌, refl, ◌∙◌, ap, sym, ◌+◌, ◌^◌, Bool, true, Option, none, some, List, [], ◌∷◌, ◌++◌,
  length, Option-cases, inl, inr, arith,
}
use des_aodv.Dessert.{Dessert, Timeval, Ordered}
use des_aodv.Timeslot.{addobject, purgeobjects}
use des_aodv.Timeslot.Refine.{IsValid, purgeobjects_refines}
use des_aodv.Table.{find, modify, remove, add, at_address, find-add, find-modify_self}
use des_aodv.Table.Safety.{add_until-keeps}
use des_aodv.PacketBuffer.{
  PbEl, Pb, for_dhost, purge_packets, fl_push_packet, pb_cleanup, touch, pb_push_packet, waiting,
}
use des_aodv.PacketBuffer.Fifo.{IsCounted, push_packet_lem}

module _ {D : Dessert} (O : Ordered D) (Msg : Type 0) (clone : Msg → Msg) where
  open O use {instant}

  -- the address of the packets of a host
  abbrev address : PbEl Msg → ℕ
  address e = e.self

  frees :
      (t : Timeval) (o : ℕ) (es : List (PbEl Msg))
      → purge_packets Msg t o es ≡ remove (at_address address o) es
  unfolding purge_packets
  frees t o es = refl

  -- the packets of an element, if there is one
  abbrev in_front : Option (PbEl Msg) → List Msg
  in_front none = []
  in_front (some e) = e.fl.msgs

  behind :
      {r r' : Option (PbEl Msg)} (msg : Msg)
      → r ≡ r'
      → in_front r ++ (clone msg ∷ []) ≡ in_front r' ++ (clone msg ∷ [])
  behind msg same = ap (λ r. in_front r ++ (clone msg ∷ [])) same

  touch-waiting :
      (pb : Pb Msg) (host : ℕ) (e : PbEl Msg) (t : Timeval) (memory : Bool) (now : Timeval)
      → IsValid O pb.ts
      → pb.ts.size + 1 < 2 ^ 32
      → instant now < instant (D.timevaladd2 pb.ts.purge_timeout t)
      → find (for_dhost Msg host) pb.entries ≡ some e
      → waiting Msg (touch Msg D pb t e.self memory now) host ≡ e.fl.msgs
  unfolding touch addobject
  touch-waiting pb host e t memory now valid room early found = ap in_front (
      add_until-keeps O address (λ es. es) (purge_packets Msg) frees pb.ts
        (D.timevaladd2 pb.ts.purge_timeout t) e.self memory now pb.entries (for_dhost Msg host) e
        valid room found (ground arith))

  -- What waits for a host has been counted, and there is room for one packet more.
  abbrev pub HasRoom : Pb Msg → ℕ → Type 0
  HasRoom pb host =
      (e : PbEl Msg)
      → find (for_dhost Msg host) pb.entries ≡ some e
      → IsCounted Msg e.fl × (length e.fl.msgs + 1 < 2 ^ 32)

  pub push_packet-waiting :
      (pb : Pb Msg) (host : ℕ) (msg : Msg) (t : Timeval) (a : ℕ) (ts_memory : Bool) (now : Timeval)
      → let pb1 = pb_cleanup Msg D pb t in
        IsValid O pb.ts
        → pb1.ts.size + 1 < 2 ^ 32
        → instant now < instant (D.timevaladd2 pb.ts.purge_timeout t)
        → HasRoom pb1 host
        → waiting Msg (pb_push_packet Msg D clone pb host msg t (some a) true ts_memory now) host
          ≡ waiting Msg pb1 host ++ (clone msg ∷ [])
  unfolding pb_push_packet pb_cleanup purgeobjects
  push_packet-waiting pb host msg t a ts_memory now valid room early counted =
      let pb1 = pb_cleanup Msg D pb t in
      let valid1 : IsValid O pb1.ts =
        (purgeobjects_refines O (purge_packets Msg) t pb.entries valid).0 in
      let pushed : PbEl Msg → PbEl Msg =
        λ x. record x { fl = fl_push_packet Msg clone x.fl msg true } in
      elim (Option-cases (find (for_dhost Msg host) pb1.entries)) [
        | inr (e, here) ↦
            rw (here, pb_push_packet)
              (touch-waiting
                  (record pb1 { entries = modify (for_dhost Msg host) pushed pb1.entries }) host
                  (pushed e) t ts_memory now valid1 room early
                  (find-modify_self (for_dhost Msg host) pushed pb1.entries e (λ x. refl) here)
                ∙ (push_packet_lem Msg clone e.fl msg (counted e here).0 (counted e here).1).1
                ∙ behind msg (sym here))
        | inl absent ↦
            rw (absent, pb_push_packet)
              (let e : PbEl Msg = record {
                self = a;
                dhost_ether = host;
                fl = fl_push_packet Msg clone (record { msgs = []; size = 0 }) msg true;
              } in
                touch-waiting (record pb1 { entries = add e pb1.entries }) host e t ts_memory now
                  valid1 room early
                  (ground (arith, find-add (for_dhost Msg host) e pb1.entries, absent))
                ∙ (push_packet_lem Msg clone (record { msgs = []; size = 0 }) msg
                    (record { counted = refl; small = omega arith }) (omega arith)).1
                ∙ behind msg (sym absent))
      ]
