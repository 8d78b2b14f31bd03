-- ===== src/PacketBuffer/Fifo.antt =====
-- The order of the packets of src/database/packet_buffer/packet_buffer.c.
use des_aodv.Common.{
  ℕ, ◌⊎◌, subst, zero, suc, sym, ◌∙◌, ◌+◌, ◌-◌, ◌%◌, ◌^◌, ◌<◌, ◌≡◌, refl, ap, true, Option, none,
  some, List, [], ◌∷◌, ◌++◌, map, length, length-append, ◌==◌, ltb, if◌then◌else◌, arith,
  Option-cases, Bool-cases, inl, inr,
}
use mathlib.Core.List.{append-nil, append_assoc}
use des_aodv.Table.{find, remove, modify, Apart, remove-Apart, modify-Apart}
use des_aodv.PacketBuffer.{
  FifoList, PbEl, Pb, for_dhost, tail, fl_push_packet, fl_pop_packet, pb_pop_packet, waiting,
}

module _ (Msg : Type 0) where
  -- The counter is the number of the packets.
  pub record IsCounted (fl : FifoList Msg) : Type 0 where
    pub counted : fl.size ≡ length fl.msgs
    pub small : length fl.msgs < 2 ^ 32

  -- one `fl_push_packet` after the other, no `malloc` failing
  abbrev pub push_all : (Msg → Msg) → FifoList Msg → List Msg → FifoList Msg
  push_all clone fl [] = fl
  push_all clone fl (m ∷ ms) = push_all clone (fl_push_packet Msg clone fl m true) ms

  -- what so many `fl_pop_packet` return
  abbrev pub pop_all : ℕ → FifoList Msg → List (Option Msg)
  pop_all zero fl = []
  pop_all (suc n) fl = (fl_pop_packet Msg fl).1 ∷ pop_all n (fl_pop_packet Msg fl).0

  pub push_packet_lem :
      (clone : Msg → Msg) (fl : FifoList Msg) (m : Msg)
      → IsCounted fl
      → length fl.msgs + 1 < 2 ^ 32
      → IsCounted (fl_push_packet Msg clone fl m true)
        × ((fl_push_packet Msg clone fl m true).msgs ≡ fl.msgs ++ (clone m ∷ []))
  unfolding fl_push_packet
  push_packet_lem clone fl m c room =
      elim (Bool-cases (ltb (2 ^ 32 - 1) ((fl.size + 1) % 2 ^ 32))) [
        | inl full ↦ absurd (ground (arith, c.counted))
        | inr less ↦ rw less (
          record {
            counted = ground (arith, length-append fl.msgs (clone m ∷ []), c.counted);
            small = ground (arith, length-append fl.msgs (clone m ∷ []));
          },
          refl,
        )
      ]

  pub pop_all_lem :
      (ms : List Msg) (size : ℕ)
      → pop_all (length ms) (record { msgs = ms; size = size }) ≡ map some ms
  unfolding fl_pop_packet
  pop_all_lem [] size = refl
  pop_all_lem (m ∷ ms) size = ap (λ xs. some m ∷ xs) (pop_all_lem ms _)

  length-map : (clone : Msg → Msg) (ms : List Msg) → length (map clone ms) ≡ length ms
  length-map clone [] = refl
  length-map clone (m ∷ ms) = ap suc (length-map clone ms)

  -- Packets leave the list of a destination in the order in which they came, as copies; none is
  -- dropped while there are less than 2 ^ 32.
  pub push_all_fifo :
      (clone : Msg → Msg) (fl : FifoList Msg) (ms : List Msg)
      → IsCounted fl
      → length fl.msgs + length ms < 2 ^ 32
      → IsCounted (push_all clone fl ms) × ((push_all clone fl ms).msgs ≡ fl.msgs ++ map clone ms)
  push_all_fifo clone fl [] c room = (c, sym (append-nil fl.msgs))
  push_all_fifo clone fl (m ∷ ms) c room =
      let pushed = push_packet_lem clone fl m c (omega arith) in
      let rest =
        push_all_fifo clone (fl_push_packet Msg clone fl m true) ms pushed.0
          (ground (arith, pushed.1, length-append fl.msgs (clone m ∷ []))) in
      (
        rest.0,
        rest.1
            ∙ ap (λ l. l ++ map clone ms) pushed.1
            ∙ append_assoc fl.msgs (clone m ∷ []) (map clone ms),
      )

  -- Less than 2 ^ 32 packets that are put into an empty list of a destination, no `malloc`
  -- failing, come out as copies, all of them and in the order in which they came.
  pub pop_all-push_all :
      (clone : Msg → Msg) (ms : List Msg)
      → length ms < 2 ^ 32
      → pop_all (length ms) (push_all clone (record { msgs = []; size = 0 }) ms)
        ≡ map some (map clone ms)
  pop_all-push_all clone ms room =
      let stored =
        push_all_fifo clone (record { msgs = []; size = 0 }) ms
          (record { counted = refl; small = omega arith }) (omega (arith, room)) in
      let all = push_all clone (record { msgs = []; size = 0 }) ms in
      subst (λ n. pop_all n all ≡ map some (map clone ms))
        (ap length stored.1 ∙ length-map clone ms)
        (pop_all_lem all.msgs all.size ∙ ap (map some) stored.1)

  abbrev pub head : List Msg → Option Msg
  head [] = none
  head (m ∷ ms) = some m

  find-remove_key :
      (o q : ℕ) (xs : List (PbEl Msg))
      → Apart (λ (e : PbEl Msg). e.dhost_ether) xs
      → find (for_dhost Msg q) (remove (for_dhost Msg o) xs)
        ≡ (if o == q then none else find (for_dhost Msg q) xs)
  find-remove_key o q [] a = ground arith
  find-remove_key o q (x ∷ xs) a = ground (arith, find-remove_key o q xs a.1, a.0)

  find-modify_key :
      (o q : ℕ) (f : PbEl Msg → PbEl Msg) (xs : List (PbEl Msg)) (e : PbEl Msg)
      → ((x : PbEl Msg) → (f x).dhost_ether ≡ x.dhost_ether)
      → find (for_dhost Msg o) xs ≡ some e
      → find (for_dhost Msg q) (modify (for_dhost Msg o) f xs)
        ≡ (if o == q then some (f e) else find (for_dhost Msg q) xs)
  find-modify_key o q f [] e same h = absurd (cc)
  find-modify_key o q f (x ∷ xs) e same h =
      ground (arith, find-modify_key o q f xs e same, same x, h)

  List-cases : (ms : List Msg) → (ms ≡ []) ⊎ ((m : Msg) × (rest : List Msg) × (ms ≡ m ∷ rest))
  List-cases [] = inl refl
  List-cases (m ∷ rest) = inr (m, rest, refl)

  -- If no destination is twice in the buffer, popping a packet for a destination gives the
  -- first packet that waits for it, or none, leaves the rest of them waiting in their order,
  -- and changes nothing for another destination.
  pub pop_packet_refines :
      (pb : Pb Msg) (dhost other : ℕ)
      → Apart (λ (e : PbEl Msg). e.dhost_ether) pb.entries
      → let (pb', msg) = pb_pop_packet Msg pb dhost in
        (msg ≡ head (waiting Msg pb dhost))
        × (waiting Msg pb' other
            ≡ (if dhost == other then tail Msg (waiting Msg pb dhost) else waiting Msg pb other))
  unfolding pb_pop_packet fl_pop_packet
  pop_packet_refines pb dhost other a =
      elim (Option-cases (find (for_dhost Msg dhost) pb.entries)) [
        | inl absent ↦ rw (absent, pb_pop_packet) (ground arith, ground (arith, absent))
        | inr (e, here) ↦ elim (List-cases e.fl.msgs) [
          | inl empty ↦ ground (arith, here, empty, find-remove_key dhost other pb.entries a)
          | inr (m, rest, full) ↦ elim (List-cases rest) [
            | inl last ↦ ground (arith, here, full, last, find-remove_key dhost other pb.entries a)
            | inr (m', rest', more) ↦ ground (
              arith,
              here,
              full,
              more,
              find-modify_key dhost other (λ x. record x { fl = (fl_pop_packet Msg e.fl).0 })
                  pb.entries e (λ x. refl) here,
            )
          ]
        ]
      ]

  pub pop_packet-Apart :
      (pb : Pb Msg) (dhost : ℕ)
      → Apart (λ (e : PbEl Msg). e.dhost_ether) pb.entries
      → Apart (λ (e : PbEl Msg). e.dhost_ether) (pb_pop_packet Msg pb dhost).0.entries
  unfolding pb_pop_packet fl_pop_packet
  pop_packet-Apart pb dhost a = elim (Option-cases (find (for_dhost Msg dhost) pb.entries)) [
    | inl absent ↦ rw (absent, pb_pop_packet) a
    | inr (e, here) ↦ elim (List-cases (fl_pop_packet Msg e.fl).0.msgs) [
      | inl last ↦
          rw (here, pb_pop_packet, last)
            (remove-Apart (λ (e : PbEl Msg). e.dhost_ether) dhost pb.entries a)
      | inr (m, rest, more) ↦
          rw (here, pb_pop_packet, more)
            (modify-Apart (λ (e : PbEl Msg). e.dhost_ether) (for_dhost Msg dhost)
              (λ x. record x { fl = (fl_pop_packet Msg e.fl).0 }) pb.entries (λ x. refl) a)
    ]
  ]
