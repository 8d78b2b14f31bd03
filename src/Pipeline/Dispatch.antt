-- ===== src/Pipeline/Dispatch.antt =====
-- Which callback of src/aodv.c handles a message.
use des_aodv.Common.{
  ℕ, ◌≡◌, refl, ◌∙◌, ap, Bool, true, false, not, ◌||◌, ◌&&◌, ltb, none, List, [], ◌∷◌, ◌++◌,
  is_some, if◌then◌else◌, Bool-cases, inl, inr, arith,
}
use des_aodv.Dessert.{Dessert}
use des_aodv.PdrTracker.{done}
use des_aodv.Database.Neighbors.{aodv_db_check2_dneigh}
use des_aodv.Message.{Msg, Verdict, keep, drop, MeshIface, Settings, Oracle, Output}
use des_aodv.Daemon.{Daemon, Step, pure, ◌>>=◌}
use des_aodv.Daemon.Runs.{then_sent, run_last}
use des_aodv.Forward.{
  aodv_forward_broadcast, aodv_forward_multicast, aodv_forward, aodv_local_unicast,
}
use des_aodv.Handlers.{aodv_drop_errors, aodv_handle_hello}
use des_aodv.Handlers.Rreq.{aodv_handle_rreq}
use des_aodv.Handlers.Rrep.{aodv_handle_rrep}
use des_aodv.Handlers.Rerr.{aodv_handle_rerr}
use des_aodv.Pipeline.{Packet, Callbacks, Callback, data_callbacks, mesh_callbacks}

-- How libdessert runs the registered callbacks, which are given in the order of their registrations.
-- What comes from outside is that of each priority.
abbrev pub Runner : Type 0
Runner = List (ℕ × Callback) → (ℕ → Oracle) → Packet → MeshIface → Step (Packet × Verdict)

-- A priority that is before those of all these callbacks.
abbrev pub is_first : ℕ → List (ℕ × Callback) → Bool
is_first n [] = true
is_first n ((m, cb) ∷ cbs) = ltb n m && is_first n cbs

-- What the documentation of libdessert says: the callbacks are run in the order of their priorities,
-- the least number first, as long as each says that the message is kept. So the callback with the
-- least number is run first, wherever it stands among the registrations, and then the others.
pub record InOrder (runcall : Runner) : Type 0 where
  pub goes_on :
      (n : ℕ) (cb : Callback) (before after : List (ℕ × Callback)) (o : ℕ → Oracle) (p p' : Packet)
      (iface : MeshIface) (d d' : Daemon) (outs : List Output)
      → is_first n (before ++ after) ≡ true
      → cb (o n) p iface d ≡ done (d', outs, (p', keep))
      → runcall (before ++ (n, cb) ∷ after) o p iface d
        ≡ then_sent outs (runcall (before ++ after) o p' iface d')
  pub stops :
      (n : ℕ) (cb : Callback) (before after : List (ℕ × Callback)) (o : ℕ → Oracle) (p p' : Packet)
      (iface : MeshIface) (d d' : Daemon) (outs : List Output)
      → is_first n (before ++ after) ≡ true
      → cb (o n) p iface d ≡ done (d', outs, (p', drop))
      → runcall (before ++ (n, cb) ∷ after) o p iface d ≡ done (d', outs, (p', drop))

-- The message is none of the daemon's own.
pub record IsData (msg : Msg) : Type 0 where
  pub rreq : msg.rreq ≡ none
  pub rrep : msg.rrep ≡ none
  pub rerr : msg.rerr ≡ none
  pub hello : msg.hello ≡ none

module _ (D : Dessert) (L : Callbacks) (cfg : Settings) (runcall : Runner)
    (in_order : InOrder runcall) (o : ℕ → Oracle) (iface : MeshIface) (d : Daemon) where
  open in_order use {goes_on, stops}

  -- the first callback, if it keeps the message and does nothing else
  passes :
      (n : ℕ) (cb : Callback) (cbs : List (ℕ × Callback)) (p p' : Packet)
      {r : Daemon × List Output × (Packet × Verdict)}
      → is_first n cbs ≡ true
      → cb (o n) p iface d ≡ done (d, [], (p', keep))
      → runcall cbs o p' iface d ≡ done r
      → runcall ((n, cb) ∷ cbs) o p iface d ≡ done r
  passes n cb cbs p p' first kept rest =
      goes_on n cb [] cbs o p p' iface d d [] first kept ∙ ap (λ r. then_sent [] r) rest

  -- If callbacks run in the order of their priorities, a RREQ or a RREP of which the sender is
  -- no bidirectional neighbor, and which passes the checks of libdessert and is not from this
  -- host, is dropped before any handler: nothing is sent, and nothing changes but by the
  -- cleanup of the neighbors with which the check begins.
  pub stranger_dropped :
      (p p1 p2 : Packet)
      → L.msg_check p iface ≡ (p1, keep)
      → L.msg_ifaceflags p1 iface ≡ (p2, keep)
      → p2.rx.l2_src || p2.rx.l25_src ≡ false
      → is_some p2.msg.rreq || is_some p2.msg.rrep ≡ true
      → let (db, known) =
          aodv_db_check2_dneigh D d.db (o 30) p2.msg.l2_shost iface.self ((o 30).now 0) in
        known ≡ false
        → runcall (mesh_callbacks D L cfg) o p iface d ≡ done (record d { db = db }, [], (p2, drop))
  unfolding mesh_callbacks data_callbacks aodv_drop_errors
  stranger_dropped p p1 p2 check flags other control unknown =
      passes 10 _ _ p p1 refl (ap (λ r. done (d, [], r)) check) (
        passes 20 _ _ p1 p2 refl (ap (λ r. done (d, [], r)) flags)
          (stops 30 _ [] _ o p2 p2 iface d _ [] refl (rw (other, control, unknown) refl)))

  -- the handler of a data packet
  abbrev pub data_handler : Packet → Step Verdict
  data_handler p =
      if p.rx.l25_broadcast
      then aodv_forward_broadcast D (o 80) p.msg p.rx
      else if p.rx.l25_multicast
      then pure drop
      else if not p.rx.l2_dst || p.rx.l25_dst
      then aodv_local_unicast D (o 100) p.msg p.rx
      else aodv_forward D cfg (o 90) p.msg p.rx

  -- The callbacks for control messages pass a data packet on.
  control_passes :
      (p p1 p2 p3 : Packet) {r : Daemon × List Output × (Packet × Verdict)}
      → L.msg_check p iface ≡ (p1, keep)
      → L.msg_ifaceflags p1 iface ≡ (p2, keep)
      → p2.rx.l2_src || p2.rx.l25_src ≡ false
      → IsData p2.msg
      → L.mesh_ipttl p2 iface ≡ (p3, keep)
      → runcall (data_callbacks D cfg) o p3 iface d ≡ done r
      → runcall (mesh_callbacks D L cfg) o p iface d ≡ done r
  unfolding mesh_callbacks aodv_drop_errors aodv_handle_hello aodv_handle_rreq aodv_handle_rerr
      aodv_handle_rrep data_callbacks
  control_passes p p1 p2 p3 check flags other plain ipttl rest =
      passes 10 _ _ p p1 refl (ap (λ r. done (d, [], r)) check) (
        passes 20 _ _ p1 p2 refl (ap (λ r. done (d, [], r)) flags) (
          passes 30 _ _ p2 p2 refl (rw (other, plain.rreq, plain.rrep) refl) (
            passes 40 _ _ p2 p2 refl (rw plain.hello refl) (
              passes 50 _ _ p2 p2 refl (rw plain.rreq refl) (
                passes 60 _ _ p2 p2 refl (rw plain.rerr refl) (
                  passes 70 _ _ p2 p2 refl (rw plain.rrep refl)
                    (passes 75 _ _ p2 p3 refl (ap (λ r. done (d, [], r)) ipttl) rest)))))))

  -- A handler's run in the pipeline.
  handled :
      (m : Step Verdict) (p : Packet) (v : Verdict) (d' : Daemon) (outs : List Output)
      → m d ≡ done (d', outs, v)
      → ◌>>=◌ {B = Packet × Verdict} m (λ verdict. pure (p, verdict)) d ≡ done (d', outs, (p, v))
  handled m p v d' outs ran = run_last m (λ verdict. (p, verdict)) ran

  not_broadcast :
      (p : Packet)
      → p.rx.l25_broadcast ≡ false
      → aodv_forward_broadcast D (o 80) p.msg p.rx d ≡ done (d, [], keep)
  unfolding aodv_forward_broadcast
  not_broadcast p unicast = rw unicast refl

  not_transit :
      (p : Packet)
      → not p.rx.l2_dst || p.rx.l25_dst ≡ true
      → aodv_forward D cfg (o 90) p.msg p.rx d ≡ done (d, [], keep)
  unfolding aodv_forward
  not_transit p other = rw other refl

  data_lem :
      (p : Packet) (d' : Daemon) (outs : List Output)
      → data_handler p d ≡ done (d', outs, drop)
      → runcall (data_callbacks D cfg) o p iface d ≡ done (d', outs, (p, drop))
  unfolding data_callbacks aodv_forward_multicast
  data_lem p d' outs ran = elim (Bool-cases p.rx.l25_broadcast) [
    | inl broadcast ↦ stops 80 _ [] _ o p p iface d d' outs refl (
        handled (aodv_forward_broadcast D (o 80) p.msg p.rx) p drop d' outs
          (ground (arith, broadcast, ran)))
    | inr unicast ↦
        let passed =
          handled (aodv_forward_broadcast D (o 80) p.msg p.rx) p keep d []
            (not_broadcast p unicast) in
        elim (Bool-cases p.rx.l25_multicast) [
          | inl multicast ↦ passes 80 _ _ p p refl passed (
              stops 81 _ [] _ o p p iface d d' outs refl
                (rw multicast (ground (arith, unicast, multicast, ran))))
          | inr single ↦ passes 80 _ _ p p refl passed (
              passes 81 _ _ p p refl (rw single refl)
                (elim (Bool-cases (not p.rx.l2_dst || p.rx.l25_dst)) [
                  | inl here ↦
                      passes 90 _ _ p p refl
                        (handled (aodv_forward D cfg (o 90) p.msg p.rx) p keep d []
                          (not_transit p here))
                        (stops 100 _ [] _ o p p iface d d' outs refl (
                          handled (aodv_local_unicast D (o 100) p.msg p.rx) p drop d' outs
                            (ground (arith, unicast, single, here, ran))))
                  | inr transit ↦ stops 90 _ [] _ o p p iface d d' outs refl (
                      handled (aodv_forward D cfg (o 90) p.msg p.rx) p drop d' outs
                        (ground (arith, unicast, single, transit, ran)))
                ]))
        ]
  ]

  -- If callbacks run in the order of their priorities, a data packet that passes the checks of
  -- libdessert and is not from this host is handled by one callback alone, if the run of that
  -- ends and drops the packet, and the pipeline does what that run does: a broadcast by the
  -- one for broadcasts, a multicast by none, a packet that is for this host, or not sent to
  -- it, by the one for local packets, and any other by the one that forwards.
  pub data_dispatched :
      (p p1 p2 p3 : Packet) (d' : Daemon) (outs : List Output)
      → L.msg_check p iface ≡ (p1, keep)
      → L.msg_ifaceflags p1 iface ≡ (p2, keep)
      → p2.rx.l2_src || p2.rx.l25_src ≡ false
      → IsData p2.msg
      → L.mesh_ipttl p2 iface ≡ (p3, keep)
      → data_handler p3 d ≡ done (d', outs, drop)
      → runcall (mesh_callbacks D L cfg) o p iface d ≡ done (d', outs, (p3, drop))
  data_dispatched p p1 p2 p3 d' outs check flags other plain ipttl ran =
      control_passes p p1 p2 p3 check flags other plain ipttl (data_lem p3 d' outs ran)
