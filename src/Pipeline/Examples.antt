-- ===== src/Pipeline/Examples.antt =====
-- Examples on the pipeline of src/aodv.c.
use des_aodv.Common.{
  ℕ, ◌≡◌, ◌∙◌, refl, ap, true, false, List, [], ◌∷◌, ◌++◌, ltb, if◌then◌else◌, arith,
}
use mathlib.Core.List.{append-nil}
use des_aodv.Clock.{clock}
use des_aodv.Timeslot.{purgeobjects, purge_loop}
use des_aodv.NeighborTable.{db_nt_check2_dneigh, db_nt_cleanup}
use des_aodv.PdrTracker.{Outcome, done, fault}
use des_aodv.Database.Neighbors.{aodv_db_check2_dneigh}
use des_aodv.DataSeq.{aodv_db_ds_capt_data_seq, ds_entry_create}
use des_aodv.Database.{aodv_db_capt_data_seq}
use des_aodv.Message.{after, Msg, Verdict, keep, drop, needmsgproc, Oracle, MeshIface, Output, sys}
use des_aodv.Daemon.{Daemon, Step, pure, and_then, ◌>>=◌}
use des_aodv.Daemon.Sample.{settings, oracle, daemon, rreq_msg, data_packet, flags_of, interface}
use des_aodv.Forward.{aodv_local_unicast, take_packet}
use des_aodv.Pipeline.{Packet, Callbacks, Callback, mesh_callbacks}
use des_aodv.Pipeline.Dispatch.{Runner, InOrder, is_first, stranger_dropped, data_dispatched}

-- what follows a callback
abbrev go_on : Step (Packet × Verdict) → Packet × Verdict → Step (Packet × Verdict)
go_on rest (p, keep) = rest
go_on rest (p, drop) = pure (p, drop)
go_on rest (p, needmsgproc) = pure (p, needmsgproc)

-- the callbacks one after the other, until one does not keep the message
run_sorted : Runner
run_sorted [] o p iface = pure (p, keep)
run_sorted ((n, cb) ∷ cbs) o p iface =
    ◌>>=◌ {B = Packet × Verdict} (cb (o n) p iface) (λ r. go_on (run_sorted cbs o r.0 iface) r)

-- before the first callback of which the priority is not less
abbrev enqueue : ℕ × Callback → List (ℕ × Callback) → List (ℕ × Callback)
enqueue cb [] = cb ∷ []
enqueue cb (c ∷ cbs) = if ltb c.0 cb.0 then c ∷ enqueue cb cbs else cb ∷ c ∷ cbs

abbrev sort : List (ℕ × Callback) → List (ℕ × Callback)
sort [] = []
sort (cb ∷ cbs) = enqueue cb (sort cbs)

is_first-enqueue :
    (n : ℕ) (cb : ℕ × Callback) (cbs : List (ℕ × Callback))
    → ltb n cb.0 ≡ true
    → is_first n cbs ≡ true
    → is_first n (enqueue cb cbs) ≡ true
is_first-enqueue n cb [] less first = ground (arith, less)
is_first-enqueue n cb (c ∷ cbs) less first =
    ground (arith, less, first, is_first-enqueue n cb cbs less)

is_first-sort :
    (n : ℕ) (cbs : List (ℕ × Callback)) → is_first n cbs ≡ true → is_first n (sort cbs) ≡ true
is_first-sort n [] first = refl
is_first-sort n (cb ∷ cbs) first =
    ground (arith, first, is_first-sort n cbs, is_first-enqueue n cb (sort cbs))

enqueue-first :
    (n : ℕ) (cb : Callback) (cbs : List (ℕ × Callback))
    → is_first n cbs ≡ true
    → enqueue (n, cb) cbs ≡ (n, cb) ∷ cbs
enqueue-first n cb [] first = refl
enqueue-first n cb (c ∷ cbs) first = ground (arith, first)

sort-first :
    (n : ℕ) (cb : Callback) (before after : List (ℕ × Callback))
    → is_first n (before ++ after) ≡ true
    → sort (before ++ (n, cb) ∷ after) ≡ (n, cb) ∷ sort (before ++ after)
sort-first n cb [] after first = enqueue-first n cb (sort after) (is_first-sort n after first)
sort-first n cb (c ∷ before) after first =
    let rest = sort-first n cb before after (ground (arith, first)) in
    ap (enqueue c) rest ∙ ground (arith, first)

-- the callbacks in the order of their priorities
abbrev run_callbacks : Runner
run_callbacks cbs = run_sorted (sort cbs)

-- a run of a callback that is continued
abbrev continued :
    List (ℕ × Callback)
    → (ℕ → Oracle)
    → MeshIface
    → Outcome (Daemon × List Output × (Packet × Verdict))
    → Outcome (Daemon × List Output × (Packet × Verdict))
continued cbs o iface (done x) = and_then x (λ r. go_on (run_sorted cbs o r.0 iface) r)
continued cbs o iface fault = fault

run_callbacks_next :
    (n : ℕ) (cb : Callback) (before after : List (ℕ × Callback)) (o : ℕ → Oracle) (p : Packet)
    (iface : MeshIface) (d : Daemon)
    → is_first n (before ++ after) ≡ true
    → run_callbacks (before ++ (n, cb) ∷ after) o p iface d
      ≡ continued (sort (before ++ after)) o iface (cb (o n) p iface d)
unfolding run_sorted
run_callbacks_next n cb before after o p iface d first =
    ap (λ cbs. run_sorted cbs o p iface d) (sort-first n cb before after first)

run_callbacks-InOrder : InOrder run_callbacks
run_callbacks-InOrder = record {
  goes_on = λ n cb before after o p p' iface d d' outs first ran.
      run_callbacks_next n cb before after o p iface d first
      ∙ ap (continued (sort (before ++ after)) o iface) ran;
  stops = λ n cb before after o p p' iface d d' outs first ran.
      run_callbacks_next n cb before after o p iface d first
      ∙ ap (continued (sort (before ++ after)) o iface) ran
      ∙ ap (λ l. done (d', l, (p', drop))) (append-nil outs);
}

-- libdessert lets every message through, and finds it to be for this host.
abbrev pub callbacks : Callbacks
callbacks = record {
  msg_check = λ p iface. (p, keep);
  msg_ifaceflags = λ p iface. (record p { rx = flags_of false true }, keep);
  mesh_ipttl = λ p iface. (p, keep);
}

abbrev packet : Msg → Packet
packet msg = record { msg = msg; rx = flags_of false true }

-- No HELLO of host 21 was heard.
stranger_dropped_example :
    run_callbacks
      (mesh_callbacks clock callbacks settings)
      (λ n. oracle)
      (packet rreq_msg)
      interface
      daemon
    ≡ done (
      record daemon { db = (aodv_db_check2_dneigh clock daemon.db oracle 21 1 (oracle.now 0)).0 },
      [],
      (packet rreq_msg, drop),
    )
unfolding aodv_db_check2_dneigh db_nt_check2_dneigh db_nt_cleanup purgeobjects purge_loop
stranger_dropped_example =
    stranger_dropped clock callbacks settings run_callbacks run_callbacks-InOrder (λ n. oracle)
      interface daemon (packet rreq_msg) (packet rreq_msg) (packet rreq_msg) refl refl refl refl
      refl

-- a packet of host 9 for this host
abbrev arriving : Msg
arriving = record (data_packet 1) { l25_shost = 9; l25_dhost = 5; u16 = 4; ttl = 9 }

abbrev delivered : Daemon
delivered = record daemon {
  db = (aodv_db_capt_data_seq clock daemon.db (after 1 oracle) 9 4 1 (oracle.now 0)).0;
}

data_dispatched_example :
    run_callbacks
      (mesh_callbacks clock callbacks settings)
      (λ n. oracle)
      (packet arriving)
      interface
      daemon
    ≡ done (delivered, sys (record arriving { ttl = 8; u8 = 1 }) ∷ [], (packet arriving, drop))
unfolding aodv_local_unicast take_packet aodv_db_capt_data_seq aodv_db_ds_capt_data_seq
    ds_entry_create
data_dispatched_example =
    data_dispatched clock callbacks settings run_callbacks run_callbacks-InOrder (λ n. oracle)
      interface daemon (packet arriving) (packet arriving) (packet arriving) (packet arriving)
      delivered (sys (record arriving { ttl = 8; u8 = 1 }) ∷ []) refl refl refl
      (record { rreq = refl; rrep = refl; rerr = refl; hello = refl }) refl refl
