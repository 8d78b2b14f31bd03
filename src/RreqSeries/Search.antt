-- ===== src/RreqSeries/Search.antt =====
-- How often a series of src/pipeline/aodv_pipeline.c sends its RREQ.
use des_aodv.Common.{
  ℕ, ◌≡◌, ◌≤◌, ◌⊎◌, refl, ap, inl, inr, zero, suc, ◌+◌, ◌%◌, ◌^◌, Bool, true, false, none, some,
  List, [], ◌∷◌, ◌++◌, map, length, leb, Bool-cases, arith, if◌then◌else◌,
}
use des_aodv.Config.{rreq_retries}
use des_aodv.Dessert.{Dessert}
use des_aodv.Table.{Apart}
use des_aodv.PdrTracker.{Outcome, done}
use des_aodv.Message.{RreqExt, Output, mesh, sys, Settings, Oracle}
use des_aodv.Daemon.{Series, Daemon, Step, pure, gets, ◌>>=◌, ◌>>◌}
use des_aodv.RreqSeries.{address, next_ttl, aodv_send_rreq_real, aodv_send_rreq_repeat}
use des_aodv.RreqSeries.Life.{next_series, series_at, held, scheduled, sent_msg, send_rreq_life}

abbrev pub ttl_of : Output → ℕ
ttl_of (mesh iface msg) = msg.ttl
ttl_of (sys msg) = msg.ttl

-- the TTLs of so many RREQs
abbrev pub ring : Bool → ℕ → ℕ → List ℕ
ring ring_search zero ttl = []
ring ring_search (suc n) ttl = ttl ∷ ring ring_search n (next_ttl ring_search ttl)

module _ (D : Dessert) (cfg : Settings) where
  -- The schedules of a series are executed one after the other, as long as the series is live; each
  -- has its own clock and memory.
  abbrev pub repeats : List Oracle → ℕ → Step (Unit {0})
  repeats [] a = pure tt
  repeats (o ∷ os) a = do
    found ← gets (series_at a)
    elim found [
      | none ↦ pure tt
      | some s ↦ if s.stop then pure tt else (do aodv_send_rreq_repeat D cfg o a; repeats os a)
    ]

  -- No live series is at the address.
  abbrev IsOver : ℕ → Daemon → Type 0
  IsOver a d = (series_at a d ≡ none) ⊎ ((s : Series) × (series_at a d ≡ some s) × (s.stop ≡ true))

  last-IsOver :
      (o : Oracle) (s : Series) (ext : RreqExt) (d d1 : Daemon)
      → series_at s.self d1 ≡ (if held D cfg o s ext d then some s else next_series D cfg o s ext d)
      → held D cfg o s ext d ≡ false
      → leb rreq_retries s.retries ≡ true
      → IsOver s.self d1
  last-IsOver o s ext d d1 after_series allowed final =
      elim (Bool-cases (scheduled D cfg o s ext d)) [
        | inl dropped ↦ inl (ground (arith, after_series, allowed, final, dropped))
        | inr kept ↦ inr (
          record s { msg = sent_msg D cfg o s ext d; stop = true },
          ground (arith, after_series, allowed, final, kept),
          refl,
        )
      ]

  repeats_over :
      (os : List Oracle) (a : ℕ) (d : Daemon) → IsOver a d → repeats os a d ≡ done (d, [], tt)
  repeats_over [] a d over = refl
  repeats_over (o ∷ os) a d (inl absent) = ground (arith, absent)
  repeats_over (o ∷ os) a d (inr (s, here, stopped)) = ground (arith, here, stopped)

  repeats_live :
      (o : Oracle) (os : List Oracle) (s : Series) (d d1 d2 : Daemon) (outs1 outs2 : List Output)
      → series_at s.self d ≡ some s
      → s.stop ≡ false
      → aodv_send_rreq_real D cfg o s d ≡ done (d1, outs1, tt)
      → repeats os s.self d1 ≡ done (d2, outs2, tt)
      → repeats (o ∷ os) s.self d ≡ done (d2, outs1 ++ outs2, tt)
  unfolding aodv_send_rreq_repeat
  repeats_live o os s d d1 d2 outs1 outs2 here live first rest =
      ground (arith, here, live, first, rest)

  -- The run sends at most so many messages as there are tries left, with the TTLs of the ring.
  abbrev pub Searches : Series → Outcome (Daemon × List Output × Unit {0}) → Type 0
  Searches s r =
      (d' : Daemon) × (outs : List Output) × (r ≡ done (d', outs, tt))
      × (length outs + s.retries ≤ rreq_retries + 1)
      × (map ttl_of outs ≡ ring cfg.ring_search (length outs) s.msg.ttl)

  -- If no two series share an address, a live series that has not used up its tries, and of
  -- which all schedules are executed one after the other, as long as it is live, sends at most
  -- one RREQ for each try that is left, the last included; no run fails. The TTLs of these
  -- RREQs are that of the series and those that the expanding ring search makes of it one
  -- after the other.
  pub search_bounded :
      (os : List Oracle) (s : Series) (ext : RreqExt) (d : Daemon)
      → s.msg.rreq ≡ some ext
      → series_at s.self d ≡ some s
      → s.stop ≡ false
      → Apart address d.series
      → s.retries ≤ rreq_retries
      → Searches s (repeats os s.self d)
  search_bounded [] s ext d is_rreq here live apart tries = (d, [], refl, omega arith, refl)
  search_bounded (o ∷ os) s ext d is_rreq here live apart tries =
      let (d1, ran, after_series, apart1) =
        send_rreq_life D cfg o s ext d is_rreq here live apart in
      elim (Bool-cases (held D cfg o s ext d)) [
        | inl too_many ↦
            let (d2, outs, rest, few, ttls) =
              search_bounded os s ext d1 is_rreq (ground (arith, after_series, too_many)) live
                apart1 tries in
            (
              d2,
              outs,
              repeats_live o os s d d1 d2 [] outs here live (ground (arith, ran, too_many)) rest,
              few,
              ttls,
            )
        | inr allowed ↦ elim (Bool-cases (leb rreq_retries s.retries)) [
          | inl final ↦ (
            d1,
            mesh none (sent_msg D cfg o s ext d) ∷ [],
            repeats_live o os s d d1 d1 (mesh none (sent_msg D cfg o s ext d) ∷ []) [] here live
                (ground (arith, ran, allowed))
                (repeats_over os s.self d1 (last-IsOver o s ext d d1 after_series allowed final)),
            omega (arith, tries),
            refl,
          )
          | inr again ↦
              let s' : Series = record s {
                msg = record (sent_msg D cfg o s ext d) {
                  ttl = next_ttl cfg.ring_search s.msg.ttl;
                };
                retries = s.retries + 1;
              } in
              let (d2, outs, rest, few, ttls) =
                search_bounded os s'
                  (record ext { originator_sequence_number = (d.seq_num_global + 1) % 2 ^ 32 }) d1
                  refl (ground (arith, after_series, allowed, again)) live apart1
                  (ground (arith, again)) in
              (
                d2,
                mesh none (sent_msg D cfg o s ext d) ∷ outs,
                repeats_live o os s d d1 d2 (mesh none (sent_msg D cfg o s ext d) ∷ []) outs here
                    live (ground (arith, ran, allowed)) rest,
                omega (arith, few),
                ap (λ l. s.msg.ttl ∷ l) ttls,
              )
        ]
      ]
