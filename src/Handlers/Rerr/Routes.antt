-- ===== src/Handlers/Rerr/Routes.antt =====
-- The whole of `aodv_handle_rerr` in src/pipeline/aodv_pipeline.c.
use des_aodv.Common.{
  ℕ, zero, suc, sym, Option, ◌≡◌, refl, ap, ◌∙◌, inl, inr, true, none, some, List, [], ◌∷◌, concat,
  take, Bool-cases, Option-cases, arith, if◌then◌else◌,
}
use des_aodv.Config.{max_mesh_ifaces_count}
use des_aodv.PdrTracker.{done}
use des_aodv.RoutingTable.{LinkBreak, RtEntry}
use des_aodv.RoutingTable.Query.{route, invalidate}
use des_aodv.Message.{Output, Msg, RerrExt, mesh, drop, Settings}
use des_aodv.Daemon.{Daemon, Step, pure, ◌>>=◌}
use des_aodv.Daemon.Runs.{run_on}
use des_aodv.RouteError.{hwaddrs}
use des_aodv.Handlers.Rerr.{dest_loop, aodv_handle_rerr}
use des_aodv.Handlers.Rerr.Marks.{ext_loop-concat}
use des_aodv.Handlers.Rerr.Effects.{
  dest_loop_lem, any_hits, after_rerr, affects, affects-invalidate,
}

-- the message with the addresses of our interfaces
abbrev pub with_our_ifaces : Settings → Msg → Msg
with_our_ifaces cfg msg = record msg {
  rerr = some (record { ifaces = hwaddrs (take max_mesh_ifaces_count cfg.meshifs) });
}

-- the state after the loops of the handler
abbrev pub marked_by : Msg → List ℕ → Daemon → Daemon
marked_by msg ifaces d = record d { db = (dest_loop ifaces (concat msg.rerrdl) d.db).0 }

module _ (cfg : Settings) (msg : Msg) where
  -- so many copies of the message, one after the other
  pub handle_copies : ℕ → Step (Unit {0})
  handle_copies zero = pure tt
  handle_copies (suc n) = aodv_handle_rerr cfg msg >>= λ verdict. handle_copies n

  abbrev pub sent_copies : ℕ → List Output
  sent_copies zero = []
  sent_copies (suc n) = mesh none (with_our_ifaces cfg msg) ∷ sent_copies n

module _ (cfg : Settings) (msg : Msg) (ext : RerrExt) (is_rerr : msg.rerr ≡ some ext) where
  handle_rerr_lem :
      (d : Daemon)
      → aodv_handle_rerr cfg msg d
        ≡ done (
          marked_by msg ext.ifaces d,
          (if any_hits ext.ifaces (concat msg.rerrdl) d.db
              then mesh none (with_our_ifaces cfg msg) ∷ []
              else []),
          drop,
        )
  unfolding aodv_handle_rerr
  handle_rerr_lem d =
      let marks = dest_loop_lem ext.ifaces (concat msg.rerrdl) d.db in
      elim (Bool-cases (any_hits ext.ifaces (concat msg.rerrdl) d.db)) [
        | inl some_hit ↦
            rw (is_rerr, ext_loop-concat ext.ifaces msg.rerrdl d.db, some_hit, marks.0 ∙ some_hit)
              refl
        | inr no_hit ↦
            rw (is_rerr, ext_loop-concat ext.ifaces msg.rerrdl d.db, no_hit, marks.0 ∙ no_hit) refl
      ]

  -- If the message has a RERR, the handler drops it, and each route that goes over an
  -- interface of the sender and is not newer than a number that the RERR has for its host
  -- becomes invalid; no other route changes. If there was such a route the message is sent on
  -- over all interfaces, with the addresses of our interfaces, otherwise nothing is sent.
  pub handle_rerr_routes :
      (d : Daemon)
      → (d' : Daemon) × (aodv_handle_rerr cfg msg d
          ≡ done (
            d',
            (if any_hits ext.ifaces (concat msg.rerrdl) d.db
                then mesh none (with_our_ifaces cfg msg) ∷ []
                else []),
            drop,
          ))
        × ((host : ℕ)
            → route d'.db.rt host
              ≡ after_rerr ext.ifaces (concat msg.rerrdl) host (route d.db.rt host))
  handle_rerr_routes d = (
    marked_by msg ext.ifaces d,
    handle_rerr_lem d,
    (dest_loop_lem ext.ifaces (concat msg.rerrdl) d.db).1,
  )

  any_hits-marked :
      (dests : List LinkBreak) (d : Daemon)
      → any_hits ext.ifaces dests (marked_by msg ext.ifaces d).db ≡ any_hits ext.ifaces dests d.db
  any_hits-marked [] d = refl
  any_hits-marked (dest ∷ dests) d =
      let marked = (dest_loop_lem ext.ifaces (concat msg.rerrdl) d.db).1 dest.host in
      elim (Option-cases (route d.db.rt dest.host)) [
        | inl absent ↦ ground (arith, absent, marked, any_hits-marked dests d)
        | inr (e, here) ↦ ground (arith, here, marked, any_hits-marked dests d)
      ]

  -- the message hits a route, and the handler sends it on
  sent_on :
      (d : Daemon)
      → any_hits ext.ifaces (concat msg.rerrdl) d.db ≡ true
      → aodv_handle_rerr cfg msg d ≡ done (marked_by msg ext.ifaces d, sent_copies cfg msg 1, drop)
  sent_on d hit =
      handle_rerr_lem d
      ∙ ap (λ b. done (marked_by msg ext.ifaces d, (if b then sent_copies cfg msg 1 else []), drop))
          hit

  -- each route that it would make invalid is so already
  abbrev IsMarked : Daemon → Type 0
  IsMarked d =
      (host : ℕ)
      → after_rerr ext.ifaces (concat msg.rerrdl) host (route d.db.rt host) ≡ route d.db.rt host

  after_rerr-after_rerr :
      (host : ℕ) (r : Option RtEntry)
      → let once = after_rerr ext.ifaces (concat msg.rerrdl) host r in
        after_rerr ext.ifaces (concat msg.rerrdl) host once ≡ once
  after_rerr-after_rerr host none = refl
  after_rerr-after_rerr host (some e) =
      ground (arith, affects-invalidate ext.ifaces (concat msg.rerrdl) host e)

  marked_by-IsMarked : (d : Daemon) → IsMarked (marked_by msg ext.ifaces d)
  marked_by-IsMarked d host =
      let same = (dest_loop_lem ext.ifaces (concat msg.rerrdl) d.db).1 host in
      ap (after_rerr ext.ifaces (concat msg.rerrdl) host) same
      ∙ after_rerr-after_rerr host (route d.db.rt host)
      ∙ sym same

  copies_lem :
      (n : ℕ) (d : Daemon)
      → any_hits ext.ifaces (concat msg.rerrdl) d.db ≡ true
      → IsMarked d
      → (d' : Daemon) × (handle_copies cfg msg n d ≡ done (d', sent_copies cfg msg n, tt))
        × ((host : ℕ) → route d'.db.rt host ≡ route d.db.rt host)
  unfolding handle_copies
  copies_lem zero d hit marked = (d, refl, λ host. refl)
  copies_lem (suc n) d hit marked =
      let d1 = marked_by msg ext.ifaces d in
      let (d', ran, same) =
        copies_lem n d1 (any_hits-marked (concat msg.rerrdl) d ∙ hit) (marked_by-IsMarked d) in
      (
        d',
        run_on (aodv_handle_rerr cfg msg) (λ verdict. handle_copies cfg msg n) (sent_on d hit) ran,
        λ host.
            same host ∙ (dest_loop_lem ext.ifaces (concat msg.rerrdl) d.db).1 host ∙ marked host,
      )

  -- If the message has a RERR that hits a route, valid or not, it is sent on, and the routes
  -- that it hits are invalid after that. Then any number of further copies of it, one after
  -- the other, change no route, and each of them is sent on again.
  pub handle_rerr_again :
      (n : ℕ) (d : Daemon)
      → any_hits ext.ifaces (concat msg.rerrdl) d.db ≡ true
      → (d1 : Daemon) × (d2 : Daemon) × (aodv_handle_rerr cfg msg d
          ≡ done (d1, sent_copies cfg msg 1, drop))
        × ((host : ℕ) (e : RtEntry)
            → route d.db.rt host ≡ some e
            → affects ext.ifaces (concat msg.rerrdl) host e ≡ true
            → route d1.db.rt host ≡ some (invalidate e))
        × (handle_copies cfg msg n d1 ≡ done (d2, sent_copies cfg msg n, tt))
        × ((host : ℕ) → route d2.db.rt host ≡ route d1.db.rt host)
  handle_rerr_again n d hit =
      let d1 = marked_by msg ext.ifaces d in
      let (d2, ran, same) =
        copies_lem n d1 (any_hits-marked (concat msg.rerrdl) d ∙ hit) (marked_by-IsMarked d) in
      (
        d1,
        d2,
        sent_on d hit,
        λ host e here hits.
            ground (arith, here, hits, (dest_loop_lem ext.ifaces (concat msg.rerrdl) d.db).1 host),
        ran,
        same,
      )
