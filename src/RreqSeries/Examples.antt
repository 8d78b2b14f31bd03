-- ===== src/RreqSeries/Examples.antt =====
-- Examples on the series of RREQs of src/pipeline/aodv_pipeline.c.
use des_aodv.Common.{◌≡◌, refl, [], ◌∷◌, arith, some, none, if◌then◌else◌}
use des_aodv.Clock.{clock}
use des_aodv.Table.{Apart}
use des_aodv.PdrTracker.{done}
use des_aodv.Message.{mesh}
use des_aodv.Daemon.{Daemon}
use des_aodv.Daemon.Sample.{settings, oracle, daemon, search, rreq_ext}
use des_aodv.RreqSeries.{address, aodv_send_rreq_real}
use des_aodv.RreqSeries.Life.{series_at, held, sent_msg, next_series, send_rreq_life}
use des_aodv.RreqSeries.Search.{repeats, Searches, search_bounded}

send_rreq_life_example :
    (d' : Daemon) × (aodv_send_rreq_real clock settings oracle search daemon
      ≡ done (
        d',
        (if held clock settings oracle search rreq_ext daemon
            then []
            else mesh none (sent_msg clock settings oracle search rreq_ext daemon) ∷ []),
        tt,
      ))
    × (series_at 3000 d' ≡ (
        if held clock settings oracle search rreq_ext daemon
        then some search
        else next_series clock settings oracle search rreq_ext daemon))
    × Apart address d'.series
send_rreq_life_example =
    send_rreq_life clock settings oracle search rreq_ext daemon refl refl refl (refl, tt)

search_bounded_example :
    Searches clock settings search
      (repeats clock settings (oracle ∷ oracle ∷ oracle ∷ []) 3000 daemon)
search_bounded_example =
    search_bounded clock settings (oracle ∷ oracle ∷ oracle ∷ []) search rreq_ext daemon refl refl
      refl (refl, tt) (omega arith)
