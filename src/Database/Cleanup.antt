-- ===== src/Database/Cleanup.antt =====
-- The cleanup of all tables together, in src/database/aodv_database.c.
use des_aodv.Common.{ℕ, ◌≡◌, refl, List}
use des_aodv.Dessert.{Dessert, Timeval, Ordered}
use des_aodv.Timeslot.Refine.{IsValid, purgeobjects_refines}
use des_aodv.Table.{remove, at_address}
use des_aodv.Table.Safety.{NoDangling, purgeobjects-NoDangling}
use des_aodv.NeighborTable.{on_neighbor_timeout, db_nt_cleanup}
use des_aodv.NeighborTable
use des_aodv.NeighborTable.Safety as NeighborSafety
use des_aodv.DataSeq.Safety as DataSafety
use des_aodv.RoutingTable
use des_aodv.RoutingTable.{purge_rt_entry}
use des_aodv.RoutingTable.Query.{aodv_db_rt_cleanup}
use des_aodv.RoutingTable.Capture
use des_aodv.PacketBuffer.{PbEl, purge_packets, pb_cleanup}
use des_aodv.Message.{Msg, Oracle}
use des_aodv.Database.{Db, aodv_db_cleanup}

abbrev pub element_address : PbEl Msg → ℕ
element_address e = e.self

abbrev pub same_list : List (PbEl Msg) → List (PbEl Msg)
same_list es = es

pub frees :
    (t : Timeval) (o : ℕ) (es : List (PbEl Msg))
    → purge_packets Msg t o es ≡ remove (at_address element_address o) es
unfolding purge_packets
frees t o es = refl

module _ {D : Dessert} (O : Ordered D) (o : Oracle) where
  -- The timeslots of the neighbors, the data packets, the routes and the buffered packets are
  -- valid, and each of their objects is an entry that is not freed.
  pub record TablesAreSafe (db : Db) : Type 0 where
    pub nt : NeighborSafety.IsSafe O o.sc_memory db.nt
    pub ds : DataSafety.IsSafe O db.ds
    pub rt : Capture.IsSafe O db.rt
    pub pb_valid : IsValid O db.pb.ts
    pub pb : NoDangling O element_address same_list (purge_packets Msg) frees db.pb.ts db.pb.entries

  -- A cleanup at any time keeps the tables safe: the timeslots of the neighbors, the data
  -- packets, the routes and the buffered packets stay valid, and each of their objects is an
  -- entry that is not freed.
  pub cleanup-TablesAreSafe :
      (db : Db) (t : Timeval) → TablesAreSafe db → TablesAreSafe (aodv_db_cleanup D db o t)
  unfolding aodv_db_cleanup db_nt_cleanup aodv_db_rt_cleanup pb_cleanup
  cleanup-TablesAreSafe db t s = record {
    nt = record {
      valid =
          (purgeobjects_refines O (on_neighbor_timeout D o.sc_memory) t db.nt.state s.nt.valid).0;
      safe =
          purgeobjects-NoDangling O NeighborTable.address NeighborSafety.entries
            (on_neighbor_timeout D o.sc_memory) (NeighborSafety.frees O o.sc_memory) db.nt.ts t
            db.nt.state s.nt.valid s.nt.safe;
    };
    ds = DataSafety.cleanup-IsSafe O db.ds t s.ds;
    rt = record {
      valid = (purgeobjects_refines O purge_rt_entry t db.rt.routes s.rt.valid).0;
      safe =
          purgeobjects-NoDangling O RoutingTable.address Capture.entries purge_rt_entry
            Capture.frees db.rt.ts t db.rt.routes s.rt.valid s.rt.safe;
    };
    pb_valid = (purgeobjects_refines O (purge_packets Msg) t db.pb.entries s.pb_valid).0;
    pb =
        purgeobjects-NoDangling O element_address same_list (purge_packets Msg) frees db.pb.ts t
          db.pb.entries s.pb_valid s.pb;
  }
