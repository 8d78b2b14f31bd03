-- ===== src/DataSeq/Safety.antt =====
-- What the operations of src/database/data_seq/ds.c keep: no dangling entry in the timeslot, and
-- what was captured.
use des_aodv.Common.{
  ℕ, ◌+◌, ◌^◌, ◌<◌, ◌≡◌, refl, ◌∙◌, subst, Bool, true, false, Option, none, some, List, is_some,
  Option-cases, Bool-cases, inl, inr, arith,
}
use mathlib.Core.Option.{some_inj}
use des_aodv.Dessert.{Dessert, Timeval, Ordered}
use des_aodv.Timeslot.{addobject, create}
use des_aodv.Timeslot.Refine.{IsValid, add_until-IsValid, purgeobjects_refines}
use des_aodv.Table.{
  find, remove, modify, add, at_address, find-add, find-modify_self, is_some-find-modify,
  find-at_address,
}
use des_aodv.Table.Safety.{
  NoDangling, add_until-NoDangling, purgeobjects-NoDangling, add_until-keeps, add-NoDangling,
  modify-NoDangling,
}
use des_aodv.DataSeq.Newer.{is_newer_self}
use des_aodv.DataSeq.{
  DataSeq, PacketId, from_source, ds_entry_create, on_ds_timeout, is_newer, touch,
  aodv_db_ds_capt_data_seq, db_ds_cleanup, db_ds_init,
}

abbrev pub address : PacketId → ℕ
address e = e.self

pub frees :
    (t : Timeval) (o : ℕ) (s : List PacketId)
    → on_ds_timeout t o s ≡ remove (at_address address o) s
unfolding on_ds_timeout
frees t o s = refl

module _ {D : Dessert} (O : Ordered D) where
  open O use {instant}

  pub record IsSafe (ds : DataSeq) : Type 0 where
    pub valid : IsValid O ds.ts
    pub safe : NoDangling O address (λ (s : List PacketId). s) on_ds_timeout frees ds.ts ds.entries

  pub touch-IsSafe :
      (ds : DataSeq) (timestamp : Timeval) (o : ℕ) (memory : Bool) (now : Timeval)
      → IsSafe ds
      → ds.ts.size + 1 < 2 ^ 32
      → is_some (find (at_address address o) ds.entries) ≡ true
      → IsSafe (touch D ds timestamp o memory now)
  unfolding touch addobject
  touch-IsSafe ds timestamp o memory now s room here = record {
    valid =
        add_until-IsValid O on_ds_timeout (D.timevaladd2 ds.ts.purge_timeout timestamp) o now
          ds.entries s.valid memory room;
    safe =
        add_until-NoDangling O address (λ es. es) on_ds_timeout frees ds.ts
          (D.timevaladd2 ds.ts.purge_timeout timestamp) o memory now ds.entries s.valid room s.safe
          here;
  }

  -- A fresh address is that of no entry.
  abbrev pub Fresh : Option ℕ → List PacketId → Type 0
  Fresh none entries = Unit {0}
  Fresh (some a) entries = is_some (find (at_address address a) entries) ≡ false

  added-IsSafe :
      (ds : DataSeq) (e : PacketId)
      → IsSafe ds
      → is_some (find (at_address address e.self) ds.entries) ≡ false
      → IsSafe (record ds { entries = add e ds.entries })
  added-IsSafe ds e s fresh = record {
    valid = s.valid;
    safe =
        (add-NoDangling O address (λ es. es) on_ds_timeout frees ds.ts ds.entries (add e ds.entries)
          e refl fresh s.safe).0;
  }

  modified-IsSafe :
      (ds : DataSeq) (p : PacketId → Bool) (f : PacketId → PacketId)
      → ((e : PacketId) → address (f e) ≡ address e)
      → IsSafe ds
      → IsSafe (record ds { entries = modify p f ds.entries })
  modified-IsSafe ds p f same s = record {
    valid = s.valid;
    safe =
        (modify-NoDangling O address (λ es. es) on_ds_timeout frees ds.ts ds.entries
          (modify p f ds.entries) p f refl same s.safe).0;
  }

  -- On a table with room, and with a fresh address from `malloc` or none, capturing a packet
  -- keeps the table safe: its timeslot is valid and holds addresses of entries only, and no
  -- two entries share an address.
  pub capt_data_seq-IsSafe :
      (ds : DataSeq) (src seq hops : ℕ) (timestamp : Timeval) (malloc : Option ℕ) (memory : Bool)
      (now : Timeval)
      → IsSafe ds
      → ds.ts.size + 1 < 2 ^ 32
      → Fresh malloc ds.entries
      → IsSafe (aodv_db_ds_capt_data_seq D ds src seq hops timestamp malloc memory now).0
  unfolding aodv_db_ds_capt_data_seq ds_entry_create
  capt_data_seq-IsSafe ds src seq hops timestamp malloc memory now s room fresh =
      elim (Option-cases (find (from_source src) ds.entries)) [
        | inl new ↦ new_case malloc fresh new
        | inr (e, old) ↦ elim (Bool-cases (is_newer e.seq_num seq)) [
          | inl newer ↦
              rw (old, aodv_db_ds_capt_data_seq, newer)
                (touch-IsSafe _ timestamp e.self memory now
                  (modified-IsSafe ds (from_source src) (λ x. record x { seq_num = seq })
                    (λ x. refl) s)
                  room
                  (is_some-find-modify (from_source src) (at_address address e.self)
                      (λ x. record x { seq_num = seq }) ds.entries (λ x. refl)
                    ∙ find-at_address address (from_source src) ds.entries e old))
          | inr stale ↦ rw (old, aodv_db_ds_capt_data_seq, stale) s
        ]
      ]
    where
      new_case :
          (m : Option ℕ)
          → Fresh m ds.entries
          → find (from_source src) ds.entries ≡ none
          → IsSafe (aodv_db_ds_capt_data_seq D ds src seq hops timestamp m memory now).0
      new_case none f new = rw (new, aodv_db_ds_capt_data_seq) s
      new_case (some a) f new =
          rw (new, aodv_db_ds_capt_data_seq)
            (touch-IsSafe _ timestamp a memory now
              (added-IsSafe ds (record { self = a; src_addr = src; seq_num = seq }) s f) room
              (ground (
                arith,
                find-add (at_address address a) (record { self = a; src_addr = src; seq_num = seq })
                    ds.entries,
              )))

  pub cleanup-IsSafe : (ds : DataSeq) (t : Timeval) → IsSafe ds → IsSafe (db_ds_cleanup D ds t)
  unfolding db_ds_cleanup
  cleanup-IsSafe ds t s = record {
    valid = (purgeobjects_refines O on_ds_timeout t ds.entries s.valid).0;
    safe =
        purgeobjects-NoDangling O address (λ es. es) on_ds_timeout frees ds.ts t ds.entries s.valid
          s.safe;
  }

  pub init-IsSafe : {ds : DataSeq} → db_ds_init true ≡ some ds → IsSafe ds
  unfolding db_ds_init create
  init-IsSafe e = subst IsSafe (some_inj.0 e) (record {
    valid = record { sorted = tt; distinct = tt; counted = refl; small = omega arith };
    safe = record { apart = tt; owned = λ q h. cc };
  })

  -- what the table holds for a source
  abbrev pub holds : DataSeq → ℕ → Option PacketId
  holds ds src = find (from_source src) ds.entries

  touch-holds :
      (ds : DataSeq) (timestamp : Timeval) (memory : Bool) (now : Timeval) (src : ℕ) (e : PacketId)
      → IsSafe ds
      → ds.ts.size + 1 < 2 ^ 32
      → instant now < instant (D.timevaladd2 ds.ts.purge_timeout timestamp)
      → holds ds src ≡ some e
      → holds (touch D ds timestamp e.self memory now) src ≡ some e
  unfolding touch addobject
  touch-holds ds timestamp memory now src e s room later h =
      add_until-keeps O address (λ es. es) on_ds_timeout frees ds.ts
        (D.timevaladd2 ds.ts.purge_timeout timestamp) e.self memory now ds.entries (from_source src)
        e s.valid room h (ground arith)

  -- After a packet was taken for new, the table holds its number.
  capt-holds :
      (ds : DataSeq) (src seq hops : ℕ) (timestamp : Timeval) (malloc : Option ℕ) (memory : Bool)
      (now : Timeval)
      → IsSafe ds
      → ds.ts.size + 1 < 2 ^ 32
      → Fresh malloc ds.entries
      → instant now < instant (D.timevaladd2 ds.ts.purge_timeout timestamp)
      → let (ds', new) = aodv_db_ds_capt_data_seq D ds src seq hops timestamp malloc memory now in
        new ≡ true → (e : PacketId) × (holds ds' src ≡ some e) × (e.seq_num ≡ seq)
  unfolding aodv_db_ds_capt_data_seq ds_entry_create
  capt-holds ds src seq hops timestamp malloc memory now s room fresh later =
      elim (Option-cases (find (from_source src) ds.entries)) [
        | inl new ↦ new_case malloc fresh new
        | inr (e, old) ↦ elim (Bool-cases (is_newer e.seq_num seq)) [
          | inl newer ↦
              rw (old, aodv_db_ds_capt_data_seq, newer)
                (λ h. (
                  record e { seq_num = seq },
                  touch-holds _ timestamp memory now src (record e { seq_num = seq })
                      (modified-IsSafe ds (from_source src) (λ x. record x { seq_num = seq })
                        (λ x. refl) s)
                      room later
                      (find-modify_self (from_source src) (λ x. record x { seq_num = seq })
                        ds.entries e (λ x. refl) old),
                  refl,
                ))
          | inr stale ↦ rw (old, aodv_db_ds_capt_data_seq, stale) (λ h. cc)
        ]
      ]
    where
      new_case :
          (m : Option ℕ)
          → Fresh m ds.entries
          → find (from_source src) ds.entries ≡ none
          → let (ds', new) = aodv_db_ds_capt_data_seq D ds src seq hops timestamp m memory now in
            new ≡ true → (e : PacketId) × (holds ds' src ≡ some e) × (e.seq_num ≡ seq)
      new_case none f new = rw (new, aodv_db_ds_capt_data_seq) (λ h. cc)
      new_case (some a) f new =
          rw (new, aodv_db_ds_capt_data_seq)
            (λ h. (
              record { self = a; src_addr = src; seq_num = seq },
              touch-holds _ timestamp memory now src _
                  (added-IsSafe ds (record { self = a; src_addr = src; seq_num = seq }) s f) room
                  later
                  (ground (
                    arith,
                    find-add (from_source src) (record { self = a; src_addr = src; seq_num = seq })
                        ds.entries,
                  )),
              refl,
            ))

  -- On a safe table with room, with a fresh address from `malloc` and a clock before the time
  -- at which the entry runs out: if a packet was taken for new, a second copy of it, next and
  -- whatever its other arguments, is dropped and changes nothing.
  pub capt_data_seq_twice :
      (ds : DataSeq) (src seq hops : ℕ) (timestamp : Timeval) (malloc : Option ℕ) (memory : Bool)
      (now : Timeval) (hops' : ℕ) (timestamp' : Timeval) (malloc' : Option ℕ) (memory' : Bool)
      (now' : Timeval)
      → IsSafe ds
      → ds.ts.size + 1 < 2 ^ 32
      → Fresh malloc ds.entries
      → instant now < instant (D.timevaladd2 ds.ts.purge_timeout timestamp)
      → (aodv_db_ds_capt_data_seq D ds src seq hops timestamp malloc memory now).1 ≡ true
      → aodv_db_ds_capt_data_seq D
          (aodv_db_ds_capt_data_seq D ds src seq hops timestamp malloc memory now).0
          src
          seq
          hops'
          timestamp'
          malloc'
          memory'
          now'
        ≡ ((aodv_db_ds_capt_data_seq D ds src seq hops timestamp malloc memory now).0, false)
  unfolding aodv_db_ds_capt_data_seq ds_entry_create
  capt_data_seq_twice ds src seq hops timestamp malloc memory now hops' timestamp' malloc' memory'
        now' s room fresh later new =
      let (e, held, same) =
        capt-holds ds src seq hops timestamp malloc memory now s room fresh later new in
      rw (held, aodv_db_ds_capt_data_seq, same, is_newer_self) refl
