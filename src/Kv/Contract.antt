-- ===== src/Kv/Contract.antt =====
-- kvdb_lookup of p4/kvdb.c against the lists of records that the chains stand for.
use jitcompilation.Prelude.{ℕ, zero, suc, ◌≡◌, refl, sym, ap, true, Option, none, some, List, []}
use jitcompilation.Index.Hash.{key_of}
use jitcompilation.Index.Table.{index_lookup}
use jitcompilation.Index.Reference.{offset_of}
use jitcompilation.Log.Device.{gives, bind_call}
use jitcompilation.Log.Store.{Outside}
use jitcompilation.Log.Writes.{SameSizes}
use jitcompilation.Kv.Chain.{Entry, Chain, end_of, Roomy, chain_lookup-Searched}
use jitcompilation.Kv.Db.{
  Kvdb, Reply, invalid, found_reply, is_key, looked_up, from_ref, kvdb_lookup,
}
use jitcompilation.Kv.State.{IsDb, Chain-zero}

-- A search through the database.
pub record Answered (outside : Outside) (kvdb : Kvdb) (log : List ℕ) (entries : ℕ → List Entry)
    (key : List ℕ) (val_room : ℕ) : Type 0 where
  pub after : Kvdb
  pub ran :
      kvdb_lookup outside true kvdb key (some val_room)
      ≡ gives (found_reply (end_of key val_room (entries (key_of key))), after)
  pub is_db : IsDb after log entries
  pub same : SameSizes kvdb.kvraw.logfs after.kvraw.logfs

module _ (outside : Outside) (works : (n : ℕ) → outside.works n ≡ true) (kvdb : Kvdb) (log : List ℕ)
    (entries : ℕ → List Entry) (h : IsDb kvdb log entries) (room : Roomy kvdb.kvraw log)
    (key : List ℕ) (val_room : ℕ) where
  abbrev wanted : Reply
  wanted = found_reply (end_of key val_room (entries (key_of key)))

  abbrev Reached : Option ℕ → Type 0
  Reached ref =
      (after : Kvdb) × (from_ref outside true kvdb key (some val_room) ref ≡ gives (wanted, after))
      × IsDb after log entries
      × SameSizes kvdb.kvraw.logfs after.kvraw.logfs

  no_record : entries (key_of key) ≡ [] → wanted ≡ invalid
  no_record e = rw e refl

  same_sizes : SameSizes kvdb.kvraw.logfs kvdb.kvraw.logfs
  same_sizes = record { same_device = refl; same_block = refl; same_ring = refl }

  from_ref-Reached :
      (ref : Option ℕ) → Chain log (offset_of ref) (entries (key_of key)) → Reached ref
  from_ref-Reached none chain =
      (kvdb, ap (λ r. gives (r, kvdb)) (sym (no_record (Chain-zero chain refl))), h, same_sizes)
  from_ref-Reached (some zero) chain =
      (kvdb, ap (λ r. gives (r, kvdb)) (sym (no_record (Chain-zero chain refl))), h, same_sizes)
  from_ref-Reached (some (suc off)) chain =
      let s = chain_lookup-Searched outside works log key val_room chain kvdb.kvraw h.is_raw room in
      (
        record kvdb { kvraw = s.after },
        ap (λ call. bind_call call (λ found. looked_up (some val_room) kvdb found)) s.result,
        record { is_raw = s.is_raw; settled = h.settled; chains = h.chains },
        s.same,
      )

  pub kvdb_lookup-Answered : is_key key ≡ true → Answered outside kvdb log entries key val_room
  unfolding kvdb_lookup
  kvdb_lookup-Answered named =
      let found = from_ref-Reached (index_lookup kvdb.index key) (h.chains key) in
      record { after = found.0; ran = rw named found.1; is_db = found.2; same = found.3 }
