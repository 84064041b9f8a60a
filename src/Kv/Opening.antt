-- ===== src/Kv/Opening.antt =====
-- kvdb_open of p4/kvdb.c: a new database has no key, and is in order.
use jitcompilation.Prelude.{
  ℕ, suc, ◌+◌, ◌^◌, ◌≤◌, ◌<◌, ◌≡◌, refl, ap, ◌∙◌, Bool, true, false, Option, none, some, List, [],
  ◌∷◌, ◌++◌, arith,
}
use jitcompilation.Index.Table.{lookup, index_lookup}
use jitcompilation.Log.Device.{gives, bind_call, Device, Stat, device_open}
use jitcompilation.Log.Store.{Outside, Logfs}
use jitcompilation.Log.Opening.{IsWhole, opened_log, opened_log-IsLog, opens}
use jitcompilation.Kv.Meta.{meta_len}
use jitcompilation.Kv.Raw.{Kvraw, kvraw_open, with_log}
use jitcompilation.Kv.Records.{IsRaw, Stored, record_bytes, append-Stored}
use jitcompilation.Kv.Chain.{bottom}
use jitcompilation.Kv.Db.{Kvdb}
use jitcompilation.Kv.Restore.{with_index, kvdb_open, kvdb_open_internal}
use jitcompilation.Kv.State.{IsDb}

-- The log of a new database: a record at offset 0, where no chain leads.
abbrev pub first_log : List ℕ
first_log = [] ++ record_bytes (0 ∷ []) (0 ∷ []) 0

-- A new database, on the device that was opened.
pub record Opened (outside : Outside) (fresh : ℕ → Bool) (bytes : List ℕ) (stat : Option Stat)
    (device : Device) : Type 0 where
  pub kvdb : Kvdb
  pub ran : kvdb_open outside true fresh true true bytes stat ≡ gives kvdb
  pub is_db : IsDb kvdb first_log (λ hash. [])
  pub no_size : kvdb.size ≡ 0
  pub no_waste : kvdb.waste ≡ 0
  pub same_device : kvdb.kvraw.logfs.device.size ≡ device.size
  pub same_block : kvdb.kvraw.logfs.device.block ≡ device.block

pub empty_lookup : (key : List ℕ) → index_lookup (record { size = 0; maps = [] }) key ≡ none
unfolding index_lookup lookup
empty_lookup key = refl

module _ (outside : Outside) (works : (n : ℕ) → outside.works n ≡ true) (fresh : ℕ → Bool)
    (all : (n : ℕ) → fresh n ≡ true) (bytes : List ℕ) (stat : Option Stat) (device : Device)
    (there : device_open true true bytes stat ≡ some device) (h : IsWhole device)
    (header : meta_len ≤ device.block) (room : 18 + device.block ≤ device.size)
    (small : device.size < 2 ^ 64) where
  abbrev log_start : Logfs
  log_start =
      opened_log (λ n. fresh (suc (suc n))) (λ n. all (suc (suc n))) bytes stat device there h

  abbrev raw_start : Kvraw
  raw_start = record { size = 0; logfs = log_start }

  raw_start-IsRaw : IsRaw raw_start []
  raw_start-IsRaw = record {
    is_log =
        opened_log-IsLog (λ n. fresh (suc (suc n))) (λ n. all (suc (suc n))) bytes stat device there
          h;
    sized = refl;
  }

  first : Stored outside raw_start (0 ∷ []) (0 ∷ []) 0 []
  first =
      append-Stored outside works raw_start [] (0 ∷ []) (0 ∷ []) 0 raw_start-IsRaw
        (record {
          header = header;
          some_key = omega arith;
          key_len = omega arith;
          val_len = omega arith;
          key_block = h.some_bytes;
          val_block = h.some_bytes;
        })
        (room, small)

  ran_raw : kvraw_open outside (λ n. fresh (suc n)) true bytes stat false ≡ gives first.after
  unfolding kvraw_open
  ran_raw = rw (all 1) (
      ap (with_log outside false)
        (opens (λ n. fresh (suc (suc n))) (λ n. all (suc (suc n))) bytes stat device there h)
      ∙ ap (λ call. bind_call call (λ placed. gives placed.1)) first.ran)

  -- On a device of whole blocks that hold a header, where 32 blocks are a power of two of bytes, of at
  -- most 2^63, that opens and works and has room, with memory, kvdb_open gives a database in order that
  -- has no key, and whose counters are 0.
  pub kvdb_open-Opened : Opened outside fresh bytes stat device
  unfolding kvdb_open kvdb_open_internal
  kvdb_open-Opened = record {
    kvdb = record {
      size = 0;
      waste = 0;
      kvraw = first.after;
      index = record { size = 0; maps = [] };
    };
    ran = rw (all 0) (
        ap
          (λ call.
            bind_call call (λ kvraw.
              with_index outside true false kvraw (some (record { size = 0; maps = [] }))))
          ran_raw);
    is_db = record {
      is_raw = first.is_raw;
      settled = λ j k off e filled. absurd (cc e);
      chains = λ key. rw (empty_lookup key) bottom;
    };
    no_size = refl;
    no_waste = refl;
    same_device = first.same.same_device;
    same_block = first.same.same_block;
  }
