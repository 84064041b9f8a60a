-- ===== src/Kv/Raw.antt =====
-- p4/kvraw.c: records of a key and a value in the log, each with the offset of an older record. A call
-- that fails ends the run: what it leaves in the cache is not followed.
use jitcompilation.Prelude.Bytes.{add_size, sub_size}
use jitcompilation.Prelude.{
  ℕ, suc, ◌+◌, ◌^◌, ◌%◌, Bool, true, false, ◌&&◌, Option, none, some, List, [], ◌∷◌, ◌++◌, length,
  min, ltb, leb, ◌==◌, if◌then◌else◌,
}
use jitcompilation.Log.Device.{Call, stops, fails, hangs, gives, bind_call, Stat}
use jitcompilation.Log.Store.{
  Outside, Logfs, logfs_open, logfs_append, logfs_read, logfs_read_with_flush,
  logfs_set_tail_offset, logfs_wb_avail, logfs_wb_add, logfs_wb_deq,
}
use jitcompilation.Kv.Meta.{Meta, meta_len, meta_bytes, meta_of}

-- `struct kvraw`
pub record Kvraw : Type 0 where
  pub size : ℕ
  pub logfs : Logfs

-- What kvraw_lookup stores through its pointers.
pub record FoundRecord : Type 0 where
  pub key : List ℕ
  pub val : List ℕ
  pub key_len : ℕ
  pub val_len : ℕ
  pub off : ℕ

-- `struct kvraw_visitor_t`
pub record Visitor : Type 0 where
  pub offset : ℕ
  pub next_offset : ℕ
  pub key : List ℕ
  pub key_len : ℕ
  pub val_len : ℕ
  pub valid : Bool

-- 'K' and 'V'
abbrev pub is_marked : Meta → Bool
is_marked meta = (meta.mark.0 == 75) && (meta.mark.1 == 86)

-- KEY_OFF and VAL_OFF
abbrev pub key_off : ℕ → ℕ
key_off off = add_size off meta_len

abbrev pub val_off : ℕ → Meta → ℕ
val_off off meta = add_size (add_size off meta_len) meta.key_len

abbrev pub record_end : ℕ → Meta → ℕ
record_end off meta = add_size (val_off off meta) meta.val_len

-- The tests on what was read.
abbrev pub check_meta : Kvraw → ℕ → Meta → Call (Meta × Kvraw)
check_meta kvraw off meta =
    if is_marked meta
    then if ltb kvraw.size (record_end off meta) then fails else gives (meta, kvraw)
    else fails

abbrev pub new_meta : List ℕ → List ℕ → ℕ → Meta
new_meta key val off = record {
  mark = (75, 86);
  off = off;
  key_len = length key % 2 ^ 16;
  val_len = length val % 2 ^ 32;
}

abbrev pub is_storable : List ℕ → List ℕ → Bool
is_storable key val =
    if length key == 0
    then false
    else if leb (length key) 65535
    then leb (length val) 4294967295
    else false

abbrev pub grown_by : ℕ → ℕ → Kvraw → ℕ × Kvraw
grown_by off len kvraw = (off, record kvraw { size = add_size off len })

-- A block that has come together in the buffer counts as written.
abbrev pub settle_block : Kvraw → Call Kvraw
settle_block kvraw =
    if leb 4096 (logfs_wb_avail kvraw.logfs)
    then bind_call (logfs_wb_deq kvraw.logfs)
        (λ logfs. gives (record kvraw { logfs = logfs_set_tail_offset logfs 4096 }))
    else gives kvraw

abbrev pub add_len : Kvraw → ℕ → Kvraw
add_len kvraw len = record kvraw { size = add_size kvraw.size len }

module _ (outside : Outside) where
  -- A read from the log, with the log after it.
  abbrev pub read_raw : Kvraw → ℕ → ℕ → Call (List ℕ × Kvraw)
  read_raw kvraw off len =
      bind_call (logfs_read outside kvraw.logfs off len)
        (λ found. gives (found.0, record kvraw { logfs = found.1 }))

  abbrev pub append_raw : Kvraw → List ℕ → Call Kvraw
  append_raw kvraw buf =
      bind_call (logfs_append outside kvraw.logfs buf)
        (λ logfs. gives (record kvraw { logfs = logfs }))

  unfoldable pub read_meta : Kvraw → ℕ → Call (Meta × Kvraw)
  read_meta kvraw off =
      if ltb kvraw.size (add_size off meta_len)
      then fails
      else bind_call (read_raw kvraw off meta_len)
          (λ found. check_meta found.1 off (meta_of found.0))

  abbrev pub read_val : ℕ → ℕ → Meta → List ℕ × Kvraw → Call (FoundRecord × Kvraw)
  read_val off val_room meta found =
      bind_call (read_raw found.1 (val_off off meta) (min meta.val_len val_room)) (λ found'. gives (
        record {
          key = found.0;
          val = found'.0;
          key_len = meta.key_len;
          val_len = meta.val_len;
          off = meta.off;
        },
        found'.1,
      ))

  abbrev pub read_key : ℕ → ℕ → ℕ → Meta × Kvraw → Call (FoundRecord × Kvraw)
  read_key off key_room val_room head =
      bind_call (read_raw head.1 (key_off off) (min head.0.key_len key_room))
        (read_val off val_room head.0)

  -- `key_room` and `val_room` are the lengths passed in.
  unfoldable pub kvraw_lookup : Kvraw → ℕ → ℕ → ℕ → Call (FoundRecord × Kvraw)
  kvraw_lookup kvraw off key_room val_room =
      if off == 0 then stops else bind_call (read_meta kvraw off) (read_key off key_room val_room)

  -- The offset of the new record, which is stored where `off` was read.
  unfoldable pub kvraw_append : Kvraw → List ℕ → List ℕ → ℕ → Call (ℕ × Kvraw)
  kvraw_append kvraw key val off =
      if is_storable key val
      then bind_call (append_raw kvraw (meta_bytes (new_meta key val off))) (λ kvraw'.
        bind_call (append_raw kvraw' key) (λ kvraw''.
          bind_call (append_raw kvraw'' val) (λ kvraw'''.
            gives (grown_by kvraw.size (meta_len + length key + length val) kvraw'''))))
      else stops

  -- A first record at offset 0, where no chain leads.
  abbrev pub first_record : Bool → Kvraw → Call Kvraw
  first_record true kvraw = gives kvraw
  first_record false kvraw =
      bind_call (kvraw_append kvraw (0 ∷ []) (0 ∷ []) 0) (λ placed. gives placed.1)

  abbrev pub with_log : Bool → Call Logfs → Call Kvraw
  with_log restore call =
      bind_call call (λ logfs. first_record restore (record { size = 0; logfs = logfs }))

  -- `fails` is NULL.
  unfoldable pub kvraw_open : (ℕ → Bool) → Bool → List ℕ → Option Stat → Bool → Call Kvraw
  kvraw_open fresh opens bytes stat restore =
      if fresh 0 then with_log restore (logfs_open (λ n. fresh (suc n)) opens bytes stat) else fails

  -- A read that does not flush first.
  abbrev pub read_kept : Kvraw → ℕ → ℕ → Call (List ℕ × Kvraw)
  read_kept kvraw off len =
      bind_call (logfs_read_with_flush outside kvraw.logfs off len false)
        (λ found. gives (found.0, record kvraw { logfs = found.1 }))

  -- `none` is the status -2, the end of the log.
  unfoldable pub read_meta2 : Kvraw → ℕ → Call (Option Meta × Kvraw)
  read_meta2 kvraw off =
      if ltb kvraw.size (add_size off meta_len)
      then fails
      else bind_call (read_kept kvraw off meta_len) (λ found.
        gives ((if is_marked (meta_of found.0) then some (meta_of found.0) else none), found.1))

  -- The key and the value are read, and the whole record is put into the write buffer again.
  unfoldable pub reload : Kvraw → ℕ → Meta → Call (List ℕ × Kvraw)
  reload kvraw off meta = bind_call (read_kept kvraw (key_off off) meta.key_len) (λ key.
      bind_call (read_kept key.1 (val_off off meta) meta.val_len) (λ val.
        bind_call
          (settle_block (record val.1 {
            logfs = logfs_wb_add val.1.logfs (meta_bytes meta ++ (key.0 ++ val.0));
          }))
          (λ kvraw'. gives (key.0, kvraw'))))

  -- A header that is none ends the visit; EXIT if it cannot be read.
  abbrev pub visit : Visitor → Call (Option Meta × Kvraw) → Call (Visitor × Kvraw)
  visit v stops = stops
  visit v hangs = hangs
  visit v fails = stops
  visit v (gives (none, kvraw)) =
      gives (record v { valid = false }, record kvraw { size = sub_size kvraw.size meta_len })
  visit v (gives (some meta, kvraw)) =
      bind_call (reload (add_len kvraw (meta.key_len + meta.val_len)) v.next_offset meta) (λ found.
        gives (
          record {
            offset = v.next_offset;
            next_offset = record_end v.next_offset meta;
            key = found.0;
            key_len = meta.key_len;
            val_len = meta.val_len;
            valid = v.valid;
          },
          found.1,
        ))

  unfoldable pub kvraw_visitor_next : Kvraw → Visitor → Call (Visitor × Kvraw)
  kvraw_visitor_next kvr v = visit v (read_meta2 (add_len kvr meta_len) v.next_offset)

  -- `rv` is not set, so that the status -2 ends the program as well.
  abbrev pub start_visit : Call (Option Meta × Kvraw) → Call (Visitor × Kvraw)
  start_visit stops = stops
  start_visit hangs = hangs
  start_visit fails = stops
  start_visit (gives (none, kvraw)) = stops
  start_visit (gives (some meta, kvraw)) =
      bind_call (reload (add_len kvraw (meta.key_len + meta.val_len)) 0 meta) (λ found.
        kvraw_visitor_next found.1 (record {
          offset = 0;
          next_offset = record_end 0 meta;
          key = [];
          key_len = 0;
          val_len = 0;
          valid = true;
        }))

  unfoldable pub kvraw_visitor_init : Kvraw → Call (Visitor × Kvraw)
  kvraw_visitor_init kvr = start_visit (read_meta2 (add_len kvr meta_len) 0)
