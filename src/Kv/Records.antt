-- ===== src/Kv/Records.antt =====
-- kvraw_append and kvraw_lookup of p4/kvraw.c: a record that was appended is found at its offset.
use jitcompilation.Prelude.Bytes.{add_size}
use jitcompilation.Prelude.{
  ℕ, ◌+◌, ◌^◌, ◌≤◌, ◌<◌, ◌≡◌, refl, ap, ◌∙◌, subst, true, false, List, ◌++◌, length, length-append,
  append_assoc, leb, ◌==◌, arith,
}
use native.Mathlib.Nat.{mod-eq_of_lt}
use jitcompilation.Log.Device.{gives, bind_call}
use jitcompilation.Log.Store.{Outside, Logfs}
use jitcompilation.Log.Writes.{SameSizes, IsLog, append-Appends}
use jitcompilation.Kv.Meta.{meta_len, meta_bytes, length-meta_bytes}
use jitcompilation.Kv.Raw.{Kvraw, append_raw, new_meta, is_storable, kvraw_append}

-- The log and the count of its bytes.
pub record IsRaw (kvraw : Kvraw) (log : List ℕ) : Type 0 where
  pub is_log : IsLog kvraw.logfs log
  pub sized : kvraw.size ≡ length log

abbrev pub record_bytes : List ℕ → List ℕ → ℕ → List ℕ
record_bytes key val off = meta_bytes (new_meta key val off) ++ (key ++ val)

-- A key and a value that the program takes, and that the blocks of the device take.
pub record Storable (blk : ℕ) (key val : List ℕ) : Type 0 where
  pub header : meta_len ≤ blk
  pub some_key : 0 < length key
  pub key_len : length key < 2 ^ 16
  pub val_len : length val < 2 ^ 32
  pub key_block : length key ≤ blk
  pub val_block : length val ≤ blk

abbrev pub RoomFor : Kvraw → ℕ → Type 0
RoomFor kvraw n =
    (n + kvraw.logfs.device.block ≤ kvraw.logfs.device.size) × (kvraw.logfs.device.size < 2 ^ 64)

-- The log grows by some bytes.
record Grown (outside : Outside) (kvraw : Kvraw) (buf log : List ℕ) : Type 0 where
  pub logfs : Logfs
  pub ran : append_raw outside kvraw buf ≡ gives (record kvraw { logfs = logfs })
  pub is_log : IsLog logfs (log ++ buf)
  pub same : SameSizes kvraw.logfs logfs

pub record Stored (outside : Outside) (kvraw : Kvraw) (key val : List ℕ) (off : ℕ) (log : List ℕ)
    : Type 0 where
  pub after : Kvraw
  pub ran : kvraw_append outside kvraw key val off ≡ gives (length log, after)
  pub is_raw : IsRaw after (log ++ record_bytes key val off)
  pub same : SameSizes kvraw.logfs after.logfs

module _ (outside : Outside) (works : (n : ℕ) → outside.works n ≡ true) where
  grow_log :
      (kvraw : Kvraw) (log buf : List ℕ)
      → IsLog kvraw.logfs log
      → length buf ≤ kvraw.logfs.device.block
      → length log + kvraw.logfs.device.block ≤ kvraw.logfs.device.size
      → Grown outside kvraw buf log
  grow_log kvraw log buf h short room =
      let step = append-Appends outside works kvraw.logfs log buf h short room in
      record {
        logfs = step.after;
        ran =
            ap (λ call. bind_call call (λ logfs. gives (record kvraw { logfs = logfs }))) step.ran;
        is_log = step.is_log;
        same = step.same;
      }

  module _ (kvraw : Kvraw) (log key val : List ℕ) (off : ℕ) (h : IsRaw kvraw log)
      (ok : Storable kvraw.logfs.device.block key val)
      (room : RoomFor kvraw (length log + meta_len + length key + length val)) where
    header_size : length (meta_bytes (new_meta key val off)) ≡ meta_len
    header_size = length-meta_bytes (new_meta key val off)

    one : Grown outside kvraw (meta_bytes (new_meta key val off)) log
    one =
        grow_log kvraw log (meta_bytes (new_meta key val off)) h.is_log
          (omega (arith, header_size, ok.header)) (omega (arith, room))

    abbrev after_one : Kvraw
    after_one = record kvraw { logfs = one.logfs }

    two : Grown outside after_one key (log ++ meta_bytes (new_meta key val off))
    two =
        grow_log after_one (log ++ meta_bytes (new_meta key val off)) key one.is_log
          (omega (arith, ok.key_block, one.same.same_block))
          (omega (
            arith,
            room,
            one.same.same_block,
            one.same.same_device,
            header_size,
            length-append log (meta_bytes (new_meta key val off)),
          ))

    abbrev after_two : Kvraw
    after_two = record kvraw { logfs = two.logfs }

    three : Grown outside after_two val ((log ++ meta_bytes (new_meta key val off)) ++ key)
    three =
        grow_log after_two ((log ++ meta_bytes (new_meta key val off)) ++ key) val two.is_log
          (omega (arith, ok.val_block, one.same.same_block, two.same.same_block))
          (omega (
            arith,
            room,
            one.same.same_block,
            one.same.same_device,
            two.same.same_block,
            two.same.same_device,
            header_size,
            length-append log (meta_bytes (new_meta key val off)),
            length-append (log ++ meta_bytes (new_meta key val off)) key,
          ))

    whole_record :
        ((log ++ meta_bytes (new_meta key val off)) ++ key) ++ val ≡ log ++ record_bytes key val off
    whole_record =
        append_assoc (log ++ meta_bytes (new_meta key val off)) key val
        ∙ append_assoc log (meta_bytes (new_meta key val off)) (key ++ val)

    record_size : length (record_bytes key val off) ≡ meta_len + length key + length val
    record_size = omega (
      arith,
      header_size,
      length-append (meta_bytes (new_meta key val off)) (key ++ val),
      length-append key val,
    )

    storable : is_storable key val ≡ true
    storable =
        let named : (length key == 0) ≡ false = ground (arith, ok.some_key) in
        let short : leb (length key) 65535 ≡ true = ground (arith, ok.key_len) in
        let small : leb (length val) 4294967295 ≡ true = ground (arith, ok.val_len) in
        rw (named, short, small) refl

    new_size_lem :
        add_size kvraw.size (meta_len + length key + length val)
        ≡ length (log ++ record_bytes key val off)
    new_size_lem =
        mod-eq_of_lt (omega (arith, room, h.sized))
        ∙ omega (arith, h.sized, record_size, length-append log (record_bytes key val off))

    abbrev stored_raw : Kvraw
    stored_raw = record kvraw {
      size = add_size kvraw.size (meta_len + length key + length val);
      logfs = three.logfs;
    }

    ran_all : kvraw_append outside kvraw key val off ≡ gives (kvraw.size, stored_raw)
    unfolding kvraw_append
    ran_all = rw storable (rw one.ran (rw two.ran (rw three.ran refl)))

    -- A key and a value that fit are appended as one record behind the log, whose old end is the offset
    -- returned, if the device works and has a block free behind the record.
    pub append-Stored : Stored outside kvraw key val off log
    append-Stored = record {
      after = stored_raw;
      ran = ran_all ∙ ap (λ n. gives (n, stored_raw)) h.sized;
      is_raw = record {
        is_log = subst (IsLog three.logfs) whole_record three.is_log;
        sized = new_size_lem;
      };
      same = record {
        same_device = three.same.same_device ∙ two.same.same_device ∙ one.same.same_device;
        same_block = three.same.same_block ∙ two.same.same_block ∙ one.same.same_block;
        same_ring = three.same.same_ring ∙ two.same.same_ring ∙ one.same.same_ring;
      };
    }
