-- ===== src/Kv/Lookup.antt =====
-- kvraw_lookup of p4/kvraw.c on a record that stands in the log.
use jitcompilation.Prelude.Bytes.{add_size}
use jitcompilation.Prelude.{
  ℕ, ◌+◌, ◌^◌, ◌%◌, ◌≤◌, ◌<◌, ◌≡◌, refl, sym, ap, ◌∙◌, true, false, List, ◌++◌, length,
  length-append, take, min, ltb, ◌==◌, arith,
}
use native.Mathlib.Nat.{mod-eq_of_lt}
use jitcompilation.Prelude.Bytes.{slice, slice-append_add, slice-append_front, take-all}
use jitcompilation.Log.Device.{gives, bind_call}
use jitcompilation.Log.Store.{Outside, Logfs}
use jitcompilation.Log.Writes.{SameSizes, IsLog}
use jitcompilation.Log.Contract.{read-Reads}
use jitcompilation.Kv.Meta.{
  Meta, meta_len, meta_bytes, meta_of, Fitting, length-meta_bytes, meta_of-meta_bytes,
}
use jitcompilation.Kv.Raw.{
  Kvraw, FoundRecord, key_off, val_off, record_end, check_meta, read_raw, read_meta, read_val,
  read_key, kvraw_lookup, new_meta,
}
use jitcompilation.Kv.Records.{IsRaw}

-- A record stands in the log at an offset.
pub record Stands (log : List ℕ) (off : ℕ) (key val : List ℕ) (prev : ℕ) : Type 0 where
  pub front : List ℕ
  pub back : List ℕ
  pub parts : front ++ (meta_bytes (new_meta key val prev) ++ (key ++ (val ++ back))) ≡ log
  pub at : length front ≡ off
  pub key_len : length key < 2 ^ 16
  pub val_len : length val < 2 ^ 32
  pub prev_off : prev < 2 ^ 64

module _ {log : List ℕ} {off : ℕ} {key val : List ℕ} {prev : ℕ}
    (s : Stands log off key val prev) where
  abbrev stored_meta : Meta
  stored_meta = new_meta key val prev

  behind :
      (p n : ℕ)
      → slice log (off + p) n
        ≡ slice (meta_bytes (new_meta key val prev) ++ (key ++ (val ++ s.back))) p n
  behind p n =
      ap (λ xs. slice xs (off + p) n) (sym s.parts)
      ∙ ap
          (λ k.
            slice (s.front ++ (meta_bytes (new_meta key val prev) ++ (key ++ (val ++ s.back))))
              (k + p) n)
          (sym s.at)
      ∙ slice-append_add s.front (meta_bytes (new_meta key val prev) ++ (key ++ (val ++ s.back))) p
          n

  header_size : length (meta_bytes (new_meta key val prev)) ≡ meta_len
  header_size = length-meta_bytes (new_meta key val prev)

  pub sizes : off + meta_len + length key + length val ≤ length log
  sizes = omega (
    arith,
    s.at,
    header_size,
    ap length s.parts,
    length-append s.front (meta_bytes (new_meta key val prev) ++ (key ++ (val ++ s.back))),
    length-append (meta_bytes (new_meta key val prev)) (key ++ (val ++ s.back)),
    length-append key (val ++ s.back),
    length-append val s.back,
  )

  key_mod : length key % 2 ^ 16 ≡ length key
  key_mod = mod-eq_of_lt s.key_len

  val_mod : length val % 2 ^ 32 ≡ length val
  val_mod = mod-eq_of_lt s.val_len

  header_Fitting : Fitting (new_meta key val prev)
  header_Fitting = record {
    off = s.prev_off;
    key_len = omega (arith, key_mod, s.key_len);
    val_len = omega (arith, val_mod, s.val_len);
  }

  meta_there : meta_of (slice log off meta_len) ≡ new_meta key val prev
  meta_there =
      ap meta_of (
        ap (λ p. slice log p meta_len) (omega arith)
        ∙ behind 0 meta_len
        ∙ slice-append_front (meta_bytes (new_meta key val prev)) (key ++ (val ++ s.back)) meta_len
            (omega (arith, header_size))
        ∙ take-all meta_len (meta_bytes (new_meta key val prev)) (omega (arith, header_size)))
      ∙ meta_of-meta_bytes (new_meta key val prev) header_Fitting

  past_header : (p n : ℕ) → slice log (off + (meta_len + p)) n ≡ slice (key ++ (val ++ s.back)) p n
  past_header p n =
      behind (meta_len + p) n
      ∙ ap (λ k. slice (meta_bytes (new_meta key val prev) ++ (key ++ (val ++ s.back))) (k + p) n)
          (sym header_size)
      ∙ slice-append_add (meta_bytes (new_meta key val prev)) (key ++ (val ++ s.back)) p n

  key_there : (n : ℕ) → n ≤ length key → slice log (off + meta_len) n ≡ take n key
  key_there n within =
      ap (λ p. slice log p n) (omega arith)
      ∙ past_header 0 n
      ∙ slice-append_front key (val ++ s.back) n within

  val_there : (n : ℕ) → n ≤ length val → slice log (off + meta_len + length key) n ≡ take n val
  val_there n within =
      ap (λ p. slice log p n) (omega arith)
      ∙ past_header (length key + 0) n
      ∙ slice-append_add key (val ++ s.back) 0 n
      ∙ slice-append_front val s.back n within

-- Bytes of the log that were read.
record Got (outside : Outside) (kvraw : Kvraw) (log : List ℕ) (off len : ℕ) : Type 0 where
  pub logfs : Logfs
  pub ran :
      read_raw outside kvraw off len ≡ gives (slice log off len, record kvraw { logfs = logfs })
  pub is_log : IsLog logfs log
  pub same : SameSizes kvraw.logfs logfs

-- What kvraw_lookup stores, for the lengths passed in.
abbrev pub found_of : List ℕ → List ℕ → ℕ → ℕ → ℕ → FoundRecord
found_of key val prev key_room val_room = record {
  key = take (min (length key) key_room) key;
  val = take (min (length val) val_room) val;
  key_len = length key;
  val_len = length val;
  off = prev;
}

pub record Looked (outside : Outside) (kvraw : Kvraw) (log : List ℕ) (off key_room val_room : ℕ)
    (found : FoundRecord) : Type 0 where
  pub after : Kvraw
  pub ran : kvraw_lookup outside kvraw off key_room val_room ≡ gives (found, after)
  pub is_raw : IsRaw after log
  pub same : SameSizes kvraw.logfs after.logfs

module _ (outside : Outside) (works : (n : ℕ) → outside.works n ≡ true) where
  get_log :
      (kvraw : Kvraw) (log : List ℕ) (off len : ℕ)
      → IsLog kvraw.logfs log
      → length log + kvraw.logfs.device.block ≤ kvraw.logfs.device.size
      → off + len ≤ length log
      → Got outside kvraw log off len
  get_log kvraw log off len h room inside =
      let step = read-Reads outside works kvraw.logfs log h room off len inside in
      record {
        logfs = step.after;
        ran =
            ap (λ call. bind_call call (λ found. gives (found.0, record kvraw { logfs = found.1 })))
              step.ran;
        is_log = step.is_log;
        same = step.same;
      }

  module _ (kvraw : Kvraw) (log : List ℕ) (h : IsRaw kvraw log)
      (room : length log + kvraw.logfs.device.block ≤ kvraw.logfs.device.size)
      (small : kvraw.logfs.device.size < 2 ^ 64) (off : ℕ) (key val : List ℕ) (prev : ℕ)
      (s : Stands log off key val prev) (key_room val_room : ℕ) where
    size_ok : off + meta_len + length key + length val ≤ length log
    size_ok = sizes s

    key_at : key_off off ≡ off + meta_len
    key_at = mod-eq_of_lt (omega (arith, size_ok, room, small))

    val_at : val_off off (new_meta key val prev) ≡ off + meta_len + length key
    val_at =
        ap (λ n. add_size n (length key % 2 ^ 16)) key_at
        ∙ ap (add_size (off + meta_len)) (key_mod s)
        ∙ mod-eq_of_lt (omega (arith, size_ok, room, small))

    end_at : record_end off (new_meta key val prev) ≡ off + meta_len + length key + length val
    end_at =
        ap (λ n. add_size n (length val % 2 ^ 32)) val_at
        ∙ ap (add_size (off + meta_len + length key)) (val_mod s)
        ∙ mod-eq_of_lt (omega (arith, size_ok, room, small))

    one : Got outside kvraw log off meta_len
    one = get_log kvraw log off meta_len h.is_log room (omega (arith, size_ok))

    abbrev after_one : Kvraw
    after_one = record kvraw { logfs = one.logfs }

    two : Got outside after_one log (off + meta_len) (min (length key) key_room)
    two =
        get_log after_one log (off + meta_len) (min (length key) key_room) one.is_log
          (omega (arith, room, one.same.same_block, one.same.same_device)) (omega (arith, size_ok))

    abbrev after_two : Kvraw
    after_two = record kvraw { logfs = two.logfs }

    three : Got outside after_two log (off + meta_len + length key) (min (length val) val_room)
    three =
        get_log after_two log (off + meta_len + length key) (min (length val) val_room) two.is_log
          (omega (
            arith, room, one.same.same_block, one.same.same_device, two.same.same_block,
            two.same.same_device,
          ))
          (omega (arith, size_ok))

    abbrev after_three : Kvraw
    after_three = record kvraw { logfs = three.logfs }

    read_meta-gives : read_meta outside kvraw off ≡ gives (new_meta key val prev, after_one)
    unfolding read_meta
    read_meta-gives =
        let inside : ltb kvraw.size (add_size off meta_len) ≡ false =
          ground (arith, key_at, size_ok, h.sized) in
        let whole : ltb kvraw.size (record_end off (new_meta key val prev)) ≡ false =
          ground (arith, end_at, size_ok, h.sized) in
        rw inside (
          ap (λ call. bind_call call (λ found. check_meta found.1 off (meta_of found.0))) one.ran
          ∙ ap (check_meta after_one off) (meta_there s)
          ∙ rw whole refl)

    key_read :
        read_raw outside after_one (key_off off) (min (length key % 2 ^ 16) key_room)
        ≡ gives (take (min (length key) key_room) key, after_two)
    key_read =
        ap (λ p. read_raw outside after_one p (min (length key % 2 ^ 16) key_room)) key_at
        ∙ ap (λ n. read_raw outside after_one (off + meta_len) (min n key_room)) (key_mod s)
        ∙ two.ran
        ∙ ap (λ xs. gives (xs, after_two)) (key_there s (min (length key) key_room) (omega arith))

    val_read :
        read_raw outside after_two
          (val_off off (new_meta key val prev))
          (min (length val % 2 ^ 32) val_room)
        ≡ gives (take (min (length val) val_room) val, after_three)
    val_read =
        ap (λ p. read_raw outside after_two p (min (length val % 2 ^ 32) val_room)) val_at
        ∙ ap (λ n. read_raw outside after_two (off + meta_len + length key) (min n val_room))
            (val_mod s)
        ∙ three.ran
        ∙ ap (λ xs. gives (xs, after_three)) (val_there s (min (length val) val_room) (omega arith))

    abbrev lengths : ℕ → ℕ → FoundRecord
    lengths key_len val_len = record {
      key = take (min (length key) key_room) key;
      val = take (min (length val) val_room) val;
      key_len = key_len;
      val_len = val_len;
      off = prev;
    }

    -- The record that stands at an offset of the log other than 0 is returned, its key and its value cut
    -- to the lengths passed in, if the device works and has a block free behind the log.
    pub lookup-Looked :
        0 < off
        → Looked outside kvraw log off key_room val_room (found_of key val prev key_room val_room)
    unfolding kvraw_lookup
    lookup-Looked nonzero =
        let some_off : (off == 0) ≡ false = ground (arith, nonzero) in
        record {
          after = after_three;
          ran = rw some_off (
              ap (λ call. bind_call call (read_key outside off key_room val_room)) read_meta-gives
              ∙ ap (λ call. bind_call call (read_val outside off val_room (new_meta key val prev)))
                  key_read
              ∙ ap
                  (λ call. bind_call call (λ found. gives (
                    record {
                      key = take (min (length key) key_room) key;
                      val = found.0;
                      key_len = length key % 2 ^ 16;
                      val_len = length val % 2 ^ 32;
                      off = prev;
                    },
                    found.1,
                  )))
                  val_read
              ∙ ap (λ n. gives (lengths n (length val % 2 ^ 32), after_three)) (key_mod s)
              ∙ ap (λ n. gives (lengths (length key) n, after_three)) (val_mod s));
          is_raw = record { is_log = three.is_log; sized = h.sized };
          same = record {
            same_device = three.same.same_device ∙ two.same.same_device ∙ one.same.same_device;
            same_block = three.same.same_block ∙ two.same.same_block ∙ one.same.same_block;
            same_ring = three.same.same_ring ∙ two.same.same_ring ∙ one.same.same_ring;
          };
        }
