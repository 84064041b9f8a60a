-- ===== src/Log/Flush.antt =====
-- p4/logfs.c keeps a log: what the device, the buffer and the cache hold of it, before and after a
-- block is written.
use jitcompilation.Prelude.{
  ℕ, suc, ◌+◌, ◌-◌, ◌%◌, ◌^◌, ◌≤◌, ◌<◌, ◌≡◌, inl, refl, sym, ap, ◌∙◌, true, false, some, List, ◌++◌,
  length, length-append, take, replicate, append-nil, get_elem?, length-replicate, map, ◌/◌, ◌*◌,
  leb, ◌==◌, if◌then◌else◌, arith,
}
use native.Mathlib.Nat.{mod_self, add-mod_right}
use jitcompilation.Prelude.Bytes.{
  memcpy, slice, zero_padded, length-memcpy, slice-memcpy_beside, slice-memcpy_same, slice-add,
  slice_ext, get_elem?-memcpy_in, get_elem?-append_lt,
}
use jitcompilation.Log.Buffer.{WriteBuffer}
use jitcompilation.Log.Window.{Holds}
use jitcompilation.Log.Heads.{Fits}
use jitcompilation.Log.Device.{gives, is_aligned, device_write}
use jitcompilation.Log.Cache.{read_cache_invalidate, rounded_down, drop_elem}
use jitcompilation.Log.Coherent.{Coherent, drop-Coherent, quotient}
use jitcompilation.Log.Store.{Outside, Logfs, called, written, after_write, write_out}

-- `done` is on the device in front of the offset, `held` is in the buffer; the first `last_avail` of
-- these are on the device as well.
pub record Keeps (lfs : Logfs) (done held : List ℕ) : Type 0 where
  pub fits : Fits lfs.write_buffer lfs.device.block
  pub holds : Holds lfs.write_buffer held
  pub elem_block : lfs.read_cache.elem_size ≡ lfs.device.block
  pub extent : length lfs.device.bytes ≡ lfs.device.size
  pub whole : lfs.device.size % lfs.device.block ≡ 0
  pub tail_whole : lfs.tail_offset % lfs.device.block ≡ 0
  pub tail_at : length done ≡ lfs.tail_offset
  pub tail_in : lfs.tail_offset ≤ lfs.device.size
  pub on_device : slice lfs.device.bytes 0 lfs.tail_offset ≡ done
  pub synced_in : lfs.write_buffer.last_avail ≤ length held
  pub synced :
      slice lfs.device.bytes lfs.tail_offset lfs.write_buffer.last_avail
      ≡ take lfs.write_buffer.last_avail held
  pub coherent : Coherent lfs.device.bytes lfs.device.block lfs.read_cache.cache

-- The state after a block was written at the offset.
abbrev pub stored : Logfs → List ℕ → Logfs
stored lfs buf = record lfs {
  device = record lfs.device { bytes = memcpy lfs.device.bytes lfs.tail_offset buf };
  read_cache = record lfs.read_cache {
    cache = map (drop_elem lfs.read_cache.elem_size lfs.tail_offset) lfs.read_cache.cache;
  };
  tail_offset = if lfs.dont_dequeue_wb then lfs.tail_offset else lfs.tail_offset + length buf;
  dont_dequeue_wb = false;
  calls = suc lfs.calls;
}

module _ (outside : Outside) (works : (n : ℕ) → outside.works n ≡ true) (lfs : Logfs) (buf : List ℕ)
    (one : length buf ≡ lfs.device.block) (some_bytes : 0 < lfs.device.block)
    (aligned : lfs.tail_offset % lfs.device.block ≡ 0)
    (room : lfs.tail_offset + lfs.device.block ≤ lfs.device.size)
    (same_size : lfs.read_cache.elem_size ≡ lfs.device.block) where
  aligned_write : is_aligned lfs.device lfs.tail_offset (length buf) ≡ true
  aligned_write =
      let start : ((lfs.tail_offset % lfs.device.block) == 0) ≡ true = ground (arith, aligned) in
      let all : ((length buf % lfs.device.block) == 0) ≡ true =
        ground (arith, ap (λ n. n % lfs.device.block) one ∙ mod_self lfs.device.block) in
      let inside : leb (lfs.tail_offset + length buf) lfs.device.size ≡ true =
        ground (arith, room, one) in
      rw (start, all, inside) refl

  rounded : (rounded_down lfs.read_cache lfs.tail_offset == lfs.tail_offset) ≡ true
  rounded =
      let e : lfs.tail_offset / lfs.read_cache.elem_size * lfs.read_cache.elem_size
          ≡ lfs.tail_offset =
        ap (λ n. lfs.tail_offset / n * n) same_size
        ∙ quotient lfs.tail_offset lfs.device.block aligned in
      ground (arith, e)

  device_write-gives :
      device_write (outside.works lfs.calls) lfs.device buf lfs.tail_offset
      ≡ gives (stored lfs buf).device
  unfolding device_write
  device_write-gives = rw (aligned_write, works lfs.calls) refl

  invalidate-some :
      read_cache_invalidate lfs.read_cache lfs.tail_offset ≡ some (stored lfs buf).read_cache
  unfolding read_cache_invalidate
  invalidate-some = rw rounded refl

  pub write_out-stored : write_out outside lfs buf ≡ gives (stored lfs buf)
  write_out-stored =
      ap (after_write (called lfs) (length buf)) device_write-gives
      ∙ ap (written (called lfs) (stored lfs buf).device (length buf)) invalidate-some

pub zero_padded-full : (src : List ℕ) (n : ℕ) → length src ≡ n → zero_padded src n ≡ src
zero_padded-full src n full =
    let no_padding : n - length src ≡ 0 = omega (arith, full) in
    ap (λ k. src ++ replicate k 0) no_padding ∙ append-nil src

pub length-zero_padded : (src : List ℕ) (n : ℕ) → length src ≤ n → length (zero_padded src n) ≡ n
length-zero_padded src n within = omega (
  arith,
  within,
  length-append src (replicate (n - length src) 0),
  length-replicate {A = ℕ} (n - length src) 0,
)

-- The front of the device stays as it is.
module _ (lfs : Logfs) (done held : List ℕ) (h : Keeps lfs done held) (buf : List ℕ)
    (one : length buf ≡ lfs.device.block)
    (room : lfs.tail_offset + lfs.device.block ≤ lfs.device.size) where
  buf_fits : lfs.tail_offset + length buf ≤ length lfs.device.bytes
  buf_fits = omega (arith, room, one, h.extent)

  front_stays : slice (stored lfs buf).device.bytes 0 lfs.tail_offset ≡ done
  front_stays =
      slice-memcpy_beside lfs.device.bytes lfs.tail_offset buf buf_fits 0 lfs.tail_offset
        (omega (arith, h.tail_in, h.extent)) (inl (omega arith))
      ∙ h.on_device

  extent_stays : length (stored lfs buf).device.bytes ≡ lfs.device.size
  extent_stays = length-memcpy lfs.device.bytes lfs.tail_offset buf buf_fits ∙ h.extent

  cache_stays :
      Coherent (stored lfs buf).device.bytes lfs.device.block (stored lfs buf).read_cache.cache
  cache_stays =
      drop-Coherent lfs.device.bytes lfs.device.block lfs.tail_offset buf one h.tail_whole
        (omega (arith, room, h.extent)) h.coherent lfs.read_cache.elem_size

  block_there : slice (stored lfs buf).device.bytes lfs.tail_offset lfs.device.block ≡ buf
  block_there =
      ap (slice (stored lfs buf).device.bytes lfs.tail_offset) (sym one)
      ∙ slice-memcpy_same lfs.device.bytes lfs.tail_offset buf buf_fits

  Fits-size : (wb : WriteBuffer) → wb.size ≡ lfs.write_buffer.size → Fits wb lfs.device.block
  Fits-size wb same = record {
    some_bytes = h.fits.some_bytes;
    larger = omega (arith, same, h.fits.larger);
    bounded = omega (arith, same, h.fits.bounded);
    divides = ap (λ n. (2 ^ 64) % n) same ∙ h.fits.divides;
  }

  longer : slice (stored lfs buf).device.bytes 0 (lfs.tail_offset + length buf) ≡ done ++ buf
  longer =
      sym (slice-add (stored lfs buf).device.bytes 0 lfs.tail_offset (length buf))
      ∙ ap (λ xs. xs ++ slice (stored lfs buf).device.bytes (0 + lfs.tail_offset) (length buf))
          front_stays
      ∙ ap (λ p. done ++ slice (stored lfs buf).device.bytes p (length buf)) zero_off
      ∙ ap (λ xs. done ++ xs) (slice-memcpy_same lfs.device.bytes lfs.tail_offset buf buf_fits)
    where
      zero_off : 0 + lfs.tail_offset ≡ lfs.tail_offset
      zero_off = omega arith

  module _ (wb : WriteBuffer) (same : wb.size ≡ lfs.write_buffer.size) where
    -- The block has left the buffer.
    pub stored_out-Keeps :
        (rest : List ℕ)
        → Holds wb rest
        → wb.last_avail ≡ 0
        → Keeps
            (stored (record lfs { write_buffer = wb; dont_dequeue_wb = false }) buf)
            (done ++ buf)
            rest
    stored_out-Keeps rest holds none_synced = record {
      fits = Fits-size wb same;
      holds = holds;
      elem_block = h.elem_block;
      extent = extent_stays;
      whole = h.whole;
      tail_whole =
          ap (λ n. (lfs.tail_offset + n) % lfs.device.block) one
          ∙ add-mod_right lfs.tail_offset lfs.device.block
          ∙ h.tail_whole;
      tail_at = omega (arith, length-append done buf, h.tail_at);
      tail_in = omega (arith, room, one);
      on_device = longer;
      synced_in = omega (arith, none_synced);
      synced = rw none_synced refl;
      coherent = cache_stays;
    }

    -- The block stays in the buffer as well.
    pub stored_copy-Keeps :
        Holds wb held
        → wb.last_avail ≡ length held
        → length held ≤ lfs.device.block
        → zero_padded held lfs.device.block ≡ buf
        → Keeps (stored (record lfs { write_buffer = wb; dont_dequeue_wb = true }) buf) done held
    stored_copy-Keeps holds all_synced few padded = record {
      fits = Fits-size wb same;
      holds = holds;
      elem_block = h.elem_block;
      extent = extent_stays;
      whole = h.whole;
      tail_whole = h.tail_whole;
      tail_at = h.tail_at;
      tail_in = h.tail_in;
      on_device = front_stays;
      synced_in = omega (arith, all_synced);
      synced =
          slice_ext (stored lfs buf).device.bytes held lfs.tail_offset 0 wb.last_avail
            (omega (arith, room, extent_stays, all_synced, few)) (omega (arith, all_synced))
            (λ i i_lt.
              get_elem?-memcpy_in lfs.device.bytes lfs.tail_offset buf buf_fits
                (lfs.tail_offset + i) (omega arith) (omega (arith, i_lt, all_synced, few, one))
              ∙ ap (get_elem? buf) (omega arith)
              ∙ ap (λ xs. get_elem? xs i) (sym padded)
              ∙ get_elem?-append_lt held (replicate (lfs.device.block - length held) 0) i
                  (omega (arith, i_lt, all_synced))
              ∙ ap (get_elem? held) (omega arith));
      coherent = cache_stays;
    }
