-- ===== src/Log/Round.antt =====
-- One round of the flusher of p4/logfs.c: the device, the buffer and the cache after it hold the same
-- log.
use jitcompilation.Prelude.{
  ℕ, ◌+◌, ◌≤◌, ◌<◌, ◌≡◌, refl, ap, ◌∙◌, Bool, true, false, List, ◌++◌, length, length-take, take,
  drop, dec_lt, arith,
}
use jitcompilation.Prelude.Bytes.{zero_padded}
use jitcompilation.Log.Buffer.{block}
use jitcompilation.Log.Window.{Holds}
use jitcompilation.Log.Dequeue.{dequeue-Dequeues, dequeue-Padded, round_up-block}
use jitcompilation.Log.Device.{gives}
use jitcompilation.Log.Store.{Outside, Logfs, after_dequeue, write_out, flush}
use jitcompilation.Log.Flush.{
  Keeps, stored, write_out-stored, zero_padded-full, length-zero_padded, stored_out-Keeps,
  stored_copy-Keeps,
}

-- What a flush leaves.
pub record Flushed (outside : Outside) (lfs : Logfs) (dont_dequeue : Bool) (done held : List ℕ)
    : Type 0 where
  pub after : Logfs
  pub ran : flush outside (record lfs { dont_dequeue_wb = dont_dequeue }) ≡ gives after
  pub keeps : Keeps after done held
  pub same_device : after.device.size ≡ lfs.device.size
  pub same_block : after.device.block ≡ lfs.device.block
  pub same_ring : after.write_buffer.size ≡ lfs.write_buffer.size

-- The bytes held are on the device as well.
abbrev pub Copied : Outside → Logfs → List ℕ → List ℕ → Type 0
Copied outside lfs done held =
    (flushed : Flushed outside lfs true done held) × (flushed.after.write_buffer.last_avail
      ≡ length held)

module _ (outside : Outside) (works : (n : ℕ) → outside.works n ≡ true) (lfs : Logfs)
    (done held : List ℕ) (h : Keeps lfs done held)
    (room : lfs.tail_offset + lfs.device.block ≤ lfs.device.size) where
  -- A block or more is held: the first block of it moves to the device.
  pub flush_out-Flushed :
      lfs.device.block ≤ length held
      → Flushed outside lfs false (done ++ take lfs.device.block held) (drop lfs.device.block held)
  unfolding flush
  flush_out-Flushed many =
      let moved =
        (dequeue-Dequeues lfs.write_buffer held h.holds lfs.device.block h.fits).first_block
          (omega (arith, many, h.fits.some_bytes)) in
      let full : length (take lfs.device.block held) ≡ lfs.device.block =
        omega (arith, many, length-take lfs.device.block held) in
      let out = zero_padded-full (take lfs.device.block held) lfs.device.block full in
      record {
        after =
            stored (record lfs { write_buffer = moved.0; dont_dequeue_wb = false })
              (take lfs.device.block held);
        ran =
            ap (after_dequeue outside (record lfs { dont_dequeue_wb = false })) moved.1
            ∙ ap
                (write_out outside (record lfs { write_buffer = moved.0; dont_dequeue_wb = false }))
                out
            ∙ write_out-stored outside works
                (record lfs { write_buffer = moved.0; dont_dequeue_wb = false })
                (take lfs.device.block held) full h.fits.some_bytes h.tail_whole room h.elem_block;
        keeps =
            stored_out-Keeps lfs done held h (take lfs.device.block held) full room moved.0 moved.3
              (drop lfs.device.block held) moved.2 moved.4;
        same_device = refl;
        same_block = refl;
        same_ring = moved.3;
      }

  noted-Holds : Holds (record lfs.write_buffer { last_avail = length held }) held
  noted-Holds = record {
    extent = h.holds.extent;
    tail_in = h.holds.tail_in;
    room = h.holds.room;
    head_at = h.holds.head_at;
    at = h.holds.at;
  }

  new_copy :
      length held ≤ lfs.device.block
      → lfs.write_buffer.last_avail < length held
      → Copied outside lfs done held
  unfolding flush
  new_copy few some_new =
      let kept =
        (dequeue-Padded lfs.write_buffer held h.holds lfs.device.block h.fits
            (omega (arith, few, h.fits.larger))).new
          some_new in
      let size =
        round_up-block (length held) lfs.device.block (omega (arith, some_new)) few
          (omega (arith, h.fits.larger, h.fits.bounded)) in
      let full = length-zero_padded held lfs.device.block few in
      (
        record {
          after =
              stored
                (record lfs {
                  write_buffer = record lfs.write_buffer { last_avail = length held };
                  dont_dequeue_wb = true;
                })
                (zero_padded held lfs.device.block);
          ran =
              ap (after_dequeue outside (record lfs { dont_dequeue_wb = true })) (
                kept
                ∙ ap
                    (λ n.
                      block (zero_padded held n)
                        (record lfs.write_buffer { last_avail = length held }))
                    size)
              ∙ write_out-stored outside works
                  (record lfs {
                    write_buffer = record lfs.write_buffer { last_avail = length held };
                    dont_dequeue_wb = true;
                  })
                  (zero_padded held lfs.device.block) full h.fits.some_bytes h.tail_whole room
                  h.elem_block;
          keeps =
              stored_copy-Keeps lfs done held h (zero_padded held lfs.device.block) full room
                (record lfs.write_buffer { last_avail = length held }) refl noted-Holds refl few
                refl;
          same_device = refl;
          same_block = refl;
          same_ring = refl;
        },
        refl,
      )

  -- Nothing was added since the last copy.
  old_copy :
      length held ≤ lfs.write_buffer.last_avail
      → length held ≤ lfs.device.block
      → Copied outside lfs done held
  unfolding flush
  old_copy none_new few =
      let kept =
        (dequeue-Padded lfs.write_buffer held h.holds lfs.device.block h.fits
            (omega (arith, few, h.fits.larger))).old
          none_new in
      (
        record {
          after = record lfs { dont_dequeue_wb = true };
          ran = ap (after_dequeue outside (record lfs { dont_dequeue_wb = true })) kept;
          keeps = record {
            fits = h.fits;
            holds = h.holds;
            elem_block = h.elem_block;
            extent = h.extent;
            whole = h.whole;
            tail_whole = h.tail_whole;
            tail_at = h.tail_at;
            tail_in = h.tail_in;
            on_device = h.on_device;
            synced_in = h.synced_in;
            synced = h.synced;
            coherent = h.coherent;
          };
          same_device = refl;
          same_block = refl;
          same_ring = refl;
        },
        omega (arith, none_new, h.synced_in),
      )

  -- At most a block is held: all of it is copied to the device, and kept.
  pub flush_copy-Flushed : length held ≤ lfs.device.block → Copied outside lfs done held
  flush_copy-Flushed few = elim (dec_lt lfs.write_buffer.last_avail (length held)) [
    | yes some_new ↦ new_copy few some_new
    | no none_new ↦ old_copy (omega (arith, none_new)) few
  ]
