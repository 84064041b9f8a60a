-- ===== src/Log/Writes.antt =====
-- logfs_append of p4/logfs.c: the log after an append is the log before it and the new bytes.
use jitcompilation.Prelude.{
  ℕ, ◌+◌, ◌%◌, ◌^◌, ◌≤◌, ◌<◌, ◌≡◌, inl, inr, refl, sym, ap, ◌∙◌, true, false, List, ◌++◌, length,
  length-append, length-drop, take, drop, take-append-drop, append_assoc, leb, Bool-cases, arith,
}
use jitcompilation.Prelude.Bytes.{slice, take-append_le}
use jitcompilation.Log.Buffer.{WriteBuffer, write_buffer_add, amount_buffered}
use jitcompilation.Log.Window.{Holds, once}
use jitcompilation.Log.Append.{Adds, add-Adds}
use jitcompilation.Log.Device.{gives, bind_call}
use jitcompilation.Log.Store.{
  Outside, Logfs, flush_out, after_add, added, append_loop, logfs_append,
}
use jitcompilation.Log.Flush.{Keeps}
use jitcompilation.Log.Round.{flush_out-Flushed}

pub amount_buffered-Holds :
    (wb : WriteBuffer) (held : List ℕ) → Holds wb held → amount_buffered wb ≡ length held
amount_buffered-Holds wb held h =
    ground (arith, h.tail_in, h.room, h.head_at, once wb held h (length held) (omega arith))

-- The device and the ring keep their sizes.
pub record SameSizes (lfs lfs' : Logfs) : Type 0 where
  pub same_device : lfs'.device.size ≡ lfs.device.size
  pub same_block : lfs'.device.block ≡ lfs.device.block
  pub same_ring : lfs'.write_buffer.size ≡ lfs.write_buffer.size

-- A log in order: less than a block is held, and the ring has room for two.
pub record IsLog (lfs : Logfs) (log : List ℕ) : Type 0 where
  pub done : List ℕ
  pub held : List ℕ
  pub keeps : Keeps lfs done held
  pub parts : done ++ held ≡ log
  pub few : length held < lfs.device.block
  pub ring : lfs.device.block + lfs.device.block ≤ lfs.write_buffer.size

-- An append that gives a log in order.
pub record Appends (outside : Outside) (lfs : Logfs) (buf log : List ℕ) : Type 0 where
  pub after : Logfs
  pub ran : logfs_append outside lfs buf ≡ gives after
  pub is_log : IsLog after log
  pub same : SameSizes lfs after

module _ (outside : Outside) (works : (n : ℕ) → outside.works n ≡ true) (lfs : Logfs)
    (log buf : List ℕ) (h : IsLog lfs log) (short : length buf ≤ lfs.device.block)
    (room : length log + lfs.device.block ≤ lfs.device.size) where
  fits_ring : length h.held + length buf < lfs.write_buffer.size
  fits_ring = omega (arith, short, h.few, h.ring)

  fits_ring_lem : Adds lfs.write_buffer h.held buf
  fits_ring_lem = add-Adds lfs.write_buffer h.held buf h.keeps.holds

  abbrev grown : Logfs
  grown = record lfs { write_buffer = (write_buffer_add lfs.write_buffer buf).1 }

  grown-Keeps : Keeps grown h.done (h.held ++ buf)
  grown-Keeps =
      let (status, holds, size, last_avail) = fits_ring_lem.added fits_ring in
      record {
        fits = record {
          some_bytes = h.keeps.fits.some_bytes;
          larger = omega (arith, size, h.keeps.fits.larger);
          bounded = omega (arith, size, h.keeps.fits.bounded);
          divides = ap (λ n. (2 ^ 64) % n) size ∙ h.keeps.fits.divides;
        };
        holds = holds;
        elem_block = h.keeps.elem_block;
        extent = h.keeps.extent;
        whole = h.keeps.whole;
        tail_whole = h.keeps.tail_whole;
        tail_at = h.keeps.tail_at;
        tail_in = h.keeps.tail_in;
        on_device = h.keeps.on_device;
        synced_in = omega (arith, last_avail, h.keeps.synced_in, length-append h.held buf);
        synced =
            ap (slice lfs.device.bytes lfs.tail_offset) last_avail
            ∙ h.keeps.synced
            ∙ sym (take-append_le lfs.write_buffer.last_avail h.held buf h.keeps.synced_in)
            ∙ ap (λ n. take n (h.held ++ buf)) (sym last_avail);
        coherent = h.keeps.coherent;
      }

  buffered : amount_buffered grown.write_buffer ≡ length (h.held ++ buf)
  buffered = amount_buffered-Holds grown.write_buffer (h.held ++ buf) grown-Keeps.holds

  same_log : h.done ++ (h.held ++ buf) ≡ log ++ buf
  same_log = sym (append_assoc h.done h.held buf) ∙ ap (λ xs. xs ++ buf) h.parts

  ran_once : logfs_append outside lfs buf ≡ after_add outside grown
  unfolding logfs_append append_loop
  ran_once =
      ap
        (λ rv.
          added outside lfs (rv, (write_buffer_add lfs.write_buffer buf).1)
            (bind_call (flush_out outside lfs)
              (λ lfs'. append_loop outside lfs.write_buffer.size lfs' buf)))
        (fits_ring_lem.added fits_ring).0

  offset_room : lfs.tail_offset + lfs.device.block ≤ lfs.device.size
  offset_room = omega (arith, room, length-append h.done h.held, h.keeps.tail_at, ap length h.parts)

  keeps_it :
      leb lfs.device.block (amount_buffered grown.write_buffer) ≡ false
      → Appends outside lfs buf (log ++ buf)
  keeps_it e = record {
    after = grown;
    ran = ran_once ∙ rw e refl;
    is_log = record {
      done = h.done;
      held = h.held ++ buf;
      keeps = grown-Keeps;
      parts = same_log;
      few = ground (arith, e, buffered);
      ring = omega (arith, h.ring, (fits_ring_lem.added fits_ring).2);
    };
    same = record {
      same_device = refl;
      same_block = refl;
      same_ring = (fits_ring_lem.added fits_ring).2;
    };
  }

  flushes_it :
      leb lfs.device.block (amount_buffered grown.write_buffer) ≡ true
      → Appends outside lfs buf (log ++ buf)
  flushes_it e =
      let many : lfs.device.block ≤ length (h.held ++ buf) = ground (arith, e, buffered) in
      let out =
        flush_out-Flushed outside works grown h.done (h.held ++ buf) grown-Keeps offset_room many in
      record {
        after = out.after;
        ran = ran_once ∙ rw e out.ran;
        is_log = record {
          done = h.done ++ take lfs.device.block (h.held ++ buf);
          held = drop lfs.device.block (h.held ++ buf);
          keeps = out.keeps;
          parts =
              append_assoc h.done (take lfs.device.block (h.held ++ buf))
                (drop lfs.device.block (h.held ++ buf))
              ∙ ap (λ xs. h.done ++ xs) (take-append-drop lfs.device.block (h.held ++ buf))
              ∙ same_log;
          few = omega (
            arith,
            length-drop lfs.device.block (h.held ++ buf),
            length-append h.held buf,
            h.few,
            short,
            out.same_block,
            h.keeps.fits.some_bytes,
          );
          ring =
              omega
                (arith, h.ring, (fits_ring_lem.added fits_ring).2, out.same_ring, out.same_block);
        };
        same = record {
          same_device = out.same_device;
          same_block = out.same_block;
          same_ring = out.same_ring ∙ (fits_ring_lem.added fits_ring).2;
        };
      }

  -- If every transfer of the device works and a block of it is free behind the log, an append of at most
  -- a block to a log in order returns, and gives the log with the new bytes, in order again.
  pub append-Appends : Appends outside lfs buf (log ++ buf)
  append-Appends = elim (Bool-cases (leb lfs.device.block (amount_buffered grown.write_buffer))) [
    | inl e ↦ flushes_it e
    | inr e ↦ keeps_it e
  ]
