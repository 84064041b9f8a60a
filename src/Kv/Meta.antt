-- ===== src/Kv/Meta.antt =====
-- `struct meta` of p4/kvraw.c, packed, with its numbers in little-endian order as on x86.
use jitcompilation.Prelude.Bytes.{le_bytes, le_value, le_value-le_bytes}
use jitcompilation.Prelude.{ℕ, ◌^◌, ◌<◌, ◌≡◌, refl, List, ◌∷◌, ◌++◌, length, get_or}
use jitcompilation.Prelude.Bytes.{slice}

pub record Meta : Type 0 where
  pub mark : ℕ × ℕ
  pub off : ℕ
  pub key_len : ℕ
  pub val_len : ℕ

-- META_LEN
abbrev pub meta_len : ℕ
meta_len = 16

unfoldable pub meta_bytes : Meta → List ℕ
meta_bytes meta =
    meta.mark.0
    ∷ meta.mark.1
    ∷ (le_bytes 8 meta.off ++ (le_bytes 2 meta.key_len ++ le_bytes 4 meta.val_len))

-- What a read of 16 bytes into the struct leaves in it.
unfoldable pub meta_of : List ℕ → Meta
meta_of bytes = record {
  mark = (get_or bytes 0 0, get_or bytes 1 0);
  off = le_value (slice bytes 2 8);
  key_len = le_value (slice bytes 10 2);
  val_len = le_value (slice bytes 12 4);
}

-- The widths of the members.
pub record Fitting (meta : Meta) : Type 0 where
  pub off : meta.off < 2 ^ 64
  pub key_len : meta.key_len < 2 ^ 16
  pub val_len : meta.val_len < 2 ^ 32

pub length-meta_bytes : (meta : Meta) → length (meta_bytes meta) ≡ meta_len
unfolding meta_bytes
length-meta_bytes meta = refl

-- A struct whose members fit is read back as it was written.
pub meta_of-meta_bytes : (meta : Meta) → Fitting meta → meta_of (meta_bytes meta) ≡ meta
unfolding meta_of meta_bytes
meta_of-meta_bytes meta h =
    let off_back = le_value-le_bytes 8 meta.off h.off in
    let key_back = le_value-le_bytes 2 meta.key_len h.key_len in
    let val_back = le_value-le_bytes 4 meta.val_len h.val_len in
    rw (off_back, key_back, val_back) refl
