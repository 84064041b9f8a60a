-- ===== src/Kv/State.antt =====
-- The state of p4/kvdb.c as lists of records, and the records as the log grows.
use jitcompilation.Prelude.{
  ℕ, ◌^◌, ◌<◌, ◌≡◌, refl, sym, ap, ◌∙◌, List, [], ◌++◌, append_assoc, append-nil, length, arith,
}
use jitcompilation.Index.Hash.{key_of}
use jitcompilation.Index.Table.{index_lookup}
use jitcompilation.Index.Store.{IsSettled}
use jitcompilation.Index.Reference.{offset_of}
use jitcompilation.Kv.Meta.{meta_bytes}
use jitcompilation.Kv.Raw.{new_meta}
use jitcompilation.Kv.Records.{IsRaw, record_bytes}
use jitcompilation.Kv.Lookup.{Stands, sizes}
use jitcompilation.Kv.Chain.{Entry, Chain, bottom, link}
use jitcompilation.Kv.Db.{Kvdb}

-- The log, the index, and for each hash the records of its chain.
pub record IsDb (kvdb : Kvdb) (log : List ℕ) (entries : ℕ → List Entry) : Type 0 where
  pub is_raw : IsRaw kvdb.kvraw log
  pub settled : IsSettled kvdb.index.maps
  pub chains :
      (key : List ℕ) → Chain log (offset_of (index_lookup kvdb.index key)) (entries (key_of key))

-- A record, and a chain, stay when the log grows.
pub Stands-append :
    {log : List ℕ} {off : ℕ} {key val : List ℕ} {prev : ℕ} (more : List ℕ)
    → Stands log off key val prev
    → Stands (log ++ more) off key val prev
Stands-append {key = key} {val = val} {prev = prev} more s = record {
  front = s.front;
  back = s.back ++ more;
  parts =
      ap (λ xs. s.front ++ (meta_bytes (new_meta key val prev) ++ (key ++ xs)))
        (sym (append_assoc val s.back more))
      ∙ ap (λ xs. s.front ++ (meta_bytes (new_meta key val prev) ++ xs))
          (sym (append_assoc key (val ++ s.back) more))
      ∙ ap (λ xs. s.front ++ xs)
          (sym (append_assoc (meta_bytes (new_meta key val prev)) (key ++ (val ++ s.back)) more))
      ∙ sym (
          append_assoc s.front (meta_bytes (new_meta key val prev) ++ (key ++ (val ++ s.back)))
            more)
      ∙ ap (λ xs. xs ++ more) s.parts;
  at = s.at;
  key_len = s.key_len;
  val_len = s.val_len;
  prev_off = s.prev_off;
}

pub Chain-append :
    {log : List ℕ} {off : ℕ} {entries : List Entry} (more : List ℕ)
    → Chain log off entries
    → Chain (log ++ more) off entries
Chain-append more bottom = bottom
Chain-append more (link falls s rest) = link falls (Stands-append more s) (Chain-append more rest)

-- The record that was just appended.
pub Stands-new :
    (log key val : List ℕ) (prev : ℕ)
    → length key < 2 ^ 16
    → length val < 2 ^ 32
    → prev < 2 ^ 64
    → Stands (log ++ record_bytes key val prev) (length log) key val prev
Stands-new log key val prev key_len val_len prev_off = record {
  front = log;
  back = [];
  parts = ap (λ xs. log ++ (meta_bytes (new_meta key val prev) ++ (key ++ xs))) (append-nil val);
  at = refl;
  key_len = key_len;
  val_len = val_len;
  prev_off = prev_off;
}

-- An empty chain starts at 0, and one at 0 is empty.
pub Chain-zero :
    {log : List ℕ} {off : ℕ} {entries : List Entry} → Chain log off entries → off ≡ 0 → entries ≡ []
Chain-zero bottom e = refl
Chain-zero (link falls s rest) e = absurd (omega (arith, falls, e))

-- A chain starts inside a log that is not empty.
pub Chain-inside :
    {log : List ℕ} {off : ℕ} {entries : List Entry}
    → Chain log off entries
    → 0 < length log
    → off < length log
Chain-inside bottom some_bytes = some_bytes
Chain-inside (link falls s rest) some_bytes = omega (arith, sizes s)
