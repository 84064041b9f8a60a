-- ===== src/Kv/Tests.antt =====
-- Runs of p4/kvraw.c and p4/kvdb.c, and their theorems at concrete inputs.
use jitcompilation.Prelude.{
  ℕ, ◌+◌, ◌≡◌, refl, subst, Bool, true, some, List, [], ◌∷◌, ◌++◌, length, set, replicate, arith,
}
use jitcompilation.Index.Hash.{key_of}
use jitcompilation.Index.Table.{Index, answer, index_update}
use jitcompilation.Index.Reference.{Refers, index_update-Refers}
use jitcompilation.Log.Device.{Device, regular, geometry, device_open}
use jitcompilation.Log.Store.{Outside}
use jitcompilation.Log.Opening.{IsWhole, opened_log, opened_log-IsLog}
use jitcompilation.Kv.Meta.{Meta, meta_len, meta_bytes, meta_of, Fitting, meta_of-meta_bytes}
use jitcompilation.Kv.Raw.{Kvraw}
use jitcompilation.Kv.Records.{IsRaw, Storable, Stored, record_bytes, RoomFor, append-Stored}
use jitcompilation.Kv.Lookup.{Stands, Looked, found_of, lookup-Looked}
use jitcompilation.Kv.Chain.{bottom, link, Roomy, Searched, end_of, chain_lookup-Searched}
use jitcompilation.Kv.Db.{Kvdb, chain_lookup}
use jitcompilation.Kv.State.{IsDb, Stands-new}
use jitcompilation.Kv.Map.{Tells, kvdb_lookup-Tells}
use jitcompilation.Kv.Update.{Updated, kvdb_update-Updated}
use jitcompilation.Kv.Opening.{Opened, first_log, empty_lookup, kvdb_open-Opened}

-- A header of a record with a key of 300 bytes.
abbrev header : Meta
header = record { mark = (75, 86); off = 70000; key_len = 300; val_len = 5 }

header-Fitting : Fitting header
header-Fitting = record { off = omega arith; key_len = omega arith; val_len = omega arith }

header_stored :
    meta_bytes header ≡ 75 ∷ 86 ∷ 112 ∷ 17 ∷ 1 ∷ 0 ∷ 0 ∷ 0 ∷ 0 ∷ 0 ∷ 44 ∷ 1 ∷ 5 ∷ 0 ∷ 0 ∷ 0 ∷ []
unfolding meta_bytes
header_stored = refl

header_read : meta_of (meta_bytes header) ≡ header
header_read = meta_of-meta_bytes header header-Fitting

-- A file of 160 bytes with blocks of 16.
abbrev file : List ℕ
file = replicate 160 0

abbrev device : Device
device = record { bytes = file; size = 160; block = 16 }

device_there : device_open true true file (some (regular 160 16)) ≡ some device
unfolding device_open geometry
device_there = refl

device-IsWhole : IsWhole device
device-IsWhole = record {
  some_bytes = omega arith;
  extent = refl;
  whole = refl;
  bounded = omega arith;
  divides = refl;
}

abbrev outside : Outside
outside = record { works = λ n. true; rand = λ n. n }

abbrev all_fresh : ℕ → Bool
all_fresh n = true

kvdb_open-Opened_example : Opened outside all_fresh file (some (regular 160 16)) device
kvdb_open-Opened_example =
    kvdb_open-Opened outside (λ n. refl) all_fresh (λ n. refl) file (some (regular 160 16)) device
      device_there device-IsWhole (omega arith) (omega arith) (omega arith)

abbrev raw_start : Kvraw
raw_start = record {
  size = 0;
  logfs =
      opened_log all_fresh (λ n. refl) file (some (regular 160 16)) device device_there
        device-IsWhole;
}

raw_start-IsRaw : IsRaw raw_start []
raw_start-IsRaw = record {
  is_log =
      opened_log-IsLog all_fresh (λ n. refl) file (some (regular 160 16)) device device_there
        device-IsWhole;
  sized = refl;
}

zeros-Storable : Storable 16 (0 ∷ []) (0 ∷ [])
zeros-Storable = record {
  header = omega arith;
  some_key = omega arith;
  key_len = omega arith;
  val_len = omega arith;
  key_block = omega arith;
  val_block = omega arith;
}

append-Stored_example : Stored outside raw_start (0 ∷ []) (0 ∷ []) 0 []
append-Stored_example =
    append-Stored outside (λ n. refl) raw_start [] (0 ∷ []) (0 ∷ []) 0 raw_start-IsRaw
      zeros-Storable (omega arith, omega arith)

-- A database with the first record only.
abbrev first : Stored outside raw_start (0 ∷ []) (0 ∷ []) 0 []
first =
    append-Stored outside (λ n. refl) raw_start [] (0 ∷ []) (0 ∷ []) 0 raw_start-IsRaw
      zeros-Storable (omega arith, omega arith)

abbrev no_keys : Index
no_keys = record { size = 0; maps = [] }

abbrev db : Kvdb
db = record { size = 0; waste = 0; kvraw = first.after; index = no_keys }

db-IsDb : IsDb db first_log (λ hash. [])
db-IsDb = record {
  is_raw = first.is_raw;
  settled = λ j k off e filled. absurd (cc e);
  chains = λ key. rw (empty_lookup key) bottom;
}

first_size : length first_log ≡ 18
unfolding meta_bytes
first_size = refl

db-Roomy : Roomy first.after first_log
db-Roomy = (
  omega (arith, first_size, first.same.same_block, first.same.same_device),
  omega (arith, first.same.same_device),
)

abbrev key : List ℕ
key = 97 ∷ []

abbrev val : List ℕ
val = 1 ∷ 2 ∷ 3 ∷ []

kvdb_lookup-Tells_example : Tells outside db first_log (λ hash. []) key 8
kvdb_lookup-Tells_example =
    kvdb_lookup-Tells outside (λ n. refl) db first_log (λ hash. []) db-IsDb db-Roomy key 8 refl

abbrev one_key : Index
one_key = record { size = 1; maps = set (replicate 145 (0, 0)) 19 (3946091691140827964, 0) }

first_key : index_update true no_keys key ≡ answer (one_key, 19)
unfolding index_update key_of
first_key = refl

index_update-Refers_example : Refers no_keys (key_of key) one_key 19
index_update-Refers_example =
    index_update-Refers true no_keys key (λ j k off e filled. absurd (cc e)) first_key

-- The sizes of the device behind the first record.
sized_as : (first.after.logfs.device.block ≡ 16) × (first.after.logfs.device.size ≡ 160)
sized_as = (first.same.same_block, first.same.same_device)

key-Storable : Storable first.after.logfs.device.block key val
key-Storable = record {
  header = omega (arith, sized_as);
  some_key = omega arith;
  key_len = omega arith;
  val_len = omega arith;
  key_block = omega (arith, sized_as);
  val_block = omega (arith, sized_as);
}

key_room : RoomFor first.after (length first_log + meta_len + length key + length val)
key_room = (omega (arith, first_size, sized_as), omega (arith, sized_as))

kvdb_update-Updated_example : Updated outside true db key val
kvdb_update-Updated_example =
    kvdb_update-Updated outside (λ n. refl) db first_log (λ hash. []) db-IsDb key val
      (omega (arith, first_size)) (omega arith) key-Storable key_room true first_key

-- A second record, and the log with it.
abbrev second : Stored outside first.after key val 0 first_log
second =
    append-Stored outside (λ n. refl) first.after first_log key val 0 first.is_raw key-Storable
      key_room

abbrev second_log : List ℕ
second_log = first_log ++ record_bytes key val 0

second_size : length second_log ≡ 38
unfolding meta_bytes
second_size = refl

second-Stands : Stands second_log 18 key val 0
second-Stands =
    subst (λ off. Stands second_log off key val 0) first_size
      (Stands-new first_log key val 0 (omega arith) (omega arith) (omega arith))

second-Roomy : Roomy second.after second_log
second-Roomy = (
  omega (arith, second_size, sized_as, second.same.same_block, second.same.same_device),
  omega (arith, sized_as, second.same.same_device),
)

lookup-Looked_example : Looked outside second.after second_log 18 256 2 (found_of key val 0 256 2)
lookup-Looked_example =
    lookup-Looked outside (λ n. refl) second.after second_log second.is_raw second-Roomy.0
      second-Roomy.1 18 key val 0 second-Stands 256 2 (omega arith)

chain_lookup-Searched_example :
    Searched second.after second_log
      (end_of key 8 ((18, key, val) ∷ []))
      (chain_lookup outside true second.after key 8 18)
chain_lookup-Searched_example =
    chain_lookup-Searched outside (λ n. refl) second_log key 8
      (link (omega arith) second-Stands bottom) second.after second.is_raw second-Roomy
