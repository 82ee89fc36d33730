-- ===== src/Rzip/State.antt =====
-- The state of src/rzip.c: `struct rzip_state`, `struct hash_entry` and `struct level`.
use lrzip_next.Common.{ℕ, Option}
use lrzip_next.Stream.Out.{StreamInfo}

-- `struct hash_entry`. A tag is the bit pattern of an `i64`.
pub record HashEntry : Type 0 where
  pub offset : ℕ
  pub t : ℕ

-- One of `levels[10]`.
pub record Level : Type 0 where
  pub mb_used : ℕ
  pub initial_freq : ℕ
  pub max_chain_len : ℕ

-- The hash table with the fields that its functions share; `victim_round` is the static variable of
-- `insert_hash`. Slots are read and written only below 2 ^ hash_bits.
pub record HashTable : Type 0 where
  pub slots : ℕ → HashEntry
  pub hash_bits : ℕ
  pub hash_count : ℕ
  pub hash_limit : ℕ
  pub minimum_tag_mask : ℕ
  pub tag_clean_ptr : ℕ
  pub victim_round : ℕ

pub record Stats : Type 0 where
  pub inserts : ℕ
  pub literals : ℕ
  pub literal_bytes : ℕ
  pub matches : ℕ
  pub match_bytes : ℕ
  pub tag_hits : ℕ
  pub tag_misses : ℕ

-- `struct rzip_state`, less the descriptors. `hash_table` is `none` for the null pointer.
pub record RzipState : Type 0 where
  pub ss : StreamInfo
  pub level : Level
  pub hash_index : ℕ → ℕ
  pub hash_table : Option HashTable
  pub last_match : ℕ
  pub chunk_size : ℕ
  pub chunk_bytes : ℕ
  pub cksum : ℕ
  pub stats : Stats
