-- ===== src/Rzip/Search.antt =====
-- `hash_search` of src/rzip.c for a chunk that is mapped whole: the loop over the chunk, its state and its
-- parts in their order.
pub mod Inv
pub mod Ends
pub mod Result
pub mod Granted
pub mod Returns
use lrzip_next.Common.{ℕ, zero, suc, ◌+◌, ◌-◌, ◌*◌, ◌/◌, ◌%◌, ◌^◌, min, bit_and, Bool, true, false}
use lrzip_next.Common.{List, [], ◌∷◌, ◌++◌, Option, none, some, ◌&&◌, ◌||◌, not, ltb, leb, ◌==◌}
use lrzip_next.Common.{if◌then◌else◌}
use mathlib.Core.Option
use lrzip_next.Util.Page.{round_to_page}
use lrzip_next.Rzip.State.{HashEntry, HashTable, RzipState, Stats}
use lrzip_next.Rzip.Slice.{slice}
use lrzip_next.Rzip.Put.{put_u32, put_literal, put_match}
use lrzip_next.Rzip.Match.{minimum_match, Best, find_best_match}
use lrzip_next.Rzip.Tag.{next_tag, full_tag}
use lrzip_next.Rzip.Hash.{insert_hash, clean_one_from_hash}

-- What the loop takes from outside: the page size, `control->maxram`, which sizes `malloc` grants,
-- `HAS_HASH`, and gcrypt's CRC of a run of bytes.
pub record Env : Type 0 where
  pub page_size : ℕ
  pub maxram : ℕ
  pub can_malloc : ℕ → Bool
  pub has_hash : Bool
  pub crc : List ℕ → ℕ

-- The local variables of `hash_search`, with the state that it updates. `summed` and `hashed` are the
-- bytes given to `crc_handle` and to `hash_handle`. `granted` says that `malloc` has granted every piece
-- for the checksum so far; where it has not, the program has ended.
pub record Search : Type 0 where
  pub st : RzipState
  pub table : HashTable
  pub p : ℕ
  pub t : ℕ
  pub tag_mask : ℕ
  pub current_p : ℕ
  pub current_ofs : ℕ
  pub current_len : ℕ
  pub cksum_limit : ℕ
  pub summed : List ℕ
  pub hashed : List ℕ
  pub granted : Bool

abbrev pub great_match : ℕ
great_match = 1024

-- `chunk_size - MINIMUM_MATCH`. Where C has a negative number this is 0, and no test tells them
-- apart, since `p` is not negative.
abbrev pub end_of : RzipState → ℕ
end_of st = st.chunk_size - minimum_match

-- `for (hash_bits = 0; (1U << hash_bits) < hashsize; hash_bits++)`, on fuel for 32 bits.
unfoldable pub bits_loop : ℕ → ℕ → ℕ → ℕ
bits_loop zero bits hashsize = bits
bits_loop (suc n) bits hashsize = elim (ltb (2 ^ bits) hashsize) [
  | true ↦ bits_loop n (bits + 1) hashsize
  | false ↦ bits
]

abbrev pub no_entry : ℕ → HashEntry
no_entry i = record { offset = 0; t = 0 }

abbrev pub initial_mask : RzipState → ℕ
initial_mask st = 2 ^ st.level.initial_freq - 1

-- A fresh table on the first chunk, for whose size an entry counts 16 bytes; the old one cleared on
-- the others.
unfoldable pub clear_table : RzipState → Option HashTable → HashTable
unfolding bits_loop
clear_table st (some table) = record table {
  slots = no_entry;
  minimum_tag_mask = initial_mask st;
  tag_clean_ptr = 0;
  hash_count = 0;
}
clear_table st none =
    let bits = bits_loop 32 0 (st.level.mb_used * (1_048_576 / 16)) in
    record {
      slots = no_entry;
      hash_bits = bits;
      hash_count = 0;
      hash_limit = 2 ^ bits / 3 * 2;
      minimum_tag_mask = initial_mask st;
      tag_clean_ptr = 0;
      victim_round = 0;
    }

-- `gcry_md_write` to the CRC, and to the hash where there is one.
abbrev pub md_write : Env → List ℕ → Search → Search
md_write env bytes s = record s {
  summed = s.summed ++ bytes;
  hashed = if env.has_hash then s.hashed ++ bytes else s.hashed;
}

-- A table that is too full loses an entry, and the mask for new ones gets better.
unfoldable pub trim : HashTable → ℕ → HashTable × ℕ
trim table mask =
    if ltb table.hash_limit table.hash_count then clean_one_from_hash table else (table, mask)

module _ (env : Env) (byte : ℕ → ℕ) where
  unfoldable pub start : RzipState → List ℕ → Search
  unfolding clear_table full_tag
  start st hashed = record {
    st = record st { cksum = 0; last_match = 0 };
    table = clear_table st st.hash_table;
    p = 0;
    t = if ltb 0 (end_of st) then full_tag byte st.hash_index 0 else 0;
    tag_mask = initial_mask st;
    current_p = 0;
    current_ofs = 0;
    current_len = 0;
    cksum_limit = 0;
    summed = [];
    hashed = hashed;
    granted = true;
  }

  -- `++p` and the tag of the new window.
  unfoldable pub advance : Search → Search
  advance s = record s { p = s.p + 1; t = next_tag byte s.st.hash_index (s.p + 1) s.t }

  -- "Only insert occasionally into hash."
  unfoldable pub insert_round : Search → Search
  unfolding trim
  insert_round s =
      let counted = record (s.table) { hash_count = s.table.hash_count + 1 } in
      let (table, mask) = trim (insert_hash s.st.level.max_chain_len counted s.t s.p) s.tag_mask in
      let st = record (s.st) { stats = record (s.st.stats) { inserts = s.st.stats.inserts + 1 } } in
      if bit_and s.t s.tag_mask == s.tag_mask
      then record s { st = st; table = table; tag_mask = mask }
      else s

  -- The search for a match, the insertion, and the choice between the match and the current one.
  unfoldable pub look_up : Search → Search
  unfolding insert_round
  look_up s =
      let best =
        find_best_match byte s.table s.st.last_match s.t s.p (end_of s.st) s.st.stats.tag_hits
          s.st.stats.tag_misses in
      let counted = record s {
        st = record (s.st) {
          stats = record (s.st.stats) { tag_hits = best.tag_hits; tag_misses = best.tag_misses };
        };
      } in
      let s' = insert_round counted in
      if ltb s.current_len best.length
      then record s' {
        current_p = s.p - best.reverse;
        current_len = best.length;
        current_ofs = best.offset;
      }
      else s'

  -- The match is good enough, or the search is past it.
  abbrev pub ready : Search → Bool
  ready s =
      (leb great_match s.current_len || leb (s.current_p + minimum_match) s.p)
      && leb minimum_match s.current_len

  unfoldable pub emit : Search → Search
  emit s =
      let st =
        if ltb s.st.last_match s.current_p
        then put_literal byte s.st s.st.last_match s.current_p
        else s.st in
      let st' = put_match st s.current_p s.current_ofs s.current_len in
      let next = s.current_p + s.current_len in
      if ready s
      then record s {
        st = record st' { last_match = next };
        current_p = next;
        p = next;
        current_len = 0;
        t = full_tag byte s.st.hash_index next;
      }
      else s

  -- `if (p > cksum_limit)`: one more piece for the checksum thread, which the semaphore makes wait
  -- its turn.
  unfoldable pub cksum_round : Search → Search
  cksum_round s =
      let len = min (s.st.chunk_size - s.p) env.page_size in
      if ltb s.cksum_limit s.p
      then record (md_write env (slice byte s.cksum_limit len) s) {
        cksum_limit = s.cksum_limit + len;
        granted = s.granted && env.can_malloc len;
      }
      else s

  -- "Don't look for a match if there are no tags with this number of bits in the hash table." In front of
  -- it `remap_low_sb` moves the low map of the sliding mode; for a chunk that is mapped whole there is
  -- nothing to move.
  unfoldable pub step : Search → Search
  unfolding advance look_up emit cksum_round
  step s =
      let s' = advance s in
      let mask = s'.table.minimum_tag_mask in
      if bit_and s'.t mask == mask then cksum_round (emit (look_up s')) else s'

  -- `while (p < end)`, on fuel.
  unfoldable pub search_loop : ℕ → Search → Search
  unfolding step
  search_loop zero s = s
  search_loop (suc fuel) s = elim (ltb s.p (end_of s.st)) [
    | true ↦ search_loop fuel (step s)
    | false ↦ s
  ]

  -- `p` goes back to the end of a match that is emitted late, so the bound is not the number of
  -- bytes: each match may have the rest of the chunk searched again.
  abbrev pub enough : RzipState → ℕ
  enough st = (end_of st + 1) * (end_of st + 1)

  -- The largest buffer for the rest of the checksum that `malloc` grants, on fuel.
  unfoldable pub ckbuf_loop : ℕ → ℕ → Option ℕ
  unfolding round_to_page
  ckbuf_loop zero cksum_len = none
  ckbuf_loop (suc fuel) cksum_len =
      let rounded = round_to_page env.page_size cksum_len in
      let less = rounded / 3 * 2 in
      let rest = ckbuf_loop fuel less in
      if env.can_malloc rounded then some rounded else if ltb less env.page_size then none else rest

  -- `for (i = 0; i < cksum_chunks; i++)` and the remains.
  unfoldable pub cksum_tail : ℕ → ℕ → ℕ → Search → Search
  cksum_tail zero cksum_len remains s = md_write env (slice byte s.cksum_limit remains) s
  cksum_tail (suc chunks) cksum_len remains s =
      cksum_tail chunks cksum_len remains
        (record (md_write env (slice byte s.cksum_limit cksum_len) s) {
          cksum_limit = s.cksum_limit + cksum_len;
        })

  -- The checksum of what the loop has left. `none` is the fatal error without memory.
  unfoldable pub cksum_rest : Search → Option Search
  unfolding ckbuf_loop cksum_tail
  cksum_rest s =
      let left = s.st.chunk_size - s.cksum_limit in
      let tail = λ (cksum_len : ℕ). cksum_tail (left / cksum_len) cksum_len (left % cksum_len) s in
      if ltb s.cksum_limit s.st.chunk_size
      then Option.map tail (ckbuf_loop (env.maxram + env.page_size + 1) env.maxram)
      else some s

  -- The last literal bytes.
  unfoldable pub rest_literal : Search → Search
  rest_literal s = record s {
    st =
        if ltb s.st.last_match s.st.chunk_size
        then put_literal byte s.st s.st.last_match s.st.chunk_size
        else s.st;
  }

  -- The empty literal that ends the chunk, and the checksum.
  unfoldable pub finish : Search → RzipState × List ℕ
  finish s =
      let cksum = env.crc s.summed in
      let st = put_literal byte s.st 0 0 in
      (record st { ss = put_u32 st.ss cksum; cksum = cksum; hash_table = some s.table }, s.hashed)

  -- `none` is the fatal error without memory, in the loop or behind it.
  unfoldable pub hash_search : RzipState → List ℕ → Option (RzipState × List ℕ)
  unfolding start search_loop cksum_rest rest_literal finish
  hash_search st hashed =
      let s = search_loop (enough st) (start st hashed) in
      if s.granted then Option.map finish (cksum_rest (rest_literal s)) else none
