-- ===== src/Rzip/Match.antt =====
-- `single_match_len` and `find_best_match` of src/rzip.c.
pub mod Laws
use lrzip_next.Common.{ℕ, zero, suc, ◌+◌, ◌-◌, ◌*◌, ◌^◌, max, bit_and, bit_or, Bool, true, false}
use lrzip_next.Common.{◌&&◌, ltb, leb, ◌==◌, if◌then◌else◌}
use lrzip_next.Rzip.State.{HashEntry, HashTable}

abbrev pub minimum_match : ℕ
minimum_match = 31

-- "Could give false positive on offset 0."
abbrev pub empty_hash : HashEntry → Bool
empty_hash he = bit_or he.offset he.t == 0

unfoldable pub primary_hash : HashTable → ℕ → ℕ
primary_hash table t = bit_and t (2 ^ table.hash_bits - 1)

-- `h++; h &= ((1 << st->hash_bits) - 1)`
unfoldable pub next_slot : HashTable → ℕ → ℕ
next_slot table h = bit_and (h + 1) (2 ^ table.hash_bits - 1)

-- `find_best_match` returns `length`; `offset` and `reverse` go out through pointers.
pub record Best : Type 0 where
  pub length : ℕ
  pub offset : ℕ
  pub reverse : ℕ
  pub tag_hits : ℕ
  pub tag_misses : ℕ

module _ (byte : ℕ → ℕ) where
  -- `while (p < end && buf[p] == buf[op]) { p++; op++; }`: the last `p`.
  unfoldable pub forward : ℕ → ℕ → ℕ → ℕ → ℕ
  forward zero p op end = p
  forward (suc fuel) p op end = elim (ltb p end && (byte p == byte op)) [
    | true ↦ forward fuel (p + 1) (op + 1) end
    | false ↦ p
  ]

  -- `while (p > end && op > 0 && buf[op - 1] == buf[p - 1]) { op--; p--; }`: the last `p`.
  unfoldable pub backward : ℕ → ℕ → ℕ → ℕ → ℕ
  backward zero p op end = p
  backward (suc fuel) p op end = elim (ltb end p && ltb 0 op && (byte (op - 1) == byte (p - 1))) [
    | true ↦ backward fuel (p - 1) (op - 1) end
    | false ↦ p
  ]

  -- The length and `*rev`. Each loop moves `p` towards its bound. `last_match` is not negative.
  unfoldable pub match_len : ℕ → ℕ → ℕ → ℕ → ℕ × ℕ
  unfolding forward backward
  match_len last_match p0 op end =
      if leb p0 op
      then (0, 0)
      else let len = forward (end - p0) p0 op end - p0 in
        let rev = p0 - backward p0 p0 op (max 0 last_match) in
        if ltb (len + rev) minimum_match then (0, rev) else (len + rev, rev)

  -- One occupied slot of the chain.
  unfoldable pub consider : ℕ → ℕ → ℕ → ℕ → HashEntry → Best → Best
  unfolding match_len
  consider last_match t p end he best =
      let (mlen, rev) = match_len last_match p he.offset end in
      if t == he.t
      then if mlen == 0
        then record best { tag_misses = best.tag_misses + 1 }
        else if ltb best.length mlen
        then record {
          length = mlen;
          offset = he.offset - rev;
          reverse = rev;
          tag_hits = best.tag_hits + 1;
          tag_misses = best.tag_misses;
        }
        else record best { tag_hits = best.tag_hits + 1 }
      else best

  -- `while (!empty_hash(he))`, on fuel.
  unfoldable pub best_loop : ℕ → HashTable → ℕ → ℕ → ℕ → ℕ → ℕ → Best → Best
  unfolding consider next_slot
  best_loop zero table last_match t p end h best = best
  best_loop (suc fuel) table last_match t p end h best = elim (empty_hash (table.slots h)) [
    | true ↦ best
    | false ↦
        best_loop fuel table last_match t p end (next_slot table h)
          (consider last_match t p end (table.slots h) best)
  ]

  -- A table with an empty slot stops the loop before it comes round.
  unfoldable pub find_best_match : HashTable → ℕ → ℕ → ℕ → ℕ → ℕ → ℕ → Best
  unfolding best_loop primary_hash
  find_best_match table last_match t p end hits misses =
      best_loop (2 ^ table.hash_bits) table last_match t p end (primary_hash table t)
        (record { length = 0; offset = 0; reverse = 0; tag_hits = hits; tag_misses = misses })
