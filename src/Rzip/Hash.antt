-- ===== src/Rzip/Hash.antt =====
-- The hash table of src/rzip.c: `insert_hash` and `clean_one_from_hash`.
use lrzip_next.Common.{ℕ, zero, suc, ◌+◌, ◌-◌, ◌*◌, ◌/◌, ◌%◌, ◌^◌, bit_and, bit_or, bit_xor}
use lrzip_next.Common.{Bool, true, false, not, ltb, ◌==◌, if◌then◌else◌}
use lrzip_next.Rzip.State.{HashEntry, HashTable}
use lrzip_next.Rzip.Match.{empty_hash, primary_hash, next_slot}

-- `(tag_mask << 1) | 1`, on 64 bits.
unfoldable pub increase_mask : ℕ → ℕ
increase_mask tag_mask = bit_or (tag_mask * 2 % 2 ^ 64) 1

-- `(t & better_than_min) != better_than_min`
unfoldable pub minimum_bitness : HashTable → ℕ → Bool
unfolding increase_mask
minimum_bitness table t =
    let better_than_min = increase_mask table.minimum_tag_mask in
    not (bit_and t better_than_min == better_than_min)

-- `ffsll`: the place of the lowest one, counted from 1, and 0 where there is none; the place that
-- the loop has reached is `i`, over the bits that are left.
unfoldable pub ffs_loop : ℕ → ℕ → ℕ → ℕ
ffs_loop zero i a = 0
ffs_loop (suc n) i a = elim (a % 2 == 1) [ true ↦ i | false ↦ ffs_loop n (i + 1) (a / 2) ]

unfoldable pub lesser_bitness : ℕ → ℕ → Bool
unfolding ffs_loop
lesser_bitness a b =
    ltb (ffs_loop 64 1 (bit_xor a 0xffff_ffff_ffff_ffff))
      (ffs_loop 64 1 (bit_xor b 0xffff_ffff_ffff_ffff))

abbrev pub store : HashTable → ℕ → HashEntry → HashTable
store table h he = record table { slots = λ (i : ℕ). if i == h then he else table.slots i }

-- `if (++victim_round == max_chain_len) victim_round = 0`, as the code writes it after the count.
abbrev pub next_victim : ℕ → HashTable → HashTable
next_victim max_chain_len table = record table {
  hash_count = table.hash_count - 1;
  victim_round = if table.victim_round + 1 == max_chain_len then 0 else table.victim_round + 1;
}

-- The slot to kill is noted in the round that `victim_round` names.
abbrev pub victim : HashTable → ℕ → ℕ → ℕ → ℕ
victim table round h victim_h = if round == table.victim_round then h else victim_h

-- `while (!empty_hash(he))` with the store behind it, on fuel. A better entry than the occupant has
-- the occupant inserted anew, by the same code, and takes its slot.
unfoldable pub insert_loop : ℕ → ℕ → HashTable → ℕ → ℕ → ℕ → ℕ → ℕ → HashTable
unfolding minimum_bitness lesser_bitness next_slot primary_hash
insert_loop zero max_chain_len table t offset h victim_h round = table
insert_loop (suc fuel) max_chain_len table t offset h victim_h round =
    let he = table.slots h in
    let new : HashEntry = record { offset = offset; t = t } in
    let moved = insert_loop fuel max_chain_len table he.t he.offset (primary_hash table he.t) 0 0 in
    let victim_h' = victim table round h victim_h in
    let killed = store (next_victim max_chain_len table) victim_h' new in
    let same_next =
      insert_loop fuel max_chain_len table t offset (next_slot table h) victim_h' (round + 1) in
    let next = insert_loop fuel max_chain_len table t offset (next_slot table h) victim_h round in
    if empty_hash he
    then store table h new
    else if minimum_bitness table he.t
    then store (record table { hash_count = table.hash_count - 1 }) h new
    else if lesser_bitness he.t t
    then store moved h new
    else if he.t == t
    then (if round + 1 == max_chain_len then killed else same_next)
    else next

-- The tags have 64 bits, so an entry can displace another 65 times at most, and each walk passes
-- every slot once at most.
unfoldable pub insert_hash : ℕ → HashTable → ℕ → ℕ → HashTable
unfolding insert_loop
insert_hash max_chain_len table t offset =
    insert_loop (65 * 2 ^ table.hash_bits) max_chain_len table t offset (primary_hash table t) 0 0

-- The `for` of `clean_one_from_hash` from `tag_clean_ptr` on, with `n` slots left. `true` says that
-- an entry was dropped.
unfoldable pub sweep : ℕ → HashTable → HashTable × Bool
unfolding minimum_bitness
sweep zero table = (table, false)
sweep (suc n) table =
    let he = table.slots table.tag_clean_ptr in
    let dropped = record (store table table.tag_clean_ptr (record { offset = 0; t = 0 })) {
      hash_count = table.hash_count - 1;
    } in
    let rest = sweep n (record table { tag_clean_ptr = table.tag_clean_ptr + 1 }) in
    if empty_hash he then rest else if minimum_bitness table he.t then (dropped, true) else rest

-- `goto again` with the better mask, on fuel. The result is the table and the tag requirement.
unfoldable pub clean_loop : ℕ → HashTable → HashTable × ℕ
unfolding sweep increase_mask
clean_loop zero table = (table, increase_mask table.minimum_tag_mask)
clean_loop (suc fuel) table =
    let better_than_min = increase_mask table.minimum_tag_mask in
    let (table', dropped) = sweep (2 ^ table.hash_bits - table.tag_clean_ptr) table in
    let rest =
      clean_loop fuel (record table' { minimum_tag_mask = better_than_min; tag_clean_ptr = 0 }) in
    if dropped then (table', better_than_min) else rest

-- After 64 rounds the mask is all ones.
unfoldable pub clean_one_from_hash : HashTable → HashTable × ℕ
unfolding clean_loop
clean_one_from_hash table = clean_loop 65 table
