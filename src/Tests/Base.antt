-- ===== src/Tests/Base.antt =====
-- The data of the tests: a chunk of 40 bytes that repeats every four, and an archive of two tokens.
use lrzip_next.Common.{ℕ, ◌+◌, ◌*◌, ◌%◌, refl, sym, arith, Bool, true, none, ◌==◌, if◌then◌else◌}
use lrzip_next.Common.{List, [], ◌∷◌, length, flatten, append-nil}
use lrzip_next.Stream.Out.{StreamInfo}
use lrzip_next.Stream.Out.Laws.{IsValid, Holds, written, blocks_of}
use lrzip_next.Rzip.State.{HashTable, RzipState}
use lrzip_next.Rzip.Put.Token.{Token, literal, copy}
use lrzip_next.Rzip.Put.Laws.{Encodes}
use lrzip_next.Rzip.Search.{Env}
use lrzip_next.Runzip.{Runzip}

abbrev pub every_four : ℕ → ℕ
every_four i = i % 4

abbrev pub streams : StreamInfo
streams = record { bufsize = 4; s0 = []; s1 = []; jobs = [] }

abbrev pub fresh : RzipState
fresh = record {
  ss = streams;
  level = record { mb_used = 1; initial_freq = 0; max_chain_len = 2 };
  hash_index = λ (b : ℕ). b * 7 + 1;
  hash_table = none;
  last_match = 0;
  chunk_size = 40;
  chunk_bytes = 1;
  cksum = 0;
  stats = record {
    inserts = 0;
    literals = 0;
    literal_bytes = 0;
    matches = 0;
    match_bytes = 0;
    tag_hits = 0;
    tag_misses = 0;
  };
}

abbrev pub small_env : Bool → Env
small_env has_hash = record {
  page_size = 4096;
  maxram = 8192;
  can_malloc = λ (n : ℕ). true;
  has_hash = has_hash;
  crc = λ (xs : List ℕ). length xs;
}

-- One entry, for the tag 7, at offset 4.
abbrev pub one_entry : HashTable
one_entry = record {
  slots = λ (i : ℕ). if i == 7 then record { offset = 4; t = 7 } else record { offset = 0; t = 0 };
  hash_bits = 4;
  hash_count = 1;
  hash_limit = 10;
  minimum_tag_mask = 0;
  tag_clean_ptr = 0;
  victim_round = 0;
}

pub streams-IsValid : IsValid streams
streams-IsValid = record { room0 = omega arith; room1 = omega arith; full = tt }

pub streams-Holds : Holds streams [] []
unfolding written blocks_of flatten
streams-Holds = record { valid = streams-IsValid; held0 = refl; held1 = refl }

pub fresh-Encodes : Encodes every_four 1 streams 0
fresh-Encodes = (
  [],
  record { holds = streams-Holds; fits = tt; spans = refl; expands = λ out. sym (append-nil out) },
)

-- Two literal bytes and a copy of them that runs into itself.
abbrev pub two_tokens : List Token
two_tokens = literal (1 ∷ 2 ∷ []) ∷ copy 2 3 ∷ []

abbrev pub token_bytes : List ℕ
token_bytes = 0 ∷ 2 ∷ 0 ∷ 1 ∷ 3 ∷ 0 ∷ 2 ∷ []

-- The two streams with a CRC.
abbrev pub archive : ℕ → Runzip
archive cksum = record {
  s0 = record {
    buf = [];
    bufp = 0;
    blocks = token_bytes ∷ (0 ∷ 0 ∷ 0 ∷ cksum ∷ 0 ∷ 0 ∷ 0 ∷ []) ∷ [];
  };
  s1 = record { buf = []; bufp = 0; blocks = (1 ∷ 2 ∷ []) ∷ [] };
  out = [];
  summed = [];
  hashed = [];
}
