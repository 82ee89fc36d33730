-- ===== src/Magic.antt =====
-- The magic header of src/lrzip.c: `write_magic`, `get_magic` for each version, and `read_magic`.
-- A byte array is the list of its bytes.
pub mod Codes
pub mod Laws
pub mod Whole
use lrzip_next.Common.{
  ℕ, zero, suc, ◌+◌, ◌-◌, ◌*◌, ◌/◌, ◌%◌, ◌^◌, Bool, true, false, ◌&&◌, not, ltb, leb, ◌==◌,
}
use lrzip_next.Common.{
  List, [], ◌∷◌, ◌++◌, length, take, drop, get_or, replicate, if◌then◌else◌, bit_and,
}
use lrzip_next.Bytes.{le_bytes, of_le}
use lrzip_next.Runzip.{Error, fatal, failed, Result, ok, err, ◌>>=◌, ◌>>◌, guard}
use lrzip_next.Magic.Codes.{
  lzma2_dic_size_from_prop, lzma2_prop_from_dic, bzip3_block_size_from_prop,
  bzip3_prop_from_block_size,
}

-- The back end that the flags choose, of those that leave something in the header.
pub data Ctype : Type 0 where
  lzma zpaq bzip3 zstd other : Ctype

-- The fields of `rzip_control` that the header holds; `salt` has 8 bytes, and the bytes of
-- `comment` are those before its terminating 0.
pub record Control : Type 0 where
  pub major_version : ℕ
  pub minor_version : ℕ
  pub encrypt : Bool
  pub enc_code : ℕ
  pub salt : List ℕ
  pub costfactor : ℕ
  pub eof : Bool
  pub st_size : ℕ
  pub hashed : Bool
  pub hash_code : ℕ
  pub filter_flag : ℕ
  pub delta : ℕ
  pub ctype : Ctype
  pub dict_size : ℕ
  pub lzma_properties : List ℕ
  pub zpaq_level : ℕ
  pub zpaq_bs : ℕ
  pub bzip3_bs : ℕ
  pub bzip3_block_size : ℕ
  pub zstd_strategy : ℕ
  pub zstd_level : ℕ
  pub rzip_compression_level : ℕ
  pub compression_level : ℕ
  pub comment : List ℕ

abbrev pub filter_flag_delta : ℕ
filter_flag_delta = 128

-- magic[6 + i]: the salt, or the size where it is known.
unfoldable pub size_byte : Control → ℕ → ℕ
size_byte c i =
    if c.encrypt then get_or c.salt i 0 else if c.eof then get_or (le_bytes 8 c.st_size) i 0 else 0

-- magic[16]
unfoldable pub filter_byte : Control → ℕ
filter_byte c =
    if ltb 0 c.filter_flag
    then if c.filter_flag == filter_flag_delta
      then (128 + (if leb c.delta 16 then c.delta else c.delta / 16 + 15)) % 256
      else c.filter_flag % 256
    else 0

-- magic[17] and magic[18]
unfoldable pub ctype_bytes : Ctype → Control → ℕ × ℕ
unfolding lzma2_prop_from_dic bzip3_prop_from_block_size
ctype_bytes lzma c = (1, lzma2_prop_from_dic c.dict_size)
ctype_bytes zpaq c = (2, (c.zpaq_level * 16 + c.zpaq_bs) % 256)
ctype_bytes bzip3 c = (3, bzip3_prop_from_block_size c.bzip3_block_size)
ctype_bytes zstd c = ((c.zstd_strategy * 16 + 4) % 256, c.zstd_level % 256)
ctype_bytes other c = (0, 0)

-- What is written at the beginning of the archive, by a program of this version.
unfoldable pub write_magic : ℕ → ℕ → Control → List ℕ
unfolding size_byte filter_byte ctype_bytes
write_magic major minor c =
    (76
      ∷ 82
      ∷ 90
      ∷ 73
      ∷ major
      ∷ minor
      ∷ size_byte c 0
      ∷ size_byte c 1
      ∷ size_byte c 2
      ∷ size_byte c 3
      ∷ size_byte c 4
      ∷ size_byte c 5
      ∷ size_byte c 6
      ∷ size_byte c 7
      ∷ (if c.hashed then c.hash_code else 0)
      ∷ (if c.encrypt then c.enc_code else 0)
      ∷ filter_byte c
      ∷ (ctype_bytes c.ctype c).0
      ∷ (ctype_bytes c.ctype c).1
      ∷ (c.rzip_compression_level * 16 + c.compression_level) % 256
      ∷ length c.comment % 256
      ∷ [])
    ++ c.comment

-- `get_lzma_prop`: five bytes as they are.
unfoldable pub get_lzma_prop : Control → List ℕ → Control
get_lzma_prop c magic = record c { lzma_properties = take 5 magic }

-- An unknown hash leaves the flags as they are.
unfoldable pub get_hash_from_magic : Control → ℕ → Control
get_hash_from_magic c magic =
    if ltb 0 magic && leb magic 13 then record c { hashed = true; hash_code = magic } else c

unfoldable pub get_encryption : Control → ℕ → List ℕ → Control
get_encryption c magic salt =
    if ltb 0 magic && leb magic 2
    then record c {
      encrypt = true;
      enc_code = magic;
      salt = take 8 salt;
      costfactor = get_or salt 0 0;
      st_size = 0;
    }
    else if c.encrypt
    then record c { encrypt = false; enc_code = 0 }
    else c

unfoldable pub get_expected_size : Control → List ℕ → Control
get_expected_size c magic = record c { st_size = of_le (take 8 (drop 6 magic)) }

-- "delta offset stored as value": 1 to 16, then 32, 48 up to 256.
unfoldable pub delta_of : ℕ → ℕ
delta_of i = if leb i 16 then i else (i - 15) * 16

-- Before 0.12 the value is one less.
unfoldable pub old_delta_of : ℕ → ℕ
old_delta_of i = if leb i 16 then i + 1 else (i - 16 + 1) * 16

unfoldable pub get_filter : Control → ℕ → Control
unfolding delta_of old_delta_of
get_filter c magic =
    if magic == 0
    then c
    else if ltb c.minor_version 12
    then record c {
      filter_flag = bit_and magic 0b111;
      delta =
          if bit_and magic 0b111 == 7
          then old_delta_of (bit_and magic 0b1111_1000 / 8)
          else c.delta;
    }
    else if c.minor_version == 12
    then if bit_and magic 0b1111_1000 == 0
      then record c { filter_flag = magic }
      else record c { filter_flag = filter_flag_delta; delta = delta_of (magic / 8) }
    else if ltb 128 magic
    then record c { filter_flag = filter_flag_delta; delta = delta_of (magic - 128) }
    else record c { filter_flag = magic }

-- The dictionary in the form of the LZMA decoder: constant lc, lp and pb, then the size.
unfoldable pub get_dictionary : Control → ℕ → Control
unfolding lzma2_dic_size_from_prop
get_dictionary c prop = record c {
  dict_size = lzma2_dic_size_from_prop prop;
  lzma_properties = 0x5d ∷ le_bytes 4 (lzma2_dic_size_from_prop prop);
}

unfoldable pub get_bzip3 : Control → ℕ → Control
unfolding bzip3_block_size_from_prop
get_bzip3 c prop = record c { bzip3_bs = prop; bzip3_block_size = bzip3_block_size_from_prop prop }

-- "if (!magic[at]) get_expected_size(control, magic)"
unfoldable pub get_size_at : ℕ → Control → List ℕ → Control
unfolding get_expected_size
get_size_at at c magic = if get_or magic at 0 == 0 then get_expected_size c magic else c

unfoldable pub get_magic_v6 : Control → List ℕ → Control
unfolding get_size_at get_lzma_prop get_hash_from_magic get_encryption
get_magic_v6 c magic =
    let c1 = get_size_at 22 c magic in
    let c2 = if get_or magic 16 0 == 0 then c1 else get_lzma_prop c1 (drop 16 magic) in
    let c3 = get_hash_from_magic c2 (get_or magic 21 0) in
    get_encryption c3 (get_or magic 22 0) (drop 6 magic)

unfoldable pub get_magic_v7 : Control → List ℕ → Control
unfolding get_size_at get_lzma_prop get_hash_from_magic get_encryption get_filter
get_magic_v7 c magic =
    let c1 = get_encryption (get_size_at 23 c magic) (get_or magic 23 0) (drop 6 magic) in
    let c2 = get_filter c1 (get_or magic 16 0) in
    let c3 = if get_or magic 17 0 == 0 then c2 else get_lzma_prop c2 (drop 17 magic) in
    get_hash_from_magic c3 (get_or magic 22 0)

-- magic[17] of version 8: a dictionary, a block size of bzip3, or a block size and level of zpaq.
unfoldable pub get_ctype_v8 : Control → ℕ → Control
unfolding get_dictionary get_bzip3
get_ctype_v8 c b =
    if ltb 0 b && leb b 40
    then get_dictionary c b
    else if bit_and b 0b1000_0000 == 0
    then c
    else if bit_and b 0b1111_0000 == 0b1111_0000
    then get_bzip3 c (bit_and b 0b1111)
    else record c { zpaq_bs = bit_and b 0b1111; zpaq_level = bit_and b 0b0111_0000 / 16 }

unfoldable pub get_magic_v8 : Control → List ℕ → Control
unfolding get_size_at get_hash_from_magic get_encryption get_filter get_ctype_v8
get_magic_v8 c magic =
    let c1 = get_encryption (get_size_at 15 c magic) (get_or magic 15 0) (drop 6 magic) in
    let c2 = get_filter c1 (get_or magic 16 0) in
    let c3 = get_ctype_v8 c2 (get_or magic 17 0) in get_hash_from_magic c3 (get_or magic 14 0)

-- The two levels in one byte.
unfoldable pub get_levels : Control → ℕ → Control
get_levels c b = record c { compression_level = b % 16; rzip_compression_level = b / 16 }

-- What `read` finds in the file: a short read is fatal.
unfoldable pub read_bytes : List ℕ → ℕ → Result (List ℕ × List ℕ)
read_bytes input n = if ltb (length input) n then err fatal else ok (take n input, drop n input)

-- The comment of so many bytes, from a file that is not standard input.
unfoldable pub get_comment : Control → List ℕ → ℕ → Result (Control × List ℕ)
unfolding read_bytes
get_comment c input n = do (bs, input') ← read_bytes input n; ok (record c { comment = bs }, input')

unfoldable pub get_magic_v9 : Control → List ℕ → List ℕ → Result (Control × List ℕ)
unfolding get_levels get_comment
get_magic_v9 c input magic =
    let c1 = get_levels c (get_or magic 18 0) in
    if get_or magic 19 0 == 0 then ok (c1, input) else get_comment c1 input (get_or magic 19 0)

-- magic[17] and magic[18] since version 11.
unfoldable pub get_ctype : Control → ℕ → ℕ → Result Control
unfolding get_dictionary get_bzip3
get_ctype c kind b =
    if kind == 1
    then ok (get_dictionary c b)
    else if kind == 2
    then ok (record c { zpaq_bs = b % 16; zpaq_level = b / 16 })
    else if kind == 3
    then ok (get_bzip3 c (b % 16))
    else if kind % 16 == 4
    then ok (record c { zstd_strategy = kind / 16; zstd_level = b })
    else if kind == 0
    then ok c
    else err fatal

unfoldable pub get_magic_v11 : Control → List ℕ → List ℕ → Result (Control × List ℕ)
unfolding get_size_at get_hash_from_magic get_encryption get_filter get_ctype get_levels get_comment
get_magic_v11 c input magic = do
  let c1 = get_encryption (get_size_at 15 c magic) (get_or magic 15 0) (drop 6 magic)
  let c2 = get_filter c1 (get_or magic 16 0)
  c3 ← get_ctype c2 (get_or magic 17 0) (get_or magic 18 0)
  let c4 = get_levels (get_hash_from_magic c3 (get_or magic 14 0)) (get_or magic 19 0)
  if get_or magic 20 0 == 0 then ok (c4, input) else get_comment c4 input (get_or magic 20 0)

-- The default of the `switch` is the result false. A file of another major version passes.
unfoldable pub get_magic : Control → List ℕ → List ℕ → Result (Control × List ℕ)
unfolding get_magic_v6 get_magic_v7 get_magic_v8 get_magic_v9 get_magic_v11
get_magic c0 input magic =
    let c = record c0 {
      major_version = get_or magic 4 0;
      minor_version = get_or magic 5 0;
      rzip_compression_level = 0;
      compression_level = 0;
    } in
    let minor = get_or magic 5 0 in
    if not (get_or magic 4 0 == 0)
    then ok (c, input)
    else if minor == 6
    then ok (get_magic_v6 c magic, input)
    else if minor == 7
    then ok (get_magic_v7 c magic, input)
    else if minor == 8
    then ok (get_magic_v8 c magic, input)
    else if leb 9 minor && leb minor 10
    then get_magic_v9 (get_magic_v8 c magic) input magic
    else if leb 11 minor && leb minor 14
    then get_magic_v11 c input magic
    else err failed

-- The length of the header of each version; another version is fatal.
unfoldable pub bytes_to_read : ℕ → Result ℕ
bytes_to_read minor =
    if leb 6 minor && leb minor 7
    then ok 24
    else if minor == 8
    then ok 18
    else if leb 9 minor && leb minor 10
    then ok 20
    else if leb 11 minor && leb minor 14
    then ok 21
    else err fatal

-- The rest of the header, behind the six bytes that say which it is.
unfoldable pub read_rest : List ℕ → List ℕ → Result (List ℕ × List ℕ)
unfolding bytes_to_read read_bytes
read_rest head input =
    if get_or head 4 0 == 0
    then bytes_to_read (get_or head 5 0) >>= (λ n. read_bytes input (n - 6))
    else ok ([], input)

-- The result is the fields, with the expected size in `st_size`, and the rest of the file.
unfoldable pub read_magic : Control → List ℕ → Result (Control × List ℕ)
unfolding read_bytes read_rest get_magic
read_magic c input = do
  (head, input1) ← read_bytes input 6
  guard (get_or head 0 0 == 76) fatal
  guard (get_or head 1 0 == 82) fatal
  guard (get_or head 2 0 == 90) fatal
  guard (get_or head 3 0 == 73) fatal
  (tail, input2) ← read_rest head input1
  get_magic c input2 (head ++ tail ++ replicate (24 - (length head + length tail)) 0)
