-- ===== src/Lib.antt =====
-- Verification of lrzip-next, a compressor for large files.
--
-- A file is cut into chunks. src/rzip.c searches a chunk for matches over long distances and writes
-- tokens to two streams: headers, distances and the CRC to stream 0, literal bytes to stream 1.
-- src/stream.c cuts each stream into blocks, which threads compress by a back end and write to the
-- archive, and which other threads read and decompress. src/runzip.c reads the tokens and copies
-- bytes of its own output.
--
--   Common, Common/*        names of the libraries, lists and Boolean tests on native numbers, XOR;
--                           Results are errors as values
--   Bytes                   little-endian fields
--   Util/Page               round_to_page, round_up_page of src/util.c
--   Util/Ram, Overhead      setup_ram and setup_overhead of src/util.c
--   Stream/Out, Out/Laws    clear_buffer, flush_buffer, write_stream, close_stream_out of src/stream.c
--   Stream/In, In/Laws      fill_buffer and read_stream of src/stream.c
--   Stream/Fields           write_val, read_val and their like of src/stream.c
--   Stream/Backend          zstd_compress_buf up to lzo_decompress_buf of src/stream.c
--   Stream/Backend/*        compthread and ucompthread up to the file (Threads), what the libraries
--                           promise (Laws), each back end (Codecs), a block (Block)
--   Stream/Disk, Disk/*     the archive file: what compthread writes (Write) and what open_stream_in and
--                           fill_buffer read (Read); cells of bytes (Cells), the chains of blocks (Chain,
--                           Keeps, Layout), reading them (Blocks, Opening, Ends) and a whole chunk (Chunk)
--   Util/Crypt, Crypt/*     lrz_stretch, lrz_keygen, lrz_crypt and decrypt_header of src/util.c: what comes
--                           back (Laws) and the cost of old archives (Cost)
--   Stream/Disk/Encrypted   rewrite_encrypted and the blocks of an encrypted archive: a header (Headers), a
--                           block behind it (Append)
--   Stream/Jobs, Jobs/*     the jobs of a chunk through the threads (Laws) and the file (Archive)
--   Stream/Turns, Turns/*   the steps of clear_buffer and compthread with their semaphores and turns: numbers
--                           of threads (Slots), the invariant (Inv), what is written (Progress), how long
--                           it goes on (Measure), and the jobs of a chunk (Blocks)
--   Rzip/State, Slice       struct rzip_state and the bytes of the mapped chunk
--   Rzip/Put                put_u8 up to put_literal; Put/Token is the format that they write
--   Rzip/Match, Tag, Hash   single_match_len, find_best_match, the rolling tag, the hash table
--   Rzip/Sliding            the sliding buffer: sliding_get_sb (Laws), sliding_mcpy (Copy), tags (Tag)
--   Rzip/Search             hash_search: its loop (Inv, Ends, Granted) and its result (Result,
--                           Returns)
--   Rzip/Files              rzip_fd with its rounds: the byte width (Width) and the search for a size that
--                           can be mapped (Retry); mmap_stdin (Stdin)
--   Runzip/Files            runzip_fd
--   Runzip                  read_u8 up to runzip_chunk: the copies (Copy), the reads (Reads), a round of
--                           the loop (Rounds), the loop (Laws) and the chunk (Chunk)
--   Magic                   write_magic, read_magic of src/lrzip.c; Codes has the one-byte sizes of
--                           src/include/lrzip_private.h, Whole the whole header
--   RoundTrip               a chunk compressed, closed and decompressed; the passes over a file (Passes,
--                           Covers) and a whole file (Files)
--   Tests                   the theorems at concrete inputs
--
-- The chunk is a function from offsets to bytes, as buf_low is a pointer into the mapped file. A tag
-- is the bit pattern of an i64. gcrypt's CRC and hash are seen as the lists of bytes that they are
-- given, and the CRC is a function of such a list. A block that is handed to a thread is a job; the
-- threads take turns in the order of the calls (Stream/Turns), so the jobs are a list, and
-- the blocks of a stream are read in the same order. An error that ends the
-- program is a value of Common.Results.Error, and so are two ends that the code does not have: no fuel,
-- and a pass over a chunk that is not mapped whole.
--
-- The libraries of the back ends are parameters, with their promise to give back what they have packed
-- as hypotheses; what they do at a second try is a parameter of its own, as more memory may be granted
-- then. bzip3 promises to pack what is not longer than the block size of its state. The level that
-- lzma_compress_buf lowers is the one of its call, not of the blocks after it. The archive file is a function from offsets to bytes with a size, on a disk that is never full.
--
-- Fuel: the copying loops have as much as there are bytes; the loop of hash_search has
-- (end + 1) * (end + 1), since p may go back to the end of a match and every match moves last_match on;
-- the loop over the tokens has one more than the bytes of stream 0, since each token has one there;
-- read_stream and sliding_mcpy one more than the bytes asked for; insert_hash, clean_one_from_hash and
-- find_best_match as much as their tables and tags allow; width_bits for 64 bits;
-- stdin_loop one more than the size of the chunk; map_loop two more than the size to map; rzip_loop one
-- more than the bytes of the file; lzma_loop one more than the level that it lowers; open_header one more than the bytes of the file; fill_stream has its fuel as a parameter, and
-- one more than the blocks of a chunk that was written is enough, and for any file one more than the
-- size of the chunk.
--
-- runzip_fd takes what it finds of each chunk as an argument: the byte width, the streams that
-- open_stream_in opens, the end of the input and control->eof. What it must find for the bytes of the file
-- to come back is a condition of the theorems in RoundTrip; that the way of the jobs through the archive
-- file gives their bytes is in Stream/Jobs/Archive. The two meet in the bytes of the jobs.
--
-- Not modelled: a pass over a chunk that is not mapped whole (the functions of the sliding mode are, in
-- Rzip/Sliding), the libraries of the back ends and the copies of the LZMA SDK and of libzpaq, threads
-- beyond their order, the temporary buffers for standard input and output, the chains of a whole
-- encrypted chunk, printing and progress, options.
pub mod Common
pub mod Bytes
pub mod Util
pub mod Stream
pub mod Rzip
pub mod Runzip
pub mod RoundTrip
pub mod Magic
pub mod Tests
