-- ===== src/Stream/Disk/Encrypted.antt =====
-- How src/stream.c writes and reads a block of an encrypted archive: `rewrite_encrypted`, the parts of
-- `compthread` and `fill_buffer` under `ENCRYPT`. The fields of a header have eight bytes there.
pub mod Headers
pub mod Append
use lrzip_next.Common.{ℕ, ◌+◌, ◌-◌, ◌*◌, max, true, false}
use lrzip_next.Common.{List, [], ◌∷◌, ◌++◌, length, take}
use lrzip_next.Common.Results.{Result, ok, err, ◌>>=◌}
use lrzip_next.Stream.Out.{StreamNo, stream0, stream1}
use lrzip_next.Stream.Disk.{File, seek, put, put_val, get, get_val}
use lrzip_next.Stream.Disk.Write.{ChunkOut, Packed, last_head, set_last_head}
use lrzip_next.Util.Crypt.{
  Gcrypt, Secrets, salt_len, lrz_crypt, Header, header_bytes, decrypt_header,
}

module _ (g : Gcrypt) (c : Secrets) where
  -- `nonce` is what `gcry_create_nonce` makes of the salt. The header stands at `ofs`, its salt before
  -- it, counted from `initial_pos`.
  unfoldable pub rewrite_encrypted : List ℕ → ℕ → ℕ → File → Result File
  unfolding lrz_crypt put get
  rewrite_encrypted nonce initial_pos ofs f = do
    let salted = put nonce (seek (ofs - salt_len + initial_pos) f)
    (buf, f1) ← get 25 salted
    enc ← lrz_crypt g c buf nonce true
    ok (seek f.ofs (put enc (seek (ofs + initial_pos) f1)))

  -- `nonce` is the random data behind a block that is shorter than the key.
  abbrev pub padded : List ℕ → List ℕ → List ℕ
  padded nonce s_buf = s_buf ++ take (c.enc_keylen - length s_buf) nonce

  -- `last_headofs` of a stream is the position of its last header, behind the salt of this.
  pub record EncOut : Type 0 where
    pub ctis : ChunkOut
    pub headofs0 : ℕ
    pub headofs1 : ℕ

  abbrev pub set_headofs : StreamNo → ℕ → EncOut → EncOut
  set_headofs stream0 pos e = record e { headofs0 = pos }
  set_headofs stream1 pos e = record e { headofs1 = pos }

  abbrev pub put_header8 : ℕ → ℕ → ℕ → File → File
  put_header8 c_type c_len s_len f =
      put_val 8 0 (put_val 8 s_len (put_val 8 c_len (put (c_type ∷ []) f)))

  -- The positions behind a block of so many bytes: where its header is, its pointer, and the next block.
  abbrev pub moved_on : StreamNo → EncOut → File → ℕ → EncOut
  moved_on sn e file n =
      let at = e.ctis.cur_pos + salt_len in
      set_headofs sn at (record e {
        ctis =
            set_last_head sn (e.ctis.cur_pos + 1 + 16 + salt_len)
              (record (e.ctis) { file = file; cur_pos = at + 25 + salt_len + n });
      })

  -- From the pointer to this block on. `rewrite_encrypted` is not asked whether it has failed. There
  -- are fresh nonces for the header before, the padding and the block.
  unfoldable pub append_encrypted :
      StreamNo → Packed → List ℕ → List ℕ → List ℕ → EncOut → Result EncOut
  unfolding rewrite_encrypted
  append_encrypted sn p head_nonce padding salt e = do
    let ctis = e.ctis
    let pointed = seek (last_head ctis sn + ctis.initial_pos) ctis.file
    let linked = put_val 8 ctis.cur_pos pointed
    before ← rewrite_encrypted head_nonce ctis.initial_pos (last_head ctis sn - 17) linked
    let placed = put_val salt_len 0 (seek (ctis.cur_pos + ctis.initial_pos) before)
    let headed = put_header8 p.c_type (length p.s_buf) p.s_len placed
    enc ← lrz_crypt g c (padded padding p.s_buf) salt true
    ok (moved_on sn e (put enc (put salt headed)) (length enc))

  -- A header with its salt, at `here`.
  unfoldable pub get_encrypted_header : ℕ → ℕ → File → Result (Header × File)
  unfolding decrypt_header get get_val
  get_encrypted_header initial_pos here f = do
    (enc_head, f0) ← get salt_len (seek (here + initial_pos) f)
    (c_type, f1) ← get_val 1 f0
    (c_len, f2) ← get_val 8 f1
    (u_len, f3) ← get_val 8 f2
    (next, f4) ← get_val 8 f3
    h ←
        decrypt_header g c enc_head
          (record { c_type = c_type; c_len = c_len; u_len = u_len; next_head = next })
    ok (h, f4)

  -- The bytes of a block behind its header: the salt and the data, of which the thread uses `c_len`.
  unfoldable pub get_encrypted_block : ℕ → File → Result (List ℕ × File)
  unfolding lrz_crypt get
  get_encrypted_block c_len f = do
    (blocksalt, f1) ← get salt_len f
    (s_buf, f2) ← get (max c_len c.enc_keylen) f1
    dec ← lrz_crypt g c s_buf blocksalt false
    ok (take c_len dec, f2)
