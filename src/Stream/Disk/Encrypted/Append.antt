-- ===== src/Stream/Disk/Encrypted/Append.antt =====
-- A block of an encrypted archive, as `compthread` of src/stream.c appends it: the header before it is
-- encrypted with the pointer to it, and what stands in the file behind it comes back.
use native.Mathlib.Nat.{mod-eq_of_lt}
use lrzip_next.Common.{
  ℕ, ◌+◌, ◌-◌, ◌^◌, ◌≤◌, ◌<◌, ◌≡◌, max, refl, sym, ap, ap₂, ◌∙◌, arith, inl, subst,
}
use lrzip_next.Common.{
  true, List, [], ◌∷◌, ◌++◌, length, take, take-append_length, length-append, length-take, All,
}
use lrzip_next.Common.Results.{ok, ◌>>=◌}
use lrzip_next.Bytes.{IsByte, le_bytes}
use lrzip_next.Rzip.Slice.{slice, slice-add}
use lrzip_next.Stream.Out.{StreamNo, stream0, stream1}
use lrzip_next.Stream.Disk.{File, seek, put, put_val, patch}
use lrzip_next.Stream.Disk.Cells.{Cell, IsAt, patch-IsAt, patch-Apart, run, run-IsAt, run-run_cells}
use lrzip_next.Stream.Disk.Write.{Packed, last_head}
use lrzip_next.Stream.Disk.Blocks.{at}
use lrzip_next.Stream.Disk.Encrypted.{
  EncOut, moved_on, append_encrypted, padded, get_encrypted_header, get_encrypted_block,
}
use lrzip_next.Stream.Disk.Encrypted.Headers.{
  part-IsAt, Sealed, get_encrypted_header-Sealed, Rewritten, rewrite_encrypted-reads,
  get_encrypted_block-reads,
}
use lrzip_next.Util.Crypt.{Gcrypt, Secrets, lrz_crypt, Header, header_bytes}
use lrzip_next.Util.Crypt.Laws.{IsCipher, IsHeader, lrz_crypt-decrypts, All-append, All-take}

abbrev cell : ℕ → List ℕ → Cell
cell a bs = record { addr = a; bytes = bs }

join-IsAt :
    (f : ℕ → ℕ) (a b : ℕ) (xs ys : List ℕ)
    → a + length xs ≡ b
    → IsAt f (cell a xs)
    → IsAt f (cell b ys)
    → IsAt f (cell a (xs ++ ys))
join-IsAt f a b xs ys e h k =
    ap (slice f a) (length-append xs ys)
    ∙ slice-add f a (length xs) (length ys)
    ∙ ap₂ (λ p q. p ++ q) h (ap (λ o. slice f o (length ys)) e ∙ k)

front-IsAt : (f : ℕ → ℕ) (a : ℕ) (xs ys : List ℕ) → IsAt f (cell a (xs ++ ys)) → IsAt f (cell a xs)
front-IsAt f a xs ys h =
    subst (λ zs. IsAt f (cell a zs)) (take-append_length xs ys)
      (subst (λ o. IsAt f (cell o (take (length xs) (xs ++ ys))))
        (let z : a + 0 ≡ a = omega arith in z)
        (part-IsAt f a (xs ++ ys) 0 (length xs) h (omega (arith, length-append xs ys))))

-- The pointer of a header in the file, overwritten.
pointer-IsAt :
    (f : ℕ → ℕ) (a b v : ℕ) (h : Header)
    → b ≡ a + 17
    → IsAt f (cell a (header_bytes h))
    → IsAt (patch b (le_bytes 8 v) f) (cell a (header_bytes (record h { next_head = v })))
unfolding le_bytes
pointer-IsAt f a b v h e there =
    let front = le_bytes 1 h.c_type ++ (le_bytes 8 h.c_len ++ le_bytes 8 h.u_len) in
    join-IsAt (patch b (le_bytes 8 v) f) a b front (le_bytes 8 v) (sym e)
      (patch-Apart (cell a front) (cell b (le_bytes 8 v)) f (inl (omega (arith, e)))
        (front-IsAt f a front (le_bytes 8 h.next_head) there))
      (patch-IsAt (cell b (le_bytes 8 v)) f)

Sealed-run :
    (g : Gcrypt) (c : Secrets) (f f' : File) (a new_at : ℕ) (bss : List (List ℕ)) (salt bs : List ℕ)
    (h : Header)
    → a + 33 ≤ new_at
    → f'.byte ≡ run new_at bss f.byte
    → f.size ≤ f'.size
    → Sealed g c f a salt bs h
    → Sealed g c f' a salt bs h
Sealed-run g c f f' a new_at bss salt bs h le e grows s = record {
  salted = s.salted;
  salt_at =
      subst (λ w. IsAt w (cell a salt)) (sym e)
        (run-IsAt (cell a salt) new_at bss f.byte (omega (arith, le, s.salted)) s.salt_at);
  size = s.size;
  header_at =
      subst (λ w. IsAt w (cell (a + 8) bs)) (sym e)
        (run-IsAt (cell (a + 8) bs) new_at bss f.byte (omega (arith, le, s.size)) s.header_at);
  opens = s.opens;
  long = omega (arith, s.long, grows);
}

module _ (g : Gcrypt) (c : Secrets) (sn : StreamNo) (p : Packed) (head_nonce padding salt : List ℕ)
    (e : EncOut g c) (h : Header) where
  abbrev ip : ℕ
  ip = e.ctis.initial_pos

  abbrev before : ℕ
  before = last_head e.ctis sn - 17

  -- The chain of a stream is open at its end: the last header is not encrypted yet, and has room for its
  -- salt.
  pub record Open : Type 0 where
    pub header : IsHeader h
    pub there : IsAt e.ctis.file.byte (cell (before + ip) (header_bytes h))
    pub behind : 25 ≤ last_head e.ctis sn
    pub within : last_head e.ctis sn + 8 ≤ e.ctis.cur_pos
    pub small : e.ctis.cur_pos < 2 ^ 64

  -- Random data of these lengths, and a block whose fields fit.
  pub record IsBlock : Type 0 where
    pub key : 16 ≤ c.enc_keylen
    pub nonce : length head_nonce ≡ 8
    pub random : c.enc_keylen ≤ length padding
    pub salted : length salt ≡ 8
    pub typed : p.c_type < 256
    pub bytes : All IsByte p.s_buf
    pub random_bytes : All IsByte padding
    pub c_len : length p.s_buf < 2 ^ 64
    pub s_len : p.s_len < 2 ^ 64

  abbrev pub new_header : Header
  new_header = record { c_type = p.c_type; c_len = length p.s_buf; u_len = p.s_len; next_head = 0 }

  -- The header before is read with its pointer, the new header ends the chain, and the block behind it is
  -- read back.
  pub record Appended (e' : EncOut g c) (f' : File) : Type 0 where
    pub runs : append_encrypted g c sn p head_nonce padding salt e ≡ ok e'
    pub file : e'.ctis.file ≡ f'
    pub pointer :
        get_encrypted_header g c ip (before - 8) f'
        ≡ ok (record h { next_head = e.ctis.cur_pos }, at (before - 8 + ip + 33) f')
    pub next : last_head e'.ctis sn ≡ e.ctis.cur_pos + 8 + 17
    pub ends : IsAt f'.byte (cell (e.ctis.cur_pos + 8 + ip) (header_bytes new_header))
    pub block :
        get_encrypted_block g c (length p.s_buf) (at (e.ctis.cur_pos + 33 + ip) f')
        ≡ ok (p.s_buf, at (e.ctis.cur_pos + 33 + ip + 8 + max (length p.s_buf) c.enc_keylen) f')

  module _ (cipher : IsCipher g) (o : Open) (b : IsBlock) where
    abbrev linked : File
    linked = put_val 8 e.ctis.cur_pos (seek (last_head e.ctis sn + ip) e.ctis.file)

    abbrev new_at : ℕ
    new_at = e.ctis.cur_pos + ip

    abbrev writes : List ℕ → List (List ℕ)
    writes enc =
        le_bytes 8 0
        ∷ (p.c_type ∷ [])
        ∷ le_bytes 8 (length p.s_buf)
        ∷ le_bytes 8 p.s_len
        ∷ le_bytes 8 0
        ∷ salt
        ∷ enc
        ∷ []

    -- The header of the block, from its fields.
    header-IsAt :
        (f : ℕ → ℕ) (a : ℕ)
        → IsAt f (cell a (p.c_type ∷ []))
        → IsAt f (cell (a + 1) (le_bytes 8 (length p.s_buf)))
        → IsAt f (cell (a + 1 + 8) (le_bytes 8 p.s_len))
        → IsAt f (cell (a + 1 + 8 + 8) (le_bytes 8 0))
        → IsAt f (cell a (header_bytes new_header))
    unfolding le_bytes
    header-IsAt f a t n u z =
        join-IsAt f a (a + 1) (le_bytes 1 p.c_type) _ refl
          (subst (λ x. IsAt f (cell a (x ∷ []))) (sym (mod-eq_of_lt b.typed)) t)
          (join-IsAt f (a + 1) (a + 1 + 8) (le_bytes 8 (length p.s_buf)) _ refl n
            (join-IsAt f (a + 1 + 8) (a + 1 + 8 + 8) (le_bytes 8 p.s_len) _ refl u z))

    abbrev pointed : Header
    pointed = record h { next_head = e.ctis.cur_pos }

    rewritten : (f1 : File) × Rewritten g c linked f1 head_nonce ip before pointed
    unfolding put le_bytes
    rewritten =
        rewrite_encrypted-reads g c cipher linked head_nonce ip before pointed
          (record {
            c_type = o.header.c_type;
            c_len = o.header.c_len;
            u_len = o.header.u_len;
            next_head = o.small;
          })
          b.nonce (omega (arith, o.behind))
          (pointer-IsAt e.ctis.file.byte (before + ip) (last_head e.ctis sn + ip) e.ctis.cur_pos h
            (omega (arith, o.behind)) o.there)
          (omega (arith, o.behind))

    -- The file with the new block, and with the bytes `enc` of it.
    abbrev after : File → List ℕ → File
    after f1 enc = put enc (
        put salt (
          put_val 8 0 (
            put_val 8 p.s_len (
              put_val 8 (length p.s_buf)
                (put (p.c_type ∷ []) (put_val 8 0 (seek (e.ctis.cur_pos + ip) f1)))))))

    after-run :
        (f1 : File) (enc : List ℕ)
        → ((after f1 enc).byte ≡ run new_at (writes enc) f1.byte)
          × (f1.size ≤ (after f1 enc).size)
          × (new_at + 33 + 8 + length enc ≤ (after f1 enc).size)
    unfolding put le_bytes
    after-run f1 enc = (refl, omega arith, omega (arith, b.salted))

    -- What the new file has, but for the result of `append_encrypted`.
    record Stored (f1 : File) (enc : List ℕ) : Type 0 where
      pointer :
          get_encrypted_header g c ip (before - 8) (after f1 enc)
          ≡ ok (pointed, at (before - 8 + ip + 33) (after f1 enc))
      ends : IsAt (after f1 enc).byte (cell (e.ctis.cur_pos + 8 + ip) (header_bytes new_header))
      block :
          get_encrypted_block g c (length p.s_buf) (at (e.ctis.cur_pos + 33 + ip) (after f1 enc))
          ≡ ok (
            p.s_buf,
            at (e.ctis.cur_pos + 33 + ip + 8 + max (length p.s_buf) c.enc_keylen) (after f1 enc),
          )

    stored :
        (f1 : File) (enc : List ℕ)
        → Rewritten g c linked f1 head_nonce ip before pointed
        → lrz_crypt g c (padded g c padding p.s_buf) salt true ≡ ok enc
        → Stored f1 enc
    unfolding le_bytes
    stored f1 enc r crypted =
        let (same, grows, long) = after-run f1 enc in
        let f' = after f1 enc in
        let (zeros, (t, (n, (u, (z, (s, (d, nil))))))) =
          run-run_cells new_at (writes enc) f1.byte in
        let put_back = λ (k : Cell) (q : IsAt (run new_at (writes enc) f1.byte) k).
          subst (λ w. IsAt w k) (sym same) q in
        let head = header-IsAt (run new_at (writes enc) f1.byte) (new_at + 8) t n u z in
        let at_salt : new_at + 8 + 1 + 8 + 8 + 8 ≡ e.ctis.cur_pos + 33 + ip = omega arith in
        let at_data : new_at + 8 + 1 + 8 + 8 + 8 + length salt ≡ e.ctis.cur_pos + 33 + ip + 8 =
          omega (arith, b.salted) in
        record {
          pointer = get_encrypted_header-Sealed g c f' ip (before - 8) head_nonce r.bytes pointed (
              Sealed-run g c f1 f' (before - 8 + ip) new_at (writes enc) head_nonce r.bytes pointed
                (omega (arith, o.within, o.behind)) same grows r.sealed);
          ends = put_back (cell (e.ctis.cur_pos + 8 + ip) (header_bytes new_header)) (
              subst (λ a. IsAt (run new_at (writes enc) f1.byte) (cell a (header_bytes new_header)))
                (let y : new_at + 8 ≡ e.ctis.cur_pos + 8 + ip = omega arith in y) head);
          block =
              get_encrypted_block-reads g c cipher f' (e.ctis.cur_pos + 33 + ip) p.s_buf padding
                salt enc b.key b.random b.bytes b.random_bytes b.salted crypted
                (put_back (cell (e.ctis.cur_pos + 33 + ip) salt)
                  (subst (λ a. IsAt (run new_at (writes enc) f1.byte) (cell a salt)) at_salt s))
                (put_back (cell (e.ctis.cur_pos + 33 + ip + 8) enc)
                  (subst (λ a. IsAt (run new_at (writes enc) f1.byte) (cell a enc)) at_data d))
                (omega (arith, long));
        }

    moved_on-file : (s : StreamNo) (f : File) (m : ℕ) → (moved_on g c s e f m).ctis.file ≡ f
    moved_on-file stream0 f m = refl
    moved_on-file stream1 f m = refl

    moved_on-next :
        (s : StreamNo) (f : File) (m : ℕ)
        → last_head (moved_on g c s e f m).ctis s ≡ e.ctis.cur_pos + 8 + 17
    moved_on-next stream0 f m = omega arith
    moved_on-next stream1 f m = omega arith

    -- The cipher gives back what it has encrypted, the key has 16 bytes at least, there is random data
    -- enough, salts of eight bytes, and a block whose fields fit. Where the chain of a stream is open at its
    -- end, the block is appended to it: the header at the end is encrypted with the pointer to the block
    -- and read back, the header of the block is the end of the chain now, and behind it the block is
    -- read and decrypted without its padding.
    pub append_encrypted-reads : (e' : EncOut g c) × (f' : File) × Appended e' f'
    unfolding append_encrypted
    append_encrypted-reads =
        let (f1, r) = rewritten in
        let (enc, crypted, n, all, dec) =
          lrz_crypt-decrypts g c cipher (padded g c padding p.s_buf) salt
            (omega (
              arith,
              b.key,
              b.random,
              length-append p.s_buf (take (c.enc_keylen - length p.s_buf) padding),
              length-take (c.enc_keylen - length p.s_buf) padding,
            ))
            (All-append p.s_buf (take (c.enc_keylen - length p.s_buf) padding) b.bytes
              (All-take (c.enc_keylen - length p.s_buf) padding b.random_bytes)) in
        let s = stored f1 enc r crypted in
        (
          moved_on g c sn e (after f1 enc) (length enc),
          after f1 enc,
          record {
            runs = rw (r.run, ◌>>=◌) (rw (crypted, ◌>>=◌) refl);
            file = moved_on-file sn (after f1 enc) (length enc);
            pointer = s.pointer;
            next = moved_on-next sn (after f1 enc) (length enc);
            ends = s.ends;
            block = s.block;
          },
        )
