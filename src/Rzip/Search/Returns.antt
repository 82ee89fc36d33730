-- ===== src/Rzip/Search/Returns.antt =====
-- `hash_search` returns where `malloc` grants the pieces of the loop and the buffer that is asked for
-- first behind it.
use lrzip_next.Common.{
  ℕ, zero, suc, ◌+◌, ◌-◌, ◌/◌, ◌%◌, ◌<◌, ◌≡◌, refl, ap, ◌∙◌, arith, some, none, if◌then◌else◌,
}
use lrzip_next.Common.{true, ltb, Bool-cases, inl, inr, List}
use lrzip_next.Util.Page.{round_to_page}
use lrzip_next.Rzip.State.{RzipState}
use lrzip_next.Rzip.Search.{
  Env, Search, start, search_loop, enough, ckbuf_loop, cksum_tail, cksum_rest, rest_literal, finish,
  hash_search,
}
use lrzip_next.Rzip.Search.Granted.{search_loop-granted}
use lrzip_next.Common.{[], ◌≤◌, ◌^◌}
use lrzip_next.Stream.Out.Laws.{Holds}
use lrzip_next.Rzip.Put.Token.{Token}
use lrzip_next.Rzip.Search.Result.{Done, hash_search-Done}
use mathlib.Core.Option

-- The buffer that is asked for first, and the pieces of the loop, which are no more than a page.
abbrev pub Grants : Env → Type 0
Grants env =
    (env.can_malloc (round_to_page env.page_size env.maxram) ≡ true)
    × ((n : ℕ) → n ≤ env.page_size → env.can_malloc n ≡ true)

module _ (env : Env) (byte : ℕ → ℕ) (grants : Grants env) where
  ckbuf_loop-first :
      (fuel : ℕ)
      → 0 < fuel
      → ckbuf_loop env byte fuel env.maxram ≡ some (round_to_page env.page_size env.maxram)
  unfolding ckbuf_loop
  ckbuf_loop-first zero h = absurd (omega arith)
  ckbuf_loop-first (suc fuel) h = rw grants.0 refl

  cksum_rest-returns : (s : Search) → (s' : Search) × (cksum_rest env byte s ≡ some s')
  unfolding cksum_rest
  cksum_rest-returns s = elim (Bool-cases (ltb s.cksum_limit s.st.chunk_size)) [
    | inl more ↦ (
      cksum_tail env byte
          ((s.st.chunk_size - s.cksum_limit) / round_to_page env.page_size env.maxram)
          (round_to_page env.page_size env.maxram)
          ((s.st.chunk_size - s.cksum_limit) % round_to_page env.page_size env.maxram) s,
      rw (more, ckbuf_loop-first (env.maxram + env.page_size + 1) (omega arith)) refl,
    )
    | inr done ↦ (s, rw done refl)
  ]

  pub hash_search-returns :
      (st : RzipState) (old : List ℕ)
      → (st' : RzipState) × (hashed : List ℕ) × (hash_search env byte st old ≡ some (st', hashed))
  unfolding hash_search start
  hash_search-returns st old =
      let s = search_loop env byte (enough env byte st) (start env byte st old) in
      let (s', e) = cksum_rest-returns (rest_literal env byte s) in
      let all : s.granted ≡ true =
        search_loop-granted env byte grants.1 (enough env byte st) (start env byte st old) refl in
      (
        (finish env byte s').0,
        (finish env byte s').1,
        ap
              (λ b.
                if b
                then Option.map (finish env byte) (cksum_rest env byte (rest_literal env byte s))
                else none)
              all
            ∙ ap (Option.map (finish env byte)) e,
      )

  -- On fresh streams, for a chunk whose size its byte width can hold and where `malloc` grants up to a page,
  -- and the buffer that is asked for first behind the loop, `hash_search` returns, and the streams hold tokens that expand to the chunk
  -- behind any earlier output, the header of an empty literal and the CRC of the chunk; the hash, if
  -- there is one, has seen the chunk.
  pub hash_search-encodes :
      (st : RzipState) (old : List ℕ)
      → st.chunk_size ≤ 256 ^ st.chunk_bytes
      → Holds st.ss [] []
      → (st' : RzipState) × (hashed : List ℕ) × (ks : List Token) × (hash_search env byte st old
          ≡ some (st', hashed))
        × Done env byte st.chunk_size st.chunk_bytes old st' hashed ks
  hash_search-encodes st old fits h =
      let (st', hashed, run) = hash_search-returns st old in
      let (ks, d) =
        hash_search-Done env byte st.chunk_size st.chunk_bytes old st st' hashed refl refl fits h
          run in
      (st', hashed, ks, run, d)
