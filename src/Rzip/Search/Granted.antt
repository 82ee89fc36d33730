-- ===== src/Rzip/Search/Granted.antt =====
-- The pieces for the checksum in `hash_search` of src/rzip.c: where `malloc` grants as much as a page, the
-- loop does not end for want of memory.
use lrzip_next.Common.{ℕ, zero, suc, ◌-◌, ◌≤◌, min, bit_and, ◌≡◌, ap, ◌∙◌, arith}
use lrzip_next.Common.{Bool, true, false, ◌&&◌, ltb, ◌==◌, if◌then◌else◌, Bool-cases, inl, inr}
use lrzip_next.Rzip.Match.{find_best_match}
use lrzip_next.Rzip.Search.{
  Env, Search, advance, insert_round, look_up, emit, cksum_round, step, search_loop, end_of,
}

either :
    (b : Bool) (x y : Search)
    → x.granted ≡ true
    → y.granted ≡ true
    → (if b then x else y).granted ≡ true
either true x y h k = h
either false x y h k = k

module _ (env : Env) (byte : ℕ → ℕ)
    (pieces : (n : ℕ) → n ≤ env.page_size → env.can_malloc n ≡ true) where
  insert_round-granted : (s : Search) → s.granted ≡ true → (insert_round env byte s).granted ≡ true
  unfolding insert_round
  insert_round-granted s h = either _ _ _ h h

  look_up-granted : (s : Search) → s.granted ≡ true → (look_up env byte s).granted ≡ true
  unfolding look_up
  look_up-granted s h =
      let best =
        find_best_match byte s.table s.st.last_match s.t s.p (end_of s.st) s.st.stats.tag_hits
          s.st.stats.tag_misses in
      let counted : Search = record s {
        st = record (s.st) {
          stats = record (s.st.stats) { tag_hits = best.tag_hits; tag_misses = best.tag_misses };
        };
      } in
      let s' : Search = insert_round env byte counted in
      let kept = insert_round-granted counted h in
      either (ltb s.current_len best.length)
        (record s' {
          current_p = s.p - best.reverse;
          current_len = best.length;
          current_ofs = best.offset;
        })
        s' kept kept

  emit-granted : (s : Search) → s.granted ≡ true → (emit env byte s).granted ≡ true
  unfolding emit
  emit-granted s h = either _ _ _ h h

  cksum_round-granted : (s : Search) → s.granted ≡ true → (cksum_round env byte s).granted ≡ true
  unfolding cksum_round
  cksum_round-granted s h =
      let len = min (s.st.chunk_size - s.p) env.page_size in
      either _ _ _ (ap (λ b. b && env.can_malloc len) h ∙ pieces len (omega arith)) h

  step-granted : (s : Search) → s.granted ≡ true → (step env byte s).granted ≡ true
  unfolding step advance
  step-granted s h =
      let s' : Search = advance env byte s in
      let mask = s'.table.minimum_tag_mask in
      either (bit_and s'.t mask == mask)
        (cksum_round env byte (emit env byte (look_up env byte s'))) s'
        (cksum_round-granted (emit env byte (look_up env byte s'))
          (emit-granted (look_up env byte s') (look_up-granted s' h)))
        h

  pub search_loop-granted :
      (fuel : ℕ) (s : Search) → s.granted ≡ true → (search_loop env byte fuel s).granted ≡ true
  unfolding search_loop
  search_loop-granted zero s h = h
  search_loop-granted (suc fuel) s h = elim (Bool-cases (ltb s.p (end_of s.st))) [
    | inl more ↦
        rw (more, search_loop) (search_loop-granted fuel (step env byte s) (step-granted s h))
    | inr done ↦ rw (done, search_loop) h
  ]
