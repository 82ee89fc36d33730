-- ===== src/Rzip/Search/Inv.antt =====
-- The invariant of the loop of `hash_search`, and that each part of a round preserves it.
use lrzip_next.Common.{ℕ, ◌+◌, ◌-◌, ◌^◌, ◌≤◌, ◌<◌, min, ◌≡◌, refl, sym, ap, ◌∙◌, subst}
use lrzip_next.Common.{arith, Bool, true, false, List, ◌++◌, ltb, ◌==◌}
use lrzip_next.Common.{if◌then◌else◌, Bool-cases, inl, inr, bit_and, ltb→lt, ltb→ge, append_assoc}
use lrzip_next.Stream.Out.{StreamInfo}
use lrzip_next.Rzip.State.{RzipState, HashTable}
use lrzip_next.Rzip.Slice.{slice, slice-add_zero}
use lrzip_next.Rzip.Put.{put_literal, put_match}
use lrzip_next.Rzip.Put.Laws.{Encodes, put_literal-Encodes, put_match-Encodes}
use lrzip_next.Rzip.Put.Frame.{Keeps, put_literal-Keeps, put_match-Keeps}
use lrzip_next.Rzip.Match.{minimum_match, Best, find_best_match}
use lrzip_next.Rzip.Match.Laws.{Found, FoundOrNone, find_best_match-Found}
use lrzip_next.Rzip.Search.{
  Env, Search, end_of, advance, insert_round, look_up, ready, emit, cksum_round, step,
}

-- What a hash has been fed grows with what the checksum has been fed.
pub fed_more :
    (byte : ℕ → ℕ) (has_hash : Bool) (hashed old : List ℕ) (limit len : ℕ)
    → hashed ≡ (if has_hash then old ++ slice byte 0 limit else old)
    → (if has_hash then hashed ++ slice byte limit len else hashed)
      ≡ (if has_hash then old ++ slice byte 0 (limit + len) else old)
fed_more byte true hashed old limit len e =
    ap (λ r. r ++ slice byte limit len) e
    ∙ append_assoc old (slice byte 0 limit) (slice byte limit len)
    ∙ ap (λ r. old ++ r) (sym (slice-add_zero byte limit len))
fed_more byte false hashed old limit len e = e

module _ (env : Env) (byte : ℕ → ℕ) (size cb : ℕ) (before_hashed : List ℕ) where
  -- The streams hold the chunk up to `last_match`; the current match, if any, lies between there and
  -- `end` and is a real one; and the checksum has seen the chunk up to `cksum_limit`.
  pub record Inv (s : Search) : Type 0 where
    pub sized : s.st.chunk_size ≡ size
    pub bytes : s.st.chunk_bytes ≡ cb
    pub encodes : Encodes byte cb s.st.ss s.st.last_match
    pub passed : s.st.last_match ≤ s.p
    pub within : s.p ≤ size - minimum_match
    pub current :
        FoundOrNone byte s.st.last_match
          (size - minimum_match)
          s.current_p
          s.current_len
          s.current_ofs
    pub limit : s.cksum_limit ≤ size
    pub summed : s.summed ≡ slice byte 0 s.cksum_limit
    pub fed :
        s.hashed
        ≡ (if env.has_hash then before_hashed ++ slice byte 0 s.cksum_limit else before_hashed)

  pub advance-Inv : (s : Search) → s.p < size - minimum_match → Inv s → Inv (advance env byte s)
  unfolding advance
  advance-Inv s lt v = record {
    sized = v.sized;
    bytes = v.bytes;
    encodes = v.encodes;
    passed = omega (arith, v.passed);
    within = omega arith;
    current = v.current;
    limit = v.limit;
    summed = v.summed;
    fed = v.fed;
  }

  -- The table, the masks and the counts do not matter.
  Inv-table :
      (s : Search) (st : RzipState) (table : HashTable) (mask : ℕ)
      → st.chunk_size ≡ s.st.chunk_size
      → st.chunk_bytes ≡ s.st.chunk_bytes
      → st.ss ≡ s.st.ss
      → st.last_match ≡ s.st.last_match
      → Inv s
      → Inv (record s { st = st; table = table; tag_mask = mask })
  Inv-table s st table mask a b c d v = record {
    sized = a ∙ v.sized;
    bytes = b ∙ v.bytes;
    encodes = rw (c, d) v.encodes;
    passed = omega (arith, v.passed);
    within = v.within;
    current = rw d v.current;
    limit = v.limit;
    summed = v.summed;
    fed = v.fed;
  }

  insert_round-Inv : (s : Search) → Inv s → Inv (insert_round env byte s)
  unfolding insert_round
  insert_round-Inv s v = elim (Bool-cases (bit_and s.t s.tag_mask == s.tag_mask)) [
    | inr e ↦ rw e v
    | inl e ↦ rw e (Inv-table s _ _ _ refl refl refl refl v)
  ]

  -- A better match than the current one takes its place.
  Inv-current :
      (s : Search) (q len ofs : ℕ)
      → FoundOrNone byte s.st.last_match (size - minimum_match) q len ofs
      → Inv s
      → Inv (record s { current_p = q; current_len = len; current_ofs = ofs })
  Inv-current s q len ofs f v = record {
    sized = v.sized;
    bytes = v.bytes;
    encodes = v.encodes;
    passed = v.passed;
    within = v.within;
    current = f;
    limit = v.limit;
    summed = v.summed;
    fed = v.fed;
  }

  insert_round-last_match : (s : Search) → (insert_round env byte s).st.last_match ≡ s.st.last_match
  unfolding insert_round
  insert_round-last_match s = ground arith

  pub look_up-Inv : (s : Search) → Inv s → Inv (look_up env byte s)
  unfolding look_up
  look_up-Inv s v = elim (Bool-cases (ltb s.current_len best.length)) [
    | inl e ↦ rw e (Inv-current (insert_round env byte counted) _ _ _ found inserted)
    | inr e ↦ rw e inserted
  ]
    where
      best : Best
      best =
          find_best_match byte s.table s.st.last_match s.t s.p (end_of s.st) s.st.stats.tag_hits
            s.st.stats.tag_misses

      counted : Search
      counted = record s {
        st = record (s.st) {
          stats = record (s.st.stats) { tag_hits = best.tag_hits; tag_misses = best.tag_misses };
        };
      }

      inserted : Inv (insert_round env byte counted)
      inserted = insert_round-Inv counted (Inv-table s _ _ _ refl refl refl refl v)

      found :
          FoundOrNone byte
            (insert_round env byte counted).st.last_match
            (size - minimum_match)
            (s.p - best.reverse)
            best.length
            best.offset
      found =
          rw (insert_round-last_match counted, ← v.sized)
            (find_best_match-Found byte s.table s.st.last_match s.t s.p (end_of s.st) _ _ v.passed
              (omega (arith, v.within, v.sized)))

  -- The literal bytes before the match, if there are any.
  abbrev before : Search → RzipState
  before s =
      if ltb s.st.last_match s.current_p
      then put_literal byte s.st s.st.last_match s.current_p
      else s.st

  before-Encodes :
      (s : Search)
      → s.st.last_match ≤ s.current_p
      → Encodes byte s.st.chunk_bytes s.st.ss s.st.last_match
      → Encodes byte s.st.chunk_bytes (before s).ss s.current_p
  before-Encodes s le h = elim (Bool-cases (ltb s.st.last_match s.current_p)) [
    | inl lt ↦ rw lt (put_literal-Encodes byte s.st s.st.last_match s.current_p (ltb→lt _ _ lt) h)
    | inr eq ↦ rw eq (
        let e : s.st.last_match ≡ s.current_p =
          omega (arith, ltb→ge s.st.last_match s.current_p eq) in
        rw e at h)
  ]

  before-Keeps : (s : Search) → Keeps s.st (before s) (s.current_p - s.st.last_match) 0
  before-Keeps s = elim (Bool-cases (ltb s.st.last_match s.current_p)) [
    | inl lt ↦ rw lt (put_literal-Keeps byte s.st s.st.last_match s.current_p)
    | inr ge ↦ rw ge (record {
      size = refl;
      bytes = refl;
      index = refl;
      last = refl;
      literal = omega (arith, ltb→ge s.st.last_match s.current_p ge);
      match = omega arith;
    })
  ]

  width :
      {c d : ℕ} {ss : StreamInfo} {pos : ℕ} → c ≡ d → Encodes byte c ss pos → Encodes byte d ss pos
  width {ss = ss} {pos = pos} e h = subst (λ c. Encodes byte c ss pos) e h

  emit-Inv_current :
      (s : Search) (t : ℕ)
      → size ≤ 256 ^ cb
      → Found byte s.st.last_match (size - minimum_match) s.current_p s.current_len s.current_ofs
      → Inv s
      → let next = s.current_p + s.current_len in
        Inv (record s {
          st = record (put_match (before s) s.current_p s.current_ofs s.current_len) {
            last_match = next;
          };
          current_p = next;
          p = next;
          current_len = 0;
          t = t;
        })
  emit-Inv_current s t small f v =
      let k = before-Keeps s in
      let k' = put_match-Keeps (before s) s.current_p s.current_ofs s.current_len in
      let e : (before s).chunk_bytes ≡ cb = k.bytes ∙ v.bytes in
      record {
        sized = k'.size ∙ k.size ∙ v.sized;
        bytes = k'.bytes ∙ e;
        encodes = width e (
            put_match-Encodes byte (before s) s.current_p s.current_ofs s.current_len
              (omega (arith, f.long)) (rw e (omega (arith, f.inside, f.long, small)))
              (record { behind = f.behind; agree = f.agree })
              (width (sym k.bytes) (before-Encodes s f.after (width (sym v.bytes) v.encodes))));
        passed = omega arith;
        within = f.inside;
        current = inl refl;
        limit = v.limit;
        summed = v.summed;
        fed = v.fed;
      }

  emit-Inv : (s : Search) → size ≤ 256 ^ cb → Inv s → Inv (emit env byte s)
  unfolding emit
  emit-Inv s small v = elim (Bool-cases (ready env byte s)) [
    | inr e ↦ rw e v
    | inl e ↦ rw e (elim v.current [
      | inl none ↦ absurd (ground arith)
      | inr f ↦ emit-Inv_current s _ small f v
    ])
  ]

  cksum_round-Inv : (s : Search) → Inv s → Inv (cksum_round env byte s)
  unfolding cksum_round
  cksum_round-Inv s v =
      let len = min (s.st.chunk_size - s.p) env.page_size in
      elim (Bool-cases (ltb s.cksum_limit s.p)) [
        | inr e ↦ rw e v
        | inl e ↦ rw e (record {
          sized = v.sized;
          bytes = v.bytes;
          encodes = v.encodes;
          passed = v.passed;
          within = v.within;
          current = v.current;
          limit = omega (arith, v.sized, v.within, ltb→lt s.cksum_limit s.p e);
          summed =
              ap (λ r. r ++ slice byte s.cksum_limit len) v.summed
              ∙ sym (slice-add_zero byte s.cksum_limit len);
          fed = fed_more byte env.has_hash s.hashed before_hashed s.cksum_limit len v.fed;
        })
      ]

  pub step-Inv :
      (s : Search) → size ≤ 256 ^ cb → s.p < size - minimum_match → Inv s → Inv (step env byte s)
  unfolding step
  step-Inv s small lt v =
      let s' = advance env byte s in
      let v' = advance-Inv s lt v in
      let mask = s'.table.minimum_tag_mask in
      elim (Bool-cases (bit_and s'.t mask == mask)) [
        | inl e ↦ rw e (
            cksum_round-Inv (emit env byte (look_up env byte s'))
              (emit-Inv (look_up env byte s') small (look_up-Inv s' v')))
        | inr e ↦ rw e v'
      ]
