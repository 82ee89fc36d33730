-- ===== src/Rzip/Match/Laws.antt =====
-- What `find_best_match` returns is a match, whatever the hash table holds.
use lrzip_next.Common.{ℕ, zero, suc, ◌+◌, ◌-◌, ◌≤◌, ◌<◌, max, ◌≡◌, refl, sym, ap, ◌∙◌, arith}
use lrzip_next.Common.{◌&&◌, ltb, leb, ◌==◌, Bool-cases}
use lrzip_next.Common.{◌⊎◌, inl, inr, ltb→lt, ltb→ge}
use lrzip_next.Rzip.State.{HashEntry, HashTable}
use lrzip_next.Rzip.Match.{
  minimum_match, empty_hash, next_slot, Best, forward, backward, match_len, consider, best_loop,
  find_best_match,
}

module _ (byte : ℕ → ℕ) where
  -- The forward loop stops inside the bound, and has passed equal bytes only.
  record Forward (p op end q : ℕ) : Type 0 where
    ahead : p ≤ q
    inside : q ≤ max p end
    agree : (i : ℕ) → p + i < q → byte (p + i) ≡ byte (op + i)

  forward-Forward : (fuel p op end : ℕ) → Forward p op end (forward byte fuel p op end)
  unfolding forward
  forward-Forward zero p op end = record {
    ahead = omega arith;
    inside = omega arith;
    agree = λ i h. absurd (omega arith);
  }
  forward-Forward (suc fuel) p op end = elim (Bool-cases (ltb p end && (byte p == byte op))) [
    | inl e ↦
        rw (e, forward)
          (let r = forward-Forward fuel (p + 1) (op + 1) end in
            let lt : p < end = ground arith in
            let same : byte p ≡ byte op = ground arith in
            record {
              ahead = omega (arith, r.ahead);
              inside = omega (arith, r.inside);
              agree = go _ same r.agree;
            })
    | inr e ↦
        rw (e, forward)
          (record {
            ahead = omega arith;
            inside = omega arith;
            agree = λ i h. absurd (omega arith);
          })
  ]
    where
      go :
          (q : ℕ)
          → byte p ≡ byte op
          → ((i : ℕ) → p + 1 + i < q → byte (p + 1 + i) ≡ byte (op + 1 + i))
          → (i : ℕ) → p + i < q
          → byte (p + i) ≡ byte (op + i)
      go q same rest zero h =
          ap byte (let z : p + 0 ≡ p = omega arith in z)
          ∙ same
          ∙ ap byte (let z : op ≡ op + 0 = omega arith in z)
      go q same rest (suc i) h =
          ap byte (let z : p + suc i ≡ p + 1 + i = omega arith in z)
          ∙ rest i (omega arith)
          ∙ ap byte (let z : op + 1 + i ≡ op + suc i = omega arith in z)

  -- The backward loop stops above its bound and keeps `op` from going below zero.
  record Backward (p op end q : ℕ) : Type 0 where
    behind : q ≤ p
    above : (end ≤ p) → end ≤ q
    stays : p - q ≤ op
    agree : (i : ℕ) → q + i < p → byte (q + i) ≡ byte (op - (p - q) + i)

  backward-Backward : (fuel p op end : ℕ) → Backward p op end (backward byte fuel p op end)
  unfolding backward
  backward-Backward zero p op end = record {
    behind = omega arith;
    above = λ h. h;
    stays = omega arith;
    agree = λ i h. absurd (omega arith);
  }
  backward-Backward (suc fuel) p op end =
      elim (Bool-cases (ltb end p && ltb 0 op && (byte (op - 1) == byte (p - 1)))) [
        | inl e ↦
            rw (e, backward)
              (let r = backward-Backward fuel (p - 1) (op - 1) end in
                let lt : end < p = ground arith in
                let pos : 0 < op = ground arith in
                let same : byte (op - 1) ≡ byte (p - 1) = ground arith in
                record {
                  behind = omega (arith, r.behind);
                  above = λ h. r.above (omega arith);
                  stays = omega (arith, r.behind, r.stays);
                  agree = go _ r.behind r.stays lt pos same r.agree;
                })
        | inr e ↦
            rw (e, backward)
              (record {
                behind = omega arith;
                above = λ h. h;
                stays = omega arith;
                agree = λ i h. absurd (omega arith);
              })
      ]
    where
      go :
          (q : ℕ)
          → q ≤ p - 1
          → p - 1 - q ≤ op - 1
          → end < p
          → 0 < op
          → byte (op - 1) ≡ byte (p - 1)
          → ((i : ℕ) → q + i < p - 1 → byte (q + i) ≡ byte (op - 1 - (p - 1 - q) + i))
          → (i : ℕ) → q + i < p
          → byte (q + i) ≡ byte (op - (p - q) + i)
      go q b s lt pos same rest i h = elim (Bool-cases (ltb (q + i) (p - 1))) [
        | inl e ↦
            rest i (ltb→lt _ _ e)
            ∙ ap byte (let z : op - 1 - (p - 1 - q) + i ≡ op - (p - q) + i = omega arith in z)
        | inr e ↦
            ap byte (let z : q + i ≡ p - 1 = omega (arith, ltb→ge (q + i) (p - 1) e) in z)
            ∙ sym same
            ∙ ap byte
                (let z : op - 1 ≡ op - (p - q) + i = omega (arith, ltb→ge (q + i) (p - 1) e) in z)
      ]

  -- A match of `len` bytes at `q`: it begins at `last` at the earliest and ends at `end` at the
  -- latest, and repeats the bytes at `offset`, which lies further back.
  pub record Found (last end q len offset : ℕ) : Type 0 where
    pub after : last ≤ q
    pub inside : q + len ≤ end
    pub long : minimum_match ≤ len
    pub behind : offset < q
    pub agree : (i : ℕ) → i < len → byte (q + i) ≡ byte (offset + i)

  abbrev pub FoundOrNone : (last end q len offset : ℕ) → Type 0
  FoundOrNone last end q len offset = (len ≡ 0) ⊎ Found last end q len offset

  -- The two runs of equal bytes, before and behind `p`, are one.
  both_runs :
      (p op q b : ℕ)
      → Forward p op q b
      → (end last e : ℕ) → Backward p op last e
      → (i : ℕ) → i < b - p + (p - e)
      → byte (p - (p - e) + i) ≡ byte (op - (p - e) + i)
  both_runs p op q b f end last e r i h = elim (Bool-cases (ltb (e + i) p)) [
    | inl before ↦
        ap byte (let z : p - (p - e) + i ≡ e + i = omega (arith, r.behind) in z)
        ∙ r.agree i (ltb→lt _ _ before)
    | inr later ↦
        let j = e + i - p in
        let ge : p ≤ e + i = ltb→ge (e + i) p later in
        ap byte (let z : p - (p - e) + i ≡ p + j = omega (arith, r.behind) in z)
        ∙ f.agree j (omega (arith, r.behind, f.ahead))
        ∙ ap byte (let z : op + j ≡ op - (p - e) + i = omega (arith, r.behind, r.stays) in z)
  ]

  pub match_len-Found :
      (last p op end : ℕ)
      → last ≤ p
      → p ≤ end
      → let (len, rev) = match_len byte last p op end in
        FoundOrNone last end (p - rev) len (op - rev)
  unfolding match_len
  match_len-Found last p op end lo hi =
      let b = forward byte (end - p) p op end in
      let f = forward-Forward (end - p) p op end in
      let e = backward byte p p op (max 0 last) in
      let r = backward-Backward p p op (max 0 last) in
      elim (Bool-cases (leb p op)) [
        | inl le ↦ rw le (inl refl)
        | inr gt ↦ rw gt (elim (Bool-cases (ltb (b - p + (p - e)) minimum_match)) [
          | inl short ↦ rw short (inl refl)
          | inr enough ↦ rw enough (
              inr (record {
                after = omega (arith, r.behind, r.above (omega arith));
                inside = omega (arith, r.behind, f.inside, f.ahead);
                long = ltb→ge (b - p + (p - e)) minimum_match enough;
                behind = ground (arith, r.behind, r.stays);
                agree = both_runs p op end b f end (max 0 last) e r;
              }))
        ])
      ]

  abbrev FoundBest : (last end p : ℕ) → Best → Type 0
  FoundBest last end p best = FoundOrNone last end (p - best.reverse) best.length best.offset

  consider-FoundBest :
      (last t p end : ℕ) (he : HashEntry) (best : Best)
      → last ≤ p
      → p ≤ end
      → FoundBest last end p best
      → FoundBest last end p (consider byte last t p end he best)
  unfolding consider
  consider-FoundBest last t p end he best lo hi h =
      ground (arith, match_len-Found last p he.offset end lo hi)

  best_loop-FoundBest :
      (fuel : ℕ) (table : HashTable) (last t p end h : ℕ) (best : Best)
      → last ≤ p
      → p ≤ end
      → FoundBest last end p best
      → FoundBest last end p (best_loop byte fuel table last t p end h best)
  unfolding best_loop
  best_loop-FoundBest zero table last t p end h best lo hi k = k
  best_loop-FoundBest (suc fuel) table last t p end h best lo hi k =
      elim (Bool-cases (empty_hash (table.slots h))) [
        | inl e ↦ rw (e, best_loop) k
        | inr e ↦
            rw (e, best_loop)
              (best_loop-FoundBest fuel table last t p end (next_slot table h) _ lo hi
                (consider-FoundBest last t p end (table.slots h) best lo hi k))
      ]

  -- Whatever the table holds, what `find_best_match` returns is no match or a real one.
  pub find_best_match-Found :
      (table : HashTable) (last t p end hits misses : ℕ)
      → last ≤ p
      → p ≤ end
      → let best = find_best_match byte table last t p end hits misses in
        FoundOrNone last end (p - best.reverse) best.length best.offset
  unfolding find_best_match
  find_best_match-Found table last t p end hits misses lo hi =
      best_loop-FoundBest _ table last t p end _ _ lo hi (inl refl)
