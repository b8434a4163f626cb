-- ===== src/Munkres/Loops.antt =====
-- The two loops keep a matching, and so does the whole of `solve`.
use mathlib.Core.Option
use custos_tracker.Prelude.{
  ℕ, zero, suc, ◌+◌, true, length, List, [], ◌∷◌, none, some, ◌≡◌, refl, ap, ◌∙◌, Bool-cases,
  Option-cases, inl, inr,
}
use custos_tracker.Float.{Float}
use custos_tracker.Munkres.{
  Munkres, find_uncovered_zero, star_in_row, cover, all_covered, adjust, use_zero, round, inner,
  outer, Step, more, augmented,
}
use custos_tracker.Munkres.Search.{first_from-found}
use custos_tracker.Munkres.Matching.{IsMatching}
use custos_tracker.Munkres.Cover.{Covered, cover_row-Covered}
use custos_tracker.Munkres.Rounds.{Ready, Done, Found, cover-Covered, find-Found, augment-Done}

module _ {F : Type 0} ⦃f : Float F⦄ (top : F) where
  -- What a round does in a state with a chain: it makes the chain longer, adjusts the matrix, or ends.
  pub data Advance (s : Munkres F) (ps : List (ℕ × ℕ)) : Step F → Type 0 where
    longer :
        (s' : Munkres F) (ps' : List (ℕ × ℕ))
        → s'.n ≡ s.n
        → s'.star ≡ s.star
        → length ps' ≡ suc (length ps)
        → Covered s' ps'
        → Advance s ps (more s')
    adjusted : find_uncovered_zero s ≡ none → Advance s ps (more (adjust top s))
    ended : (s' : Munkres F) → Done s s' → Advance s ps (augmented (some s'))

  use_zero-Advance :
      (s : Munkres F) (ps : List (ℕ × ℕ)) (zr zc : ℕ)
      → Covered s ps
      → Found s zr zc
      → Advance s ps (use_zero top zr zc s)
  unfolding use_zero
  use_zero-Advance s ps zr zc h z = elim (Option-cases (star_in_row s.n s.star zr)) [
    | inl q ↦
        let (s', a) = augment-Done s ps zr zc h z q in rw (use_zero, q, a.same) (ended s' a.done)
    | inr (col, q) ↦
        let found = first_from-found (λ x. s.star zr x) s.n 0 col q in
        let next =
          cover_row-Covered s ps h zr zc col z.row_lt z.col_lt z.row_open z.col_open found.0 in
        rw (use_zero, q) (longer _ ((zr, zc) ∷ ps) refl refl refl next)
  ]

  pub round-Advance :
      (s : Munkres F) (ps : List (ℕ × ℕ)) → Covered s ps → Advance s ps (round top s)
  unfolding round
  round-Advance s ps h = elim (Option-cases (find_uncovered_zero s)) [
    | inl q ↦ rw (round, q) (adjusted q)
    | inr ((zr, zc), q) ↦ rw (round, q) (use_zero-Advance s ps zr zc h (find-Found s zr zc q))
  ]

  pub adjust-Covered :
      (s : Munkres F) (ps : List (ℕ × ℕ)) → Covered s ps → Covered (adjust top s) ps
  unfolding adjust
  adjust-Covered s ps h = record {
    matching = h.matching;
    chain = h.chain;
    rows = h.rows;
    cols_of = h.cols_of;
    cols_only = h.cols_only;
    primes = h.primes;
    size = h.size;
  }

  -- What a path makes of a state depends on the size and the stars only.
  pub Done-from : (s t s' : Munkres F) → t.n ≡ s.n → t.star ≡ s.star → Done t s' → Done s s'
  Done-from s t s' en es d = record {
    same_n = d.same_n ∙ en;
    ready = d.ready;
    grown = rw es at d.grown;
  }

  pub adjust-Done : (s s' : Munkres F) → Done (adjust top s) s' → Done s s'
  unfolding adjust
  adjust-Done s s' d = Done-from s (adjust top s) s' refl refl d

  -- The inner loop ends with a longer matching.
  pub inner-Done :
      (k : ℕ) (s s' : Munkres F) (ps : List (ℕ × ℕ))
      → Covered s ps
      → inner top k s ≡ some s'
      → Done s s'
  unfolding inner
  inner-Done zero s s' ps h e = cc
  inner-Done (suc k) s s' ps h e =
      by (λ u ps'. inner-Done k u s' ps') (round top s) (round-Advance s ps h) e
    where
      by :
          ((u : Munkres F) (ps' : List (ℕ × ℕ))
            → Covered u ps'
            → inner top k u ≡ some s'
            → Done u s')
          → (st : Step F) → Advance s ps st
          → elim st [ more u ↦ inner top k u | augmented o ↦ o ] ≡ some s'
          → Done s s'
      by ih st (longer u ps' en es l c) e' = Done-from s u s' en es (ih u ps' c e')
      by ih st (adjusted q) e' = adjust-Done s s' (ih (adjust top s) ps (adjust-Covered s ps h) e')
      by ih st (ended u d) e' = let same : u ≡ s' = ap (λ o. Option.get_or o u) e' in rw same at d

  -- The outer loop ends with a matching of the same size that covers every column.
  pub record Solved (n : ℕ) (s : Munkres F) : Type 0 where
    pub same_n : s.n ≡ n
    pub matching : IsMatching s.n s.star
    pub full : all_covered s ≡ true

  pub outer-Solved : (k : ℕ) (s s' : Munkres F) → Ready s → outer top k s ≡ some s' → Solved s.n s'
  unfolding outer
  outer-Solved zero s s' r e = cc
  outer-Solved (suc k) s s' r e = elim (Bool-cases (all_covered s)) [
    | inl q ↦
        let same : cover s ≡ s' = ap (λ o. Option.get_or o s) (rw (outer, q) at e) in
        let here : Solved s.n (cover s) = record {
          same_n = refl;
          matching = r.matching;
          full = q;
        } in
        rw same at here
    | inr q ↦ elim (Option-cases (inner top (s.n + s.n + 2) (cover s))) [
      | inl o ↦ cc (rw (outer, q, o) at e)
      | inr (u, o) ↦
          let d = inner-Done (s.n + s.n + 2) (cover s) u [] (cover-Covered s r) o in
          let rest = outer-Solved k u s' d.ready (rw (outer, q, o) at e) in
          record { same_n = rest.same_n ∙ d.same_n; matching = rest.matching; full = rest.full }
    ]
  ]
