-- ===== src/Tbd/Assoc/Gate.antt =====
-- What `match_by_iou` says of the detections: the gate on the overlap, and no detection twice.
use mathlib.Core.Option
use custos_tracker.Prelude.{
  ℕ, zero, suc, true, false, ◌||◌, ◌==◌, ==_iff, List, [], ◌∷◌, map, elem, Distinct, get_or,
  get_elem?, is_empty, Option, none, some, ◌≡◌, refl, sym, All, All-map, arith, Bool-cases, inl,
  inr, ap,
}
use custos_tracker.Float.{Float, ◌<?◌, IsOrdered}
use custos_tracker.Types.{BBox, Detection, zero_box}
use custos_tracker.Geometry.Boxes.{iou}
use custos_tracker.Tbd.Assoc.{
  Solver, Match, forbidden, no_detection, pair_cost, accepted, embedding_of, costs, match_by_iou,
  seconds,
}

-- The columns that are assigned.
abbrev pub columns : List (Option ℕ) → List ℕ
columns [] = []
columns (none ∷ cs) = columns cs
columns (some j ∷ cs) = j ∷ columns cs

-- What the code relies on in a solver: no column is assigned to two rows.
abbrev pub IsAssignment : {F : Type 0} → Solver F → Type 0
IsAssignment {F = F} solver = (cost : List (List F)) → Distinct (columns (solver cost))

elem-get_elem? : (xs : List ℕ) (j x : ℕ) → get_elem? xs j ≡ some x → elem x xs ≡ true
elem-get_elem? [] j x e = cc
elem-get_elem? (y ∷ ys) zero x e =
    let q : y ≡ x = ap (λ o. Option.get_or o 0) e in ground (arith, ==_iff x y)
elem-get_elem? (y ∷ ys) (suc j) x e = ground (arith, elem-get_elem? ys j x e)

-- An item of a list without repetition stands at one index.
Distinct-index :
    (xs : List ℕ) (i j x : ℕ)
    → Distinct xs
    → get_elem? xs i ≡ some x
    → get_elem? xs j ≡ some x
    → i ≡ j
Distinct-index [] i j x d p q = cc
Distinct-index (y ∷ ys) zero zero x d p q = refl
Distinct-index (y ∷ ys) zero (suc j) x d p q =
    let r : y ≡ x = ap (λ o. Option.get_or o 0) p in
    let h : elem y ys ≡ true = rw r (elem-get_elem? ys j x q) in ground arith
Distinct-index (y ∷ ys) (suc i) zero x d p q =
    let r : y ≡ x = ap (λ o. Option.get_or o 0) q in
    let h : elem y ys ≡ true = rw r (elem-get_elem? ys i x p) in ground arith
Distinct-index (y ∷ ys) (suc i) (suc j) x d p q = ap suc (Distinct-index ys i j x d.1 p q)

module _ {F : Type 0} ⦃f : Float F⦄ where
  -- A cost below the forbidden one is the cost of a detection that is there.
  below_forbidden :
      (ordered : IsOrdered F) (g : ℕ → F) (ids : List ℕ) (j : ℕ)
      → (get_or (map g ids) j forbidden <? forbidden) ≡ true
      → (get_elem? ids j ≡ some (get_or ids j 0)) × ((g (get_or ids j 0) <? forbidden) ≡ true)
  below_forbidden ordered g [] j e = ground (arith, ordered.lt_irrefl forbidden)
  below_forbidden ordered g (x ∷ xs) zero e = (refl, e)
  below_forbidden ordered g (x ∷ xs) (suc j) e = below_forbidden ordered g xs j e

  -- The pairs that are accepted, where each row has a cost for each detection.
  accepted-All :
      (ordered : IsOrdered F) (g : ℕ → ℕ → F) (ids tis : List ℕ) (cols : List (Option ℕ))
      → All
          (λ m. (elem m.1 ids ≡ true) × ((g m.0 m.1 <? forbidden) ≡ true))
          (accepted ids tis (map (λ ti. map (g ti) ids) tis) cols)
  unfolding accepted
  accepted-All ordered g ids [] cols = tt
  accepted-All ordered g ids (t ∷ ts) [] = tt
  accepted-All ordered g ids (t ∷ ts) (none ∷ cs) = accepted-All ordered g ids ts cs
  accepted-All ordered g ids (t ∷ ts) (some j ∷ cs) =
      elim (Bool-cases (get_or (map (g t) ids) j forbidden <? forbidden)) [
        | inl e ↦
            let (there, cheap) = below_forbidden ordered (g t) ids j e in
            rw e ((elem-get_elem? ids j _ there, cheap), accepted-All ordered g ids ts cs)
        | inr e ↦ rw e (accepted-All ordered g ids ts cs)
      ]

  -- A detection that is accepted has a column.
  accepted-column :
      (ordered : IsOrdered F) (g : ℕ → ℕ → F) (ids tis : List ℕ) (cols : List (Option ℕ)) (x : ℕ)
      → elem x (seconds (accepted ids tis (map (λ ti. map (g ti) ids) tis) cols)) ≡ true
      → (j : ℕ) × ((elem j (columns cols) ≡ true) × (get_elem? ids j ≡ some x))
  unfolding accepted
  accepted-column ordered g ids [] cols x h = cc
  accepted-column ordered g ids (t ∷ ts) [] x h = cc
  accepted-column ordered g ids (t ∷ ts) (none ∷ cs) x h = accepted-column ordered g ids ts cs x h
  accepted-column ordered g ids (t ∷ ts) (some j ∷ cs) x h =
      let rest = accepted-column ordered g ids ts cs x in
      elim (Bool-cases (get_or (map (g t) ids) j forbidden <? forbidden)) [
        | inl e ↦
            let (there, cheap) = below_forbidden ordered (g t) ids j e in
            elim (Bool-cases (x == get_or ids j 0)) [
              | inl q ↦
                  let q' : x ≡ get_or ids j 0 = ground (arith, ==_iff x (get_or ids j 0)) in
                  (j, (ground (arith, ==_iff j j), rw (sym q') at there))
              | inr q ↦ let (j', (p, r)) = rest (ground arith) in (j', (ground arith, r))
            ]
        | inr e ↦ let (j', (p, r)) = rest (rw e at h) in (j', (ground arith, r))
      ]

  accepted-seconds :
      (ordered : IsOrdered F) (g : ℕ → ℕ → F) (ids tis : List ℕ) (cols : List (Option ℕ))
      → Distinct ids
      → Distinct (columns cols)
      → Distinct (seconds (accepted ids tis (map (λ ti. map (g ti) ids) tis) cols))
  unfolding accepted
  accepted-seconds ordered g ids [] cols d c = tt
  accepted-seconds ordered g ids (t ∷ ts) [] d c = tt
  accepted-seconds ordered g ids (t ∷ ts) (none ∷ cs) d c = accepted-seconds ordered g ids ts cs d c
  accepted-seconds ordered g ids (t ∷ ts) (some j ∷ cs) d c =
      let rest = accepted-seconds ordered g ids ts cs d c.1 in
      let dj = get_or ids j 0 in
      let others = seconds (accepted ids ts (map (λ ti. map (g ti) ids) ts) cs) in
      elim (Bool-cases (get_or (map (g t) ids) j forbidden <? forbidden)) [
        | inr e ↦ rw e rest
        | inl e ↦
            let (there, cheap) = below_forbidden ordered (g t) ids j e in
            elim (Bool-cases (elem dj others)) [
              | inr q ↦ rw e (q, rest)
              | inl q ↦
                  let (j', (p, r)) = accepted-column ordered g ids ts cs dj q in
                  let same : j ≡ j' = Distinct-index ids j j' dj d there r in
                  let twice : elem j (columns cs) ≡ true = rw same p in ground (arith, c.0)
            ]
      ]

  pair_cost-gate :
      (ordered : IsOrdered F) (min_iou weight : F) (emb : Option (List F)) (box : BBox F)
      (det : Detection F)
      → (pair_cost min_iou weight emb box det <? forbidden) ≡ true
      → (iou box det.box <? min_iou) ≡ false
  unfolding pair_cost
  pair_cost-gate ordered min_iou weight emb box det h =
      elim (Bool-cases (iou box det.box <? min_iou)) [
        | inr e ↦ e
        | inl e ↦ let bad = rw e at h in ground (arith, ordered.lt_irrefl forbidden)
      ]

  module _ (ordered : IsOrdered F) (solver : Solver F) (boxes : List (BBox F)) (track_ids : List ℕ)
      (dets : List (Detection F)) (det_ids : List ℕ) (min_iou : F) (embs : Option (List (List F)))
      (weight : F) where
    abbrev pub found : List Match
    found = match_by_iou solver boxes track_ids dets det_ids min_iou embs weight

    abbrev cost_at : ℕ → ℕ → F
    cost_at ti dj =
        pair_cost min_iou weight (embedding_of embs ti) (get_or boxes ti zero_box)
          (get_or dets dj no_detection)

    -- Whatever the solver answers, each pair that `match_by_iou` returns has one of the detections it was
    -- given, and its boxes overlap by the gate at least.
    pub match_by_iou-gate :
        All
          (λ m.
            (elem m.1 det_ids ≡ true)
            × ((iou (get_or boxes m.0 zero_box) (get_or dets m.1 no_detection).box <? min_iou)
                ≡ false))
          found
    unfolding match_by_iou costs
    match_by_iou-gate =
        let cols = solver (costs boxes track_ids dets det_ids min_iou embs weight) in
        let all =
          All-map _ _
            (accepted det_ids track_ids (map (λ ti. map (cost_at ti) det_ids) track_ids) cols)
            (λ m (there, cheap). (there, pair_cost-gate ordered min_iou weight _ _ _ cheap))
            (accepted-All ordered cost_at det_ids track_ids cols) in
        elim (Bool-cases (is_empty track_ids || is_empty det_ids)) [
          | inl e ↦ rw e tt
          | inr e ↦ rw e all
        ]

    -- With a solver that assigns no column twice and detections without repetition, `match_by_iou` matches
    -- no detection twice.
    pub match_by_iou-seconds : IsAssignment solver → Distinct det_ids → Distinct (seconds found)
    unfolding match_by_iou costs
    match_by_iou-seconds assigns d =
        let cost = costs boxes track_ids dets det_ids min_iou embs weight in
        let all =
          accepted-seconds ordered cost_at det_ids track_ids (solver cost) d (assigns cost) in
        elim (Bool-cases (is_empty track_ids || is_empty det_ids)) [
          | inl e ↦ rw e tt
          | inr e ↦ rw e all
        ]
