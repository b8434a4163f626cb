-- ===== src/Tbd/Assoc.antt =====
-- core/src/tbd/byte_tracker.cpp: `match_by_iou` and `remove_matched`. The assignment solver is an
-- argument, `Solver`; `IsAssignment` is what the code relies on.
pub mod Gate
pub mod Laws
use custos_tracker.Prelude.{
  ℕ, negsuc, zero, suc, Bool, true, false, not, ◌&&◌, ◌||◌, if◌then◌else◌, List, [], ◌∷◌, map, keep,
  elem, get_or, get_elem?, is_empty, Option, none, some,
}
use custos_tracker.Float.{Float, ◌⊕◌, ◌⊖◌, ◌⊗◌, ◌<?◌, one, nought}
use custos_tracker.Types.{BBox, Detection, zero_box}
use custos_tracker.Geometry.Boxes.{iou}
use custos_tracker.Appearance.{cosine_similarity}

-- A row-major cost matrix to the column of each row; `none` is the -1 of an unassigned row.
abbrev pub Solver : Type 0 → Type 0
Solver F = List (List F) → List (Option ℕ)

-- A track index with a detection index.
abbrev pub Match : Type 0
Match = ℕ × ℕ

module _ {F : Type 0} ⦃f : Float F⦄ where
  open f use {lit}

  abbrev pub forbidden : F
  forbidden = lit 1000000 0

  abbrev pub no_detection : Detection F
  no_detection = record { box = zero_box; score = nought; class_id = negsuc 0; embedding = [] }

  -- The cost of a pair. `emb` is the track's descriptor, if the stage looks at appearance.
  unfoldable pub pair_cost : F → F → Option (List F) → BBox F → Detection F → F
  pair_cost min_iou weight emb box det =
      let overlap = iou box det.box in
      let geometric = one ⊖ overlap in
      if overlap <? min_iou then forbidden else elim emb [
        | none ↦ geometric
        | some e ↦
            if nought <? weight && not (is_empty det.embedding) && not (is_empty e)
            then (one ⊖ weight) ⊗ geometric ⊕ weight ⊗ (one ⊖ cosine_similarity e det.embedding)
            else geometric
      ]

  -- The rows' columns whose cost is below the forbidden one, as pairs of indices.
  pub accepted : List ℕ → List ℕ → List (List F) → List (Option ℕ) → List Match
  accepted det_ids [] rows cols = []
  accepted det_ids (ti ∷ tis) [] cols = []
  accepted det_ids (ti ∷ tis) (row ∷ rows) [] = []
  accepted det_ids (ti ∷ tis) (row ∷ rows) (none ∷ cols) = accepted det_ids tis rows cols
  accepted det_ids (ti ∷ tis) (row ∷ rows) (some j ∷ cols) =
      let rest = accepted det_ids tis rows cols in
      if get_or row j forbidden <? forbidden then (ti, get_or det_ids j 0) ∷ rest else rest

  abbrev pub embedding_of : Option (List (List F)) → ℕ → Option (List F)
  embedding_of none ti = none
  embedding_of (some embs) ti = some (get_or embs ti [])

  unfoldable pub costs :
      List (BBox F)
      → List ℕ
      → List (Detection F)
      → List ℕ
      → F
      → Option (List (List F))
      → F
      → List (List F)
  costs boxes track_ids dets det_ids min_iou embs weight =
      map
        (λ ti.
          map
            (λ dj.
              pair_cost min_iou weight (embedding_of embs ti) (get_or boxes ti zero_box)
                (get_or dets dj no_detection))
            det_ids)
        track_ids

  unfoldable pub match_by_iou :
      Solver F
      → List (BBox F)
      → List ℕ
      → List (Detection F)
      → List ℕ
      → F
      → Option (List (List F))
      → F
      → List Match
  match_by_iou solver boxes track_ids dets det_ids min_iou embs weight =
      let cost = costs boxes track_ids dets det_ids min_iou embs weight in
      let pairs = accepted det_ids track_ids cost (solver cost) in
      if is_empty track_ids || is_empty det_ids then [] else pairs

abbrev pub firsts : List Match → List ℕ
firsts = map λ m. m.0

abbrev pub seconds : List Match → List ℕ
seconds = map λ m. m.1

-- `remove_matched`: with `first` the pairs' tracks are taken, and otherwise their detections.
unfoldable pub remove_matched : List ℕ → List Match → Bool → List ℕ
remove_matched pool matches first =
    keep (λ idx. not (elem idx (if first then firsts matches else seconds matches))) pool
