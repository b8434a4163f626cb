-- ===== src/Tbd/Assoc/Laws.antt =====
-- What `match_by_iou` and `remove_matched` return.
use custos_tracker.Prelude.{
  ℕ, Bool, true, false, not, ◌&&◌, List, [], ◌∷◌, elem, Distinct, Option, none, some, ◌≡◌, refl,
  arith,
}
use custos_tracker.Prelude.Indices.{elem-keep, Distinct-keep}
use custos_tracker.Float.{Float}
use custos_tracker.Types.{BBox, Detection}
use custos_tracker.Tbd.Assoc.{
  Solver, Match, accepted, costs, match_by_iou, firsts, seconds, remove_matched,
}

module _ {F : Type 0} ⦃f : Float F⦄ where
  accepted-elem :
      (ids tis : List ℕ) (rows : List (List F)) (cols : List (Option ℕ)) (i : ℕ)
      → elem i tis ≡ false
      → elem i (firsts (accepted ids tis rows cols)) ≡ false
  unfolding accepted
  accepted-elem ids [] rows cols i h = refl
  accepted-elem ids (t ∷ ts) [] cols i h = refl
  accepted-elem ids (t ∷ ts) (r ∷ rs) [] i h = refl
  accepted-elem ids (t ∷ ts) (r ∷ rs) (none ∷ cs) i h = ground (arith, accepted-elem ids ts rs cs i)
  accepted-elem ids (t ∷ ts) (r ∷ rs) (some j ∷ cs) i h =
      ground (arith, accepted-elem ids ts rs cs i)

  accepted-Distinct :
      (ids tis : List ℕ) (rows : List (List F)) (cols : List (Option ℕ))
      → Distinct tis
      → Distinct (firsts (accepted ids tis rows cols))
  unfolding accepted
  accepted-Distinct ids [] rows cols d = tt
  accepted-Distinct ids (t ∷ ts) [] cols d = tt
  accepted-Distinct ids (t ∷ ts) (r ∷ rs) [] d = tt
  accepted-Distinct ids (t ∷ ts) (r ∷ rs) (none ∷ cs) d = accepted-Distinct ids ts rs cs d.1
  accepted-Distinct ids (t ∷ ts) (r ∷ rs) (some j ∷ cs) d =
      ground (arith, accepted-Distinct ids ts rs cs d.1, accepted-elem ids ts rs cs t d.0)

  module _ (solver : Solver F) (boxes : List (BBox F)) (track_ids : List ℕ)
      (dets : List (Detection F)) (det_ids : List ℕ) (min_iou : F) (embs : Option (List (List F)))
      (weight : F) where
    abbrev found : List Match
    found = match_by_iou solver boxes track_ids dets det_ids min_iou embs weight

    pub match_by_iou-elem : (i : ℕ) → elem i track_ids ≡ false → elem i (firsts found) ≡ false
    unfolding match_by_iou
    match_by_iou-elem i h = ground (
      arith,
      accepted-elem det_ids track_ids (costs boxes track_ids dets det_ids min_iou embs weight)
          (solver (costs boxes track_ids dets det_ids min_iou embs weight)) i h,
    )

    pub match_by_iou-Distinct : Distinct track_ids → Distinct (firsts found)
    unfolding match_by_iou
    match_by_iou-Distinct d = ground (
      arith,
      accepted-Distinct det_ids track_ids (costs boxes track_ids dets det_ids min_iou embs weight)
          (solver (costs boxes track_ids dets det_ids min_iou embs weight)) d,
    )

pub elem-remove_matched :
    (pool : List ℕ) (ms : List Match) (i : ℕ)
    → elem i (remove_matched pool ms true) ≡ (elem i pool && not (elem i (firsts ms)))
unfolding remove_matched
elem-remove_matched pool ms i = elem-keep _ pool i

pub elem-remove_matched_detections :
    (pool : List ℕ) (ms : List Match) (i : ℕ)
    → elem i (remove_matched pool ms false) ≡ (elem i pool && not (elem i (seconds ms)))
unfolding remove_matched
elem-remove_matched_detections pool ms i = elem-keep _ pool i

pub Distinct-remove_matched :
    (pool : List ℕ) (ms : List Match) (first : Bool)
    → Distinct pool
    → Distinct (remove_matched pool ms first)
unfolding remove_matched
Distinct-remove_matched pool ms first d = Distinct-keep _ pool d
