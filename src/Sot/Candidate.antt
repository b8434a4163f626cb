-- ===== src/Sot/Candidate.antt =====
-- core/src/sot/sot_tracker.cpp: the appearance check and the choice of a re-acquisition candidate.
pub mod Laws
mod Tests
use custos_tracker.Prelude.{
  ℕ, ℤ, pos, Bool, true, false, not, ◌||◌, ◌&&◌, ◌==◌, if◌then◌else◌, ltb_ℤ, leb_ℤ, eqb_ℤ, List, [],
  ◌∷◌, length, is_empty, Option, none, some,
}
use custos_tracker.Float.{Float, ◌⊕◌, ◌⊖◌, ◌⊗◌, ◌⊘◌, ◌<?◌, ◌≤?◌, one, nought}
use custos_tracker.Types.{BBox, Detection, cx, cy}
use custos_tracker.Mat.{Vision}
use custos_tracker.Appearance.{is_degenerate, clipped, Sums, sums_from}
use custos_tracker.Sot.Config.{Embedder, no_embedder, nano_z, Reid, ReacquireConfig}
use custos_tracker.Sot.World.{Backends, Engine, nano, mosse}

module _ {F P Img Hist : Type 0} ⦃f : Float F⦄ (v : Vision F P Img Hist) where
  -- `none` is the empty histogram of a region that is too small.
  unfoldable pub hsv_hist : Img → BBox F → Option Hist
  hsv_hist img box =
      let roi = clipped v img box in if is_degenerate roi then none else some (v.hist_l1 img roi)

module _ {F : Type 0} ⦃f : Float F⦄ where
  open f use {sqrt, hypot, of_int, neg}

  unfoldable pub cosine : List F → List F → F
  cosine a b = if is_empty a || not (length a == length b) then nought else quotient
    where
      s : Sums F
      s = sums_from (record { dot = nought; na = nought; nb = nought }) a b

      denom : F
      denom = sqrt s.na ⊗ sqrt s.nb

      quotient : F
      quotient = if nought <? denom then s.dot ⊘ denom else nought

-- The re-identification reference, taken from the first box.
pub record Reference (F Hist : Type 0) : Type 0 where
  pub ref_hist : Option Hist
  pub ref_embed : List F

module _ {F P Img Hist N M : Type 0} ⦃f : Float F⦄ (v : Vision F P Img Hist)
    (b : Backends F Img N M) where
  hist_similarity : Option Hist → Img → BBox F → F
  unfolding hsv_hist
  hist_similarity none img box = one
  hist_similarity (some h) img box = elim (hsv_hist v img box) [
    | none ↦ one
    | some g ↦ one ⊖ v.bhattacharyya h g
  ]

  embed_similarity : Engine N M → List F → Img → BBox F → F
  unfolding cosine
  embed_similarity (nano n) e img box =
      if is_empty e then one else cosine (b.nano_embed img box n) e
  embed_similarity (mosse m) e img box = one

  unfoldable pub similarity : Embedder → Engine N M → Reference F Hist → Img → BBox F → F
  unfolding hist_similarity embed_similarity
  similarity no_embedder e r img box = one
  similarity Embedder.hsv_hist e r img box = hist_similarity r.ref_hist img box
  similarity nano_z e r img box = embed_similarity e r.ref_embed img box

-- The best candidate so far, with its distance and its similarity.
pub record Pick (F : Type 0) : Type 0 where
  pub best : Option (Detection F)
  pub best_dist : F
  pub best_sim : F

module _ {F : Type 0} ⦃f : Float F⦄ (cfg : ReacquireConfig F) (last_good : BBox F) where
  open f use {sqrt, hypot, of_int, neg}

  unfoldable pub search_radius : ℕ → F
  search_radius frames_lost =
      hypot last_good.w last_good.h
      ⊗ (cfg.base_radius_frac ⊕ cfg.growth_per_frame ⊗ of_int (pos frames_lost))

  unfoldable pub size_ratio : Detection F → F
  size_ratio d = sqrt ((d.box.w ⊗ d.box.h) ⊘ (last_good.w ⊗ last_good.h))

  unfoldable pub distance : Detection F → F
  distance d = hypot (cx d.box ⊖ cx last_good) (cy d.box ⊖ cy last_good)

  module _ (radius : F) (use_reid : Bool) (accept : F) (sim : BBox F → F) where
    -- The last part of the loop body: the choice among what passes the gates.
    pub prefer : Detection F → Pick F → Pick F
    prefer d p =
        if use_reid
        then if sim d.box <? accept
          then p
          else if p.best_sim <? sim d.box
          then record p { best = some d; best_sim = sim d.box }
          else p
        else if distance d ≤? p.best_dist
        then record p { best = some d; best_dist = distance d }
        else p

    -- The loop body, a `continue` for each gate.
    unfoldable pub consider : Detection F → Pick F → Pick F
    unfolding prefer
    consider d p =
        if d.score <? cfg.min_score
        then p
        else if leb_ℤ (pos 0) cfg.class_id && not (eqb_ℤ d.class_id cfg.class_id)
        then p
        else if size_ratio d <? cfg.size_low || cfg.size_high <? size_ratio d
        then p
        else if radius <? distance d
        then p
        else prefer d p

    unfoldable pub pick_loop : List (Detection F) → Pick F → Pick F
    pick_loop [] p = p
    pick_loop (d ∷ ds) p = pick_loop ds (consider d p)

    abbrev pub no_pick : Pick F
    no_pick = record { best = none; best_dist = radius; best_sim = neg one }

abbrev pub uses_reid : Embedder → Bool
uses_reid no_embedder = false
uses_reid _ = true

module _ {F : Type 0} ⦃f : Float F⦄ where
  unfoldable pub pick_candidate :
      ReacquireConfig F
      → Reid F
      → BBox F
      → ℕ
      → (BBox F → F)
      → List (Detection F)
      → Option (Detection F)
  pick_candidate cfg reid last_good frames_lost sim dets =
      let radius = search_radius cfg last_good frames_lost in
      let use_reid = uses_reid reid.embedder in
      (pick_loop cfg last_good radius use_reid reid.accept sim dets
        (no_pick cfg last_good radius use_reid reid.accept sim)).best
