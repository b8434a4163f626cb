-- ===== src/Sot/Nano.antt =====
-- core/src/sot/nanotrack.cpp: the siamese tracker over three engines. Images are the parameter `Pixels`, with
-- `bytes` for the channels of a pixel; `none` is an exception. The Hanning window is a parameter of the
-- constructor. The buffers that each call writes before it reads them are not part of the state.
pub mod Update
pub mod Peak
pub mod Served
pub mod Laws
mod Tests
use mathlib.Core.Option
use custos_tracker.Prelude.{
  ℕ, zero, suc, ◌+◌, ◌-◌, ◌*◌, ◌/◌, ◌%◌, pos, pos_part, ℤ, ◌+ℤ◌, ◌-ℤ◌, ◌*ℤ◌, max_ℤ, ltb_ℤ, leb_ℤ,
  eqb_ℤ, Bool, true, false, ◌&&◌, ◌==◌, if◌then◌else◌, get_or, get_elem?, length, is_empty, List,
  [], ◌∷◌, ◌++◌, map, Option, none, some,
}
use custos_tracker.Float.{Float, ◌⊕◌, ◌⊖◌, ◌⊗◌, ◌⊘◌, ◌<?◌, ◌≤?◌, nought, one, half, fmax, fclamp}
use custos_tracker.Types.{BBox, cx, cy, SotResult, tracking}
use custos_tracker.Subwindow.{Pixels, nano_subwindow}
use custos_tracker.Sot.Config.{SotConfig}
use custos_tracker.Geometry.Nms.{iota}
use custos_tracker.Detector.Canvas.{Engine, TensorDesc, TensorView}

pub record NanoTracker (F : Type 0) : Type 0 where
  pub cfg : SotConfig F
  pub backbone_z : Engine F
  pub backbone_x : Engine F
  pub head : Engine F
  pub score_size : ℤ
  pub hann : List F
  pub zf : List F
  pub zf_mix : List F
  pub since_refresh : ℤ
  pub pos_x : F
  pub pos_y : F
  pub sz_w : F
  pub sz_h : F
  pub img_w : ℤ
  pub img_h : ℤ

infixl 5 ◌>>=◌
abbrev pub ◌>>=◌ {ℓ κ} : {A : Type ℓ} {B : Type κ} → Option A → (A → Option B) → Option B
none >>= f = none
some a >>= f = f a

-- The number of elements of a tensor.
abbrev product : List ℤ → ℤ
product [] = pos 1
product (d ∷ ds) = d *ℤ product ds

abbrev pub elements : TensorDesc → ℕ
elements d = pos_part (product d.shape)

-- A cell of the score map, and the best one so far.
pub record Cell (F : Type 0) : Type 0 where
  pub pscore : F
  pub score : F
  pub penalty : F
  pub x1 : F
  pub y1 : F
  pub x2 : F
  pub y2 : F

module _ {F : Type 0} ⦃f : Float F⦄ where
  open f use {lit, of_int, sqrt, exp, trunc, neg}

  abbrev pub size_cal : F → F → F
  size_cal w h = let pad = (w ⊕ h) ⊗ half in sqrt ((w ⊕ pad) ⊗ (h ⊕ pad))

  abbrev recip_max : F → F
  recip_max v = fmax v (one ⊘ v)

  -- `grid_x_` and `grid_y_` at a cell: `c` is its column or row.
  abbrev grid : ℕ → ℕ → F
  grid size c = of_int ((pos c -ℤ pos (size / 2)) *ℤ pos 16 +ℤ pos 127)

  abbrev before_init :
      SotConfig F → Engine F → Engine F → Engine F → (ℤ → List F) → ℤ → NanoTracker F
  before_init cfg z x head hanning size = record {
    cfg = cfg;
    backbone_z = z;
    backbone_x = x;
    head = head;
    score_size = size;
    hann = hanning size;
    zf = [];
    zf_mix = [];
    since_refresh = pos 0;
    pos_x = nought;
    pos_y = nought;
    sz_w = nought;
    sz_h = nought;
    img_w = pos 0;
    img_h = pos 0;
  }

  -- The constructor, with the engines that were made from the configuration.
  unfoldable pub create :
      SotConfig F → Engine F → Engine F → Engine F → (ℤ → List F) → Option (NanoTracker F)
  create cfg z x head hanning = do
    cls ← get_elem? head.output_descs 0
    let dim = λ (i : ℕ). get_or cls.shape i (pos 0)
    if (length cls.shape == 4) && eqb_ℤ (dim 1) (pos 2) && eqb_ℤ (dim 2) (dim 3)
        then some (before_init cfg z x head hanning (dim 2))
        else none

  -- The loop over the cells: the values of one, by the outputs of the head.
  unfoldable pub cell : NanoTracker F → (ℕ → F) → (ℕ → F) → F → F → ℕ → Cell F
  cell t cls reg ratio target_ref i =
      let size = pos_part t.score_size in
      let cells = size * size in
      let c0 = cls i in
      let c1 = cls (cells + i) in
      let m = fmax c0 c1 in
      let e0 = exp (c0 ⊖ m) in
      let e1 = exp (c1 ⊖ m) in
      let score = e1 ⊘ (e0 ⊕ e1) in
      let gx = grid size (i % size) in
      let gy = grid size (i / size) in
      let x1 = gx ⊖ reg (0 * cells + i) in
      let y1 = gy ⊖ reg (1 * cells + i) in
      let x2 = gx ⊕ reg (2 * cells + i) in
      let y2 = gy ⊕ reg (3 * cells + i) in
      let sc = recip_max (size_cal (x2 ⊖ x1) (y2 ⊖ y1) ⊘ target_ref) in
      let rc = recip_max (ratio ⊘ ((x2 ⊖ x1) ⊘ (y2 ⊖ y1))) in
      let penalty = exp (neg (rc ⊗ sc ⊖ one) ⊗ t.cfg.penalty_k) in
      record {
        pscore =
            penalty ⊗ score ⊗ (one ⊖ t.cfg.window_influence)
            ⊕ get_or t.hann i nought ⊗ t.cfg.window_influence;
        score = score;
        penalty = penalty;
        x1 = x1;
        y1 = y1;
        x2 = x2;
        y2 = y2;
      }

  abbrev pub no_cell : Cell F
  no_cell = record {
    pscore = neg one;
    score = nought;
    penalty = nought;
    x1 = nought;
    y1 = nought;
    x2 = nought;
    y2 = nought;
  }

  unfoldable pub better : Cell F → Cell F → Cell F
  better best c = if best.pscore <? c.pscore then c else best

  -- The cells from `i` on, `n` of them.
  pub peak_from : (ℕ → Cell F) → ℕ → ℕ → Cell F → Cell F
  peak_from cells i zero best = best
  peak_from cells i (suc n) best = peak_from cells (i + 1) n (better best (cells i))

  -- The state and the result after the best cell is known, before the template is refreshed.
  unfoldable pub moved : NanoTracker F → F → Cell F → NanoTracker F
  moved t scale_z b =
      let pred_xs = (b.x1 ⊕ b.x2) ⊗ half in
      let pred_ys = (b.y1 ⊕ b.y2) ⊗ half in
      let pred_w = (b.x2 ⊖ b.x1) ⊘ scale_z in
      let pred_h = (b.y2 ⊖ b.y1) ⊘ scale_z in
      let diff_xs = (pred_xs ⊖ lit 127 0) ⊘ scale_z in
      let diff_ys = (pred_ys ⊖ lit 127 0) ⊘ scale_z in
      let sz_w = t.sz_w ⊗ scale_z ⊘ scale_z in
      let sz_h = t.sz_h ⊗ scale_z ⊘ scale_z in
      let lr = b.penalty ⊗ b.score ⊗ t.cfg.size_lr in
      let w_f = of_int t.img_w in
      let h_f = of_int t.img_h in
      record t {
        pos_x = fclamp (t.pos_x ⊕ diff_xs) nought w_f;
        pos_y = fclamp (t.pos_y ⊕ diff_ys) nought h_f;
        sz_w = fclamp (pred_w ⊗ lr ⊕ (one ⊖ lr) ⊗ sz_w) (lit 10 0) w_f;
        sz_h = fclamp (pred_h ⊗ lr ⊕ (one ⊖ lr) ⊗ sz_h) (lit 10 0) h_f;
      }

  abbrev pub box_of : NanoTracker F → BBox F
  box_of t = record {
    x = t.pos_x ⊖ t.sz_w ⊗ half;
    y = t.pos_y ⊖ t.sz_h ⊗ half;
    w = t.sz_w;
    h = t.sz_h;
  }

  unfoldable pub blend : F → List F → List F → List F
  blend b zf zf2 =
      map (λ i. b ⊗ get_or zf i nought ⊕ (one ⊖ b) ⊗ get_or zf2 i nought) (iota 0 (length zf))

  -- The frames since the template was refreshed, and whether it is due.
  abbrev since : NanoTracker F → ℤ
  since t =
      if ltb_ℤ (pos 0) t.cfg.template_update_interval
      then t.since_refresh +ℤ pos 1
      else t.since_refresh

  abbrev pub is_due : F → NanoTracker F → Bool
  is_due score t =
      ltb_ℤ (pos 0) t.cfg.template_update_interval
      && leb_ℤ t.cfg.template_update_interval (since t)
      && t.cfg.template_refresh_thr ≤? score

  abbrev pub context : NanoTracker F → F → F → ℤ
  context t w h =
      let sum = w ⊕ h in
      trunc (sqrt ((w ⊕ t.cfg.context_amount ⊗ sum) ⊗ (h ⊕ t.cfg.context_amount ⊗ sum)))

  -- The side of the target's context, with the sum of the sizes truncated.
  abbrev pub extent : NanoTracker F → F
  extent t =
      let sz_sum = of_int (trunc (t.sz_w ⊕ t.sz_h)) in
      let wc = t.sz_w ⊕ t.cfg.context_amount ⊗ sz_sum in
      let hc = t.sz_h ⊕ t.cfg.context_amount ⊗ sz_sum in sqrt (wc ⊗ hc)

  -- What the head is given.
  abbrev pub head_inputs : NanoTracker F → TensorDesc → TensorDesc → (ℕ → F) → List (TensorView F)
  head_inputs t i0 i1 xf =
      let z = if is_empty t.zf_mix then t.zf else t.zf_mix in
      record { name = "input1"; shape = i0.shape; values = λ k. get_or z k nought }
      ∷ record { name = "input2"; shape = i1.shape; values = xf }
      ∷ []

  -- A run of a graph with one input: its first output.
  unfoldable pub run_one : Engine F → (ℕ → F) → Option (ℕ → F)
  run_one e values = do
    i ← get_elem? e.input_descs 0
    outs ← e.run (record { name = i.name; shape = i.shape; values = values } ∷ [])
    t ← get_elem? outs 0
    some t.values

  -- The features that the template branch makes of a crop.
  unfoldable pub features : Engine F → (ℕ → F) → Option (List F)
  features e values = do
    out ← run_one e values
    d ← get_elem? e.output_descs 0
    some (map out (iota 0 (elements d)))
