-- ===== src/Sot/Nano/Update.antt =====
-- The operations of `NanoTracker` on images.
use mathlib.Core.Option
use custos_tracker.Prelude.{
  ℕ, ◌*◌, ◌/◌, ◌%◌, pos, pos_part, ℤ, max_ℤ, if◌then◌else◌, get_or, get_elem?, List, [], ◌++◌, map,
  Option, some,
}
use custos_tracker.Float.{Float, ◌⊕◌, ◌⊗◌, ◌⊘◌, nought, half}
use custos_tracker.Types.{BBox, cx, cy, SotResult, tracking}
use custos_tracker.Subwindow.{Pixels, nano_subwindow}
use custos_tracker.Geometry.Nms.{iota}
use custos_tracker.Sot.Nano.{
  NanoTracker, Cell, cell, no_cell, peak_from, moved, box_of, blend, run_one, features, context,
  since, is_due, head_inputs, extent, size_cal, ◌>>=◌,
}

module _ {F Img A : Type 0} ⦃f : Float F⦄ (p : Pixels Img A) (bytes : A → ℕ → ℕ) where
  open f use {lit, of_int, sqrt, trunc}

  unfoldable pub blob_rgb : Img → ℕ → F
  blob_rgb crop k =
      let cols = pos_part (p.cols crop) in
      let plane = λ (ch : ℕ).
        map (λ i. of_int (pos (bytes (p.pixel crop (i % cols) (i / cols)) ch)))
          (iota 0 (pos_part (p.rows crop) * cols)) in
      get_or (plane 2 ++ plane 1 ++ plane 0) k nought

  -- A crop of the template's size, through the template branch.
  unfoldable pub template : NanoTracker F → Img → F → F → ℤ → Option (List F)
  template t img x y s = do
    crop ← nano_subwindow p img x y s (pos 127)
    features t.backbone_z (blob_rgb crop)

  unfoldable pub init : Img → BBox F → NanoTracker F → Option (NanoTracker F)
  init img target t = do
    let x = target.x ⊕ target.w ⊗ half
    let y = target.y ⊕ target.h ⊗ half
    zf ← template t img x y (context t target.w target.h)
    some (record t {
      pos_x = x;
      pos_y = y;
      sz_w = target.w;
      sz_h = target.h;
      img_w = p.cols img;
      img_h = p.rows img;
      zf_mix = [];
      since_refresh = pos 0;
      zf = zf;
    })

  unfoldable pub embed : Img → BBox F → NanoTracker F → Option (List F)
  embed img box t = template t img (cx box) (cy box) (max_ℤ (pos 1) (context t box.w box.h))

  -- The dual template.
  unfoldable pub refresh : Img → SotResult F → NanoTracker F → Option (SotResult F × NanoTracker F)
  refresh img result t =
      if is_due result.score t
      then Option.map
          (λ zf2. (
            result,
            record t { since_refresh = pos 0; zf_mix = blend t.cfg.template_blend t.zf zf2 },
          ))
          (embed img result.box t)
      else some (result, record t { since_refresh = since t })

  -- The best cell of the head's answer on the search window.
  unfoldable pub search : Img → NanoTracker F → F → F → Option (Cell F)
  search img t scale_z sx = do
    crop ← nano_subwindow p img t.pos_x t.pos_y (trunc sx) (pos 255)
    xf ← run_one t.backbone_x (blob_rgb crop)
    i0 ← get_elem? t.head.input_descs 0
    i1 ← get_elem? t.head.input_descs 1
    outs ← t.head.run (head_inputs t i0 i1 xf)
    cls ← get_elem? outs 0
    reg ← get_elem? outs 1
    let ratio = t.sz_w ⊗ scale_z ⊘ (t.sz_h ⊗ scale_z)
    let cells = cell t cls.values reg.values ratio (size_cal t.pos_x t.pos_y)
    some (peak_from cells 0 (pos_part t.score_size * pos_part t.score_size) no_cell)

  unfoldable pub update : Img → NanoTracker F → Option (SotResult F × NanoTracker F)
  update img t = do
    let sz = extent t
    let scale_z = lit 127 0 ⊘ sz
    best ← search img t scale_z (sz ⊗ lit 2 0)
    let t' = moved t scale_z best
    refresh img (record { box = box_of t'; score = best.score; state = tracking }) t'
