-- ===== src/Sot/Nano/Served.antt =====
-- The runs of the engines that the siamese tracker makes for a frame.
use custos_tracker.Prelude.{
  length-map, ℕ, zero, suc, ◌-◌, ◌+◌, ◌*◌, pos, pos_part, negsuc, ℤ, max_ℤ, ltb_ℤ, false, get_elem?,
  length, List, map, some, ◌≡◌, ◌⊎◌, refl, ap, ◌∙◌, arith, Bool-cases, inl, inr,
}
use custos_tracker.Float.{Float, ◌⊗◌, ◌⊘◌, IsOrdered}
use custos_tracker.Types.{cx, cy, SotResult}
use custos_tracker.Geometry.Nms.{iota}
use custos_tracker.Subwindow.{Pixels, nano_subwindow}
use custos_tracker.Subwindow.Laws.{IsPixels}
use custos_tracker.Subwindow.Crops.{nano_subwindow-Shows}
use custos_tracker.Detector.Canvas.{TensorDesc, TensorView}
use custos_tracker.Sot.Nano.{
  NanoTracker, Cell, cell, no_cell, peak_from, moved, box_of, blend, context, head_inputs, is_due,
  since, elements, size_cal, run_one, features,
}
use custos_tracker.Sot.Nano.Update.{blob_rgb, template, embed, refresh, search}
use custos_tracker.Sot.Nano.Peak.{IsPeak, peak_from-IsPeak}

max_one : (x : ℤ) → (k : ℕ) × (max_ℤ (pos 1) x ≡ pos (suc k))
max_one (pos n) = elim (Bool-cases (ltb_ℤ (pos 1) (pos n))) [
  | inl e ↦ rw e (n - 1, ap pos (ground arith))
  | inr e ↦ rw e (0, refl)
]
max_one (negsuc n) = let e : ltb_ℤ (pos 1) (negsuc n) ≡ false = ground arith in rw e (0, refl)

length-iota : (i n : ℕ) → length (iota i n) ≡ n
length-iota i zero = refl
length-iota i (suc n) = ap suc (length-iota (i + 1) n)

length-blend :
    {F : Type 0} ⦃f : Float F⦄ (b : F) (zf zf2 : List F) → length (blend b zf zf2) ≡ length zf
unfolding blend
length-blend b zf zf2 = length-map (iota 0 (length zf)) _ ∙ length-iota 0 (length zf)

-- The engines answer, with the outputs that the code reads.
pub record IsServed {F : Type 0} ⦃f : Float F⦄ (t : NanoTracker F) : Type 0 where
  pub z : (values : ℕ → F) → (out : ℕ → F) × (run_one t.backbone_z values ≡ some out)
  pub z_desc : (d : TensorDesc) × (get_elem? t.backbone_z.output_descs 0 ≡ some d)
  pub x : (values : ℕ → F) → (out : ℕ → F) × (run_one t.backbone_x values ≡ some out)
  pub i0 : (d : TensorDesc) × (get_elem? t.head.input_descs 0 ≡ some d)
  pub i1 : (d : TensorDesc) × (get_elem? t.head.input_descs 1 ≡ some d)
  pub head :
      (ins : List (TensorView F))
      → (outs : List (TensorView F)) × ((t.head.run ins ≡ some outs)
          × (((v : TensorView F) × (get_elem? outs 0 ≡ some v))
              × ((v : TensorView F) × (get_elem? outs 1 ≡ some v))))

module _ {F Img A : Type 0} ⦃f : Float F⦄ (p : Pixels Img A) (bytes : A → ℕ → ℕ) (img : Img) where
  open f use {trunc}

  -- The cells that the loop reads are those of the head's answer on the search window of a tracker.
  pub record IsAnswer (t : NanoTracker F) (scale sx : F) (cells : ℕ → Cell F) : Type 0 where
    pub patch : Img
    pub xf : ℕ → F
    pub i0 : TensorDesc
    pub i1 : TensorDesc
    pub outs : List (TensorView F)
    pub cls : TensorView F
    pub reg : TensorView F
    pub cropped : nano_subwindow p img t.pos_x t.pos_y (trunc sx) (pos 255) ≡ some patch
    pub branch : run_one t.backbone_x (blob_rgb p bytes patch) ≡ some xf
    pub first : get_elem? t.head.input_descs 0 ≡ some i0
    pub second : get_elem? t.head.input_descs 1 ≡ some i1
    pub ran : t.head.run (head_inputs t i0 i1 xf) ≡ some outs
    pub scores : get_elem? outs 0 ≡ some cls
    pub boxes : get_elem? outs 1 ≡ some reg
    pub reads :
        cells
        ≡ cell t cls.values reg.values
            (t.sz_w ⊗ scale ⊘ (t.sz_h ⊗ scale))
            (size_cal t.pos_x t.pos_y)

module _ {F Img A : Type 0} ⦃f : Float F⦄ (p : Pixels Img A) (bytes : A → ℕ → ℕ) (laws : IsPixels p)
    (img : Img) (c r : ℕ) (cols_is : p.cols img ≡ pos (suc c))
    (rows_is : p.rows img ≡ pos (suc r)) where
  open f use {lit, of_int, sqrt, trunc}

  template-some :
      (t : NanoTracker F) (x y : F) (s : ℤ) (k : ℕ)
      → IsServed t
      → s ≡ pos (suc k)
      → (zf : List F) × (template p bytes t img x y s ≡ some zf)
  unfolding template features
  template-some t x y s k h e =
      let (patch, (_, q)) = nano_subwindow-Shows p laws img c r cols_is rows_is x y k (pos 127) in
      let (out, z) = h.z (blob_rgb p bytes (p.resize patch (pos 127))) in
      let (d, has) = h.z_desc in
      (map out (iota 0 (elements d)), rw (template, e, q, features, z, has) refl)

  pub refresh-some :
      (t : NanoTracker F) (res : SotResult F)
      → IsServed t
      → (t' : NanoTracker F) × ((refresh p bytes img res t ≡ some (res, t'))
          × ((t'.zf ≡ t.zf)
              × (((t'.zf_mix ≡ t.zf_mix) ⊎ (length t'.zf_mix ≡ length t.zf))
                  × ((box_of t' ≡ box_of t)
                      × ((t'.pos_x ≡ t.pos_x)
                          × ((t'.pos_y ≡ t.pos_y) × ((t'.sz_w ≡ t.sz_w) × (t'.sz_h ≡ t.sz_h))))))))
  unfolding refresh embed
  refresh-some t res h = elim (Bool-cases (is_due res.score t)) [
    | inl e ↦
        let (k, one_is) = max_one (context t res.box.w res.box.h) in
        let (zf2, made) =
          template-some t (cx res.box) (cy res.box) (max_ℤ (pos 1) (context t res.box.w res.box.h))
            k h one_is in
        (
          record t { since_refresh = pos 0; zf_mix = blend t.cfg.template_blend t.zf zf2 },
          (
            rw (refresh, e, embed, made) refl,
            (
              refl,
              (
                inr (length-blend t.cfg.template_blend t.zf zf2),
                (refl, (refl, (refl, (refl, refl)))),
              ),
            ),
          ),
        )
    | inr e ↦ (
      record t { since_refresh = since t },
      (rw (refresh, e) refl, (refl, (inl refl, (refl, (refl, (refl, (refl, refl))))))),
    )
  ]

  -- The best cell comes from the map that the head answers.
  pub search-IsPeak :
      IsOrdered F
      → (t : NanoTracker F) (scale sx : F) (k : ℕ) → IsServed t
      → trunc sx ≡ pos (suc k)
      → (best : Cell F) × ((search p bytes img t scale sx ≡ some best)
          × ((cells : ℕ → Cell F) × (IsAnswer p bytes img t scale sx cells
                × IsPeak cells no_cell (pos_part t.score_size * pos_part t.score_size) best)))
  unfolding search
  search-IsPeak o t scale sx k h e =
      let (patch, (_, q)) =
        nano_subwindow-Shows p laws img c r cols_is rows_is t.pos_x t.pos_y k (pos 255) in
      let (xf, x) = h.x (blob_rgb p bytes (p.resize patch (pos 255))) in
      let (i0, has0) = h.i0 in
      let (i1, has1) = h.i1 in
      let (outs, (ran, ((cls, o0), (reg, o1)))) = h.head (head_inputs t i0 i1 xf) in
      let cells =
        cell t cls.values reg.values (t.sz_w ⊗ scale ⊘ (t.sz_h ⊗ scale))
          (size_cal t.pos_x t.pos_y) in
      let n = pos_part t.score_size * pos_part t.score_size in
      (
        peak_from cells 0 n no_cell,
        (
          rw (search, e, q, x, has0, has1, ran, o0, o1) refl,
          (
            cells,
            (
              record {
                patch = p.resize patch (pos 255);
                xf = xf;
                i0 = i0;
                i1 = i1;
                outs = outs;
                cls = cls;
                reg = reg;
                cropped = rw e q;
                branch = x;
                first = has0;
                second = has1;
                ran = ran;
                scores = o0;
                boxes = o1;
                reads = refl;
              },
              peak_from-IsPeak o cells no_cell n,
            ),
          ),
        ),
      )

pub moved-IsServed :
    {F : Type 0} ⦃f : Float F⦄ (t : NanoTracker F) (scale : F) (b : Cell F)
    → IsServed t
    → IsServed (moved t scale b)
unfolding moved
moved-IsServed t scale b h = record {
  z = h.z;
  z_desc = h.z_desc;
  x = h.x;
  i0 = h.i0;
  i1 = h.i1;
  head = h.head;
}
