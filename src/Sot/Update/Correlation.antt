-- ===== src/Sot/Update/Correlation.antt =====
-- `SotTracker` over the correlation filter of mosse.cpp, and no detector: a run from `init` on.
mod Tests
use mathlib.Core.Option
use custos_tracker.Prelude.{
  ℤ, pos, suc, ltb_ℤ, leb_ℤ, ◌&&◌, ◌||◌, Bool, true, false, not, if◌then◌else◌, List, [], ◌∷◌, ◌++◌,
  length, All, Option, none, some, ◌≡◌, refl, ap, ◌∙◌,
}
use custos_tracker.Float.{Float, ◌≤?◌, IsOrdered}
use custos_tracker.Types.{BBox, SotResult, FrameView, tracking, lost}
use custos_tracker.Mat.{Vision, as_mat}
use custos_tracker.Subwindow.{Pixels}
use custos_tracker.Subwindow.Laws.{IsPixels}
use custos_tracker.Sot.World.{Backends, Detector, Engine, mosse, backend_init, backend_update}
use custos_tracker.Sot.Candidate.{similarity, uses_reid}
use custos_tracker.Sot.Mosse
use custos_tracker.Sot.Mosse.{Spectra, MosseTracker}
use custos_tracker.Sot.Mosse.Laws.{
  HasPixels, IsTrained, IsWide, IsInFrame, init-IsTrained, update-some,
}
use custos_tracker.Sot.Update.{
  Impl, init, update, update_image, settle, recover, verify, latch, scored, is_lost, is_tracking,
  refer, state_of, state_at, next_streak, target_lost,
}
use custos_tracker.Sot.Update.Alone.{settle-Keeps, scored-Keeps}

module _ {F P Img Hist N M D A : Type 0} ⦃f : Float F⦄ (v : Vision F P Img Hist) (p : Pixels Img A)
    (black : A) (s : Spectra F Img M) (others : Backends F Img N (MosseTracker F M))
    (dt : Detector F P D) where
  -- The operations of the correlation filter as the engine; those of the other engine are not called.
  abbrev pub correlation : Backends F Img N (MosseTracker F M)
  correlation = record others {
    mosse_init = λ img box m. Mosse.init p black s img box;
    mosse_update = Mosse.update p black s;
  }

  -- A tracker that follows a target with a trained filter in frames of the given size.
  pub record IsFollowing (w h : ℤ) (t : Impl F Hist N (MosseTracker F M) D) : Type 0 where
    pub m : MosseTracker F M
    pub engine_is : t.engine ≡ mosse m
    pub trained : IsTrained p black s m
    pub w_is : m.img_w ≡ w
    pub h_is : m.img_h ≡ h
    pub alone : t.detector ≡ none

  -- A frame that is read as an image with pixels.
  pub record IsSeen (frame : FrameView P) : Type 0 where
    pub img : Img
    pub reads : as_mat v frame ≡ some img
    pub pixels : HasPixels p black s img

  -- Frames one after the other, with a result for each.
  pub update_frames :
      List (FrameView P) → Impl F Hist N (MosseTracker F M) D → Option (List (SotResult F))
  update_frames [] t = some []
  update_frames (frame ∷ frames) t = elim (update v correlation dt frame t) [
    | none ↦ none
    | some (r, t') ↦ Option.map (λ rest. r ∷ rest) (update_frames frames t')
  ]

  same_box :
      (w h : ℤ) (r r' : SotResult F)
      → r'.box ≡ r.box
      → IsInFrame p black s w h r
      → IsInFrame p black s w h r'
  same_box w h r r' e g = record {
    x = g.x;
    y = g.y;
    box_is = rw e g.box_is;
    x_in = g.x_in;
    y_in = g.y_in;
    w_in = rw e g.w_in;
    h_in = rw e g.h_in;
  }

  of_size :
      (w h w' h' : ℤ)
      → w ≡ w'
      → h ≡ h'
      → (r : SotResult F) → IsInFrame p black s w h r
      → IsInFrame p black s w' h' r
  of_size w h w' h' e q r g = record {
    x = g.x;
    y = g.y;
    box_is = g.box_is;
    x_in = rw e at g.x_in;
    y_in = rw q at g.y_in;
    w_in = rw e at g.w_in;
    h_in = rw q at g.h_in;
  }

  -- The state after `init` with a filter.
  abbrev begun :
      Img
      → BBox F
      → Impl F Hist N (MosseTracker F M) D
      → MosseTracker F M
      → Impl F Hist N (MosseTracker F M) D
  begun img target t m = record t {
    engine = mosse m;
    low_streak = pos 0;
    last_good = target;
    frames_lost = 0;
    reference = refer v correlation dt t.cfg.reid.embedder img target (mosse m) t.reference;
    since_drift_check = 0;
    drift_latched = false;
  }

  -- A result in the frame, from a tracker that goes on following.
  abbrev Follows : ℤ → ℤ → Option (SotResult F × Impl F Hist N (MosseTracker F M) D) → Type 0
  Follows w h o =
      (r : SotResult F) × ((t' : Impl F Hist N (MosseTracker F M) D) × ((o ≡ some (r, t'))
          × (IsFollowing w h t' × IsInFrame p black s w h r)))

  settle-Follows :
      (w h : ℤ) (img : Img) (frame : FrameView P) (r : SotResult F)
      (t : Impl F Hist N (MosseTracker F M) D)
      → IsFollowing w h t
      → IsInFrame p black s w h r
      → Follows w h (settle v correlation dt img frame r t)
  settle-Follows w h img frame r t g here =
      let (r', (t', (e, (box, (engine, detector))))) =
        settle-Keeps v correlation dt img frame r t g.alone in
      (
        r',
        (
          t',
          (
            e,
            (
              record {
                m = g.m;
                engine_is = engine ∙ g.engine_is;
                trained = g.trained;
                w_is = g.w_is;
                h_is = g.h_is;
                alone = detector ∙ g.alone;
              },
              same_box w h r r' box here,
            ),
          ),
        ),
      )

  module _ (laws : IsPixels p) (o : IsOrdered F) (w h : ℤ) (wide : IsWide p black s w h) where
    update-Follows :
        (frame : FrameView P) (t : Impl F Hist N (MosseTracker F M) D)
        → IsSeen frame
        → IsFollowing w h t
        → Follows w h (update v correlation dt frame t)
    unfolding update update_image backend_update
    update-Follows frame t seen g =
        let (r, (m', (ran, (trained, (here, (ws, hs)))))) =
          update-some p black s laws o seen.img g.m seen.pixels g.trained
            (rw (g.w_is, g.h_is) wide) in
        let here' : IsInFrame p black s w h r = of_size _ _ w h g.w_is g.h_is r here in
        let answered : backend_update correlation seen.img t.engine ≡ some (r, mosse m') =
          rw (backend_update, g.engine_is, ran) refl in
        let (r1, (t1, (found, (box, (engine, detector))))) =
          scored-Keeps v correlation dt seen.img t r (mosse m') answered in
        rw (update, seen.reads, update_image, found)
          (settle-Follows w h seen.img frame r1 t1
            (record {
              m = m';
              engine_is = engine;
              trained = trained;
              w_is = ws ∙ g.w_is;
              h_is = hs ∙ g.h_is;
              alone = detector ∙ g.alone;
            })
            (same_box w h r r1 box here'))

    update_frames-some :
        (frames : List (FrameView P)) (t : Impl F Hist N (MosseTracker F M) D)
        → All IsSeen frames
        → IsFollowing w h t
        → (out : List (SotResult F)) × ((update_frames frames t ≡ some out)
            × ((length out ≡ length frames) × All (IsInFrame p black s w h) out))
    unfolding update_frames
    update_frames-some [] t seen g = ([], (refl, (refl, tt)))
    update_frames-some (frame ∷ frames) t seen g =
        let (r, (t', (e, (g', here)))) = update-Follows frame t seen.0 g in
        let (rest, (q, (len, all))) = update_frames-some frames t' seen.1 g' in
        (r ∷ rest, (rw (update_frames, e, q) refl, (ap suc len, (here, all))))

  pub update_frames-IsInFrame :
      IsPixels p
      → IsOrdered F
      → (first : FrameView P) (target : BBox F) (frames : List (FrameView P))
        (t : Impl F Hist N (MosseTracker F M) D) (m : MosseTracker F M)
      → (img : Img) → as_mat v first ≡ some img
      → HasPixels p black s img
      → IsWide p black s (p.cols img) (p.rows img)
      → All IsSeen frames
      → t.engine ≡ mosse m
      → t.detector ≡ none
      → (t' : Impl F Hist N (MosseTracker F M) D) × ((init v correlation dt first target t
            ≡ some t')
          × ((out : List (SotResult F)) × ((update_frames frames t' ≡ some out)
                × ((length out ≡ length frames)
                    × All (IsInFrame p black s (p.cols img) (p.rows img)) out))))
  unfolding init backend_init
  update_frames-IsInFrame laws o first target frames t m img reads pixels wide all engine alone =
      let (m', (e, (trained, (ws, hs)))) = init-IsTrained p black s laws img target pixels in
      (
        begun img target t m',
        (
          rw (init, reads, engine, e) refl,
          update_frames-some laws o (p.cols img) (p.rows img) wide frames (begun img target t m')
              all
              (record {
                m = m';
                engine_is = refl;
                trained = trained;
                w_is = ws;
                h_is = hs;
                alone = alone;
              }),
        ),
      )
