-- ===== src/Ros/SotNode/Cached.antt =====
-- Which frame `SotNode` keeps while it follows a target, and where a second request starts.
use mathlib.Core.Option
use custos_tracker.Prelude.{
  suc, Bool, true, false, not, ◌||◌, List, [], ◌∷◌, Option, none, some, ◌≡◌, refl, sym, ◌∙◌, ap,
  Bool-cases, Option-cases, inl, inr,
}
use custos_tracker.Float.{Float, ◌≤?◌, nought}
use custos_tracker.Types.{BBox, FrameView}
use custos_tracker.Ros.FrameView.{Image, view_of, to_frame_view}
use custos_tracker.Ros.SotNode.{
  Facade, SotNode, is_active, dump_box, publish, next_frame, on_view, on_image, on_set_target,
}
use custos_tracker.Ros.SotNode.Sound.{view_some}

module _ {F P T : Type 0} ⦃f : Float F⦄ (facade : Facade F P T) where
  -- A sequence of images.
  abbrev pub images : List (Image P) → SotNode F P T → Option (SotNode F P T)
  images [] s = some s
  images (msg ∷ msgs) s = elim (on_image facade msg s) [ none ↦ none | some s' ↦ images msgs s' ]

  next_frame_keeps :
      (view : FrameView P) (t : T) (s s' : SotNode F P T)
      → next_frame facade view t s ≡ some s'
      → (s'.target_set ≡ s.target_set) × (s'.last_frame ≡ s.last_frame)
  unfolding next_frame publish dump_box
  next_frame_keeps view t s s' e = elim (Option-cases (facade.update view t)) [
    | inl u ↦ let bad : none ≡ some s' = rw (next_frame, u) at e in cc
    | inr (r, u) ↦ elim (Bool-cases s.connected) [
      | inl c ↦
          let q = rw (next_frame, u, c) at e in
          let same = sym (ap (λ o. Option.get_or o s') q) in
          (ap (λ z. z.target_set) same, ap (λ z. z.last_frame) same)
      | inr c ↦ let bad : none ≡ some s' = rw (next_frame, u, c) at e in cc
    ]
  ]

  on_image_keeps :
      (msg : Image P) (s s' : SotNode F P T)
      → s.target_set ≡ true
      → on_image facade msg s ≡ some s'
      → (s'.target_set ≡ true) × (s'.last_frame ≡ s.last_frame)
  unfolding on_image on_view
  on_image_keeps msg s s' h e = elim (Option-cases (to_frame_view msg)) [
    | inl n ↦
        let q : some s ≡ some s' = rw (on_image, n) at e in
        let same = sym (ap (λ o. Option.get_or o s') q) in
        (ap (λ z. z.target_set) same ∙ h, ap (λ z. z.last_frame) same)
    | inr (view, n) ↦ elim (Option-cases s.tracker) [
      | inl o ↦ let bad : none ≡ some s' = rw (on_image, n, h, o) at e in cc
      | inr (t, o) ↦
          let q = rw (on_image, n, h, o) at e in
          let (followed, kept) =
            next_frame_keeps view t (record s { frame_no = suc s.frame_no }) s' q in
          (followed ∙ h, kept)
    ]
  ]

  -- While a target is followed, images leave the cached frame as it is, and the target is still followed.
  pub images_keep :
      (msgs : List (Image P)) (s s' : SotNode F P T)
      → s.target_set ≡ true
      → images msgs s ≡ some s'
      → (s'.target_set ≡ true) × (s'.last_frame ≡ s.last_frame)
  images_keep [] s s' h e =
      let same = sym (ap (λ o. Option.get_or o s') e) in
      (ap (λ z. z.target_set) same ∙ h, ap (λ z. z.last_frame) same)
  images_keep (msg ∷ msgs) s s' h e = elim (Option-cases (on_image facade msg s)) [
    | inl n ↦ let bad : none ≡ some s' = rw (images, n) at e in cc
    | inr (s1, n) ↦
        let (followed, kept) = on_image_keeps msg s s1 h n in
        let (followed', kept') = images_keep msgs s1 s' followed (rw (images, n) at e) in
        (followed', kept' ∙ kept)
  ]

  -- The answer to a request and the tracker after it.
  abbrev pub outcome : Bool × SotNode F P T → Bool × Option T
  outcome r = (r.0, r.1.tracker)

  -- If a frame is cached and a target followed, then whatever images come, a request for another target is
  -- accepted and starts the tracker on the cached frame.
  pub on_set_target_stale :
      (msgs : List (Image P)) (s s' : SotNode F P T) (old : Image P) (box : BBox F) (t t' : T)
      → s.target_set ≡ true
      → s.last_frame ≡ some old
      → old.bgr ≡ true
      → images msgs s ≡ some s'
      → (not (is_active s'.phase) || box.w ≤? nought || box.h ≤? nought) ≡ false
      → s'.tracker ≡ some t
      → facade.init (view_of old) box t ≡ some t'
      → Option.map outcome (on_set_target facade box s') ≡ some (true, some t')
  unfolding on_set_target dump_box
  on_set_target_stale msgs s s' old box t t' h c b runs q o i =
      let (followed, kept) = images_keep msgs s s' h runs in
      let stale : s'.last_frame ≡ some old = kept ∙ c in
      rw (on_set_target, q, stale, view_some old b, o, i) refl
