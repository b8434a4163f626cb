-- ===== src/Ros/TbdNode/Laws.antt =====
-- The frames that `TbdNode` counts, publishes and dumps.
use mathlib.Core.Option
use custos_tracker.Prelude.{
  ℕ, suc, ◌+◌, true, false, if◌then◌else◌, List, [], ◌∷◌, ◌++◌, map, length, Option, none, some,
  All, ◌≡◌, refl, ◌∙◌, ap, arith, Bool-cases, inl, inr,
}
use custos_tracker.Float.{Float}
use custos_tracker.Types.{FrameView, Track, cx, cy, is_confirmed}
use custos_tracker.Ros.FrameView.{Image, view_of, to_frame_view}
use custos_tracker.Ros.SotNode.Sound.{view_some}
use custos_tracker.Ros.TbdNode.{
  TbdNode, Row, Detection2d, to_detections, detection_of, rows, send, on_image, images,
}

view_none : {P : Type 0} (msg : Image P) → msg.bgr ≡ false → to_frame_view msg ≡ none
unfolding to_frame_view
view_none msg b = ap (λ t. if t then some (view_of msg) else none) b

module _ {F : Type 0} ⦃f : Float F⦄ where
  -- What a line of the dump and a published detection both show of a track.
  abbrev line_shows : Row F → ℕ × (F × (F × (F × (F × F))))
  line_shows r = (r.track_id, (cx r.box, (cy r.box, (r.box.w, (r.box.h, r.confidence)))))

  abbrev message_shows : Detection2d F → ℕ × (F × (F × (F × (F × F))))
  message_shows d = (d.id, (d.center_x, (d.center_y, (d.size_x, (d.size_y, d.score)))))

  abbrev pub confirmed_ids : List (Track F) → List ℕ
  confirmed_ids [] = []
  confirmed_ids (t ∷ ts) =
      let rest = confirmed_ids ts in if is_confirmed t.state then t.id ∷ rest else rest

  -- A frame is published as `ds` and added to the dump as `ls`: the two agree, the lines have the number
  -- of the frame, and both are of the confirmed tracks among those that the tracker answers.
  pub record IsDumped {T : Type 0} (tracks : List (Track F)) (lines : List (Row F))
      (s s' : TbdNode F T) : Type 0 where
    pub ds : List (Detection2d F)
    pub ls : List (Row F)
    pub published : s'.published ≡ s.published ++ ds ∷ []
    pub dump : s'.dump ≡ some (lines ++ ls)
    pub agree : map line_shows ls ≡ map message_shows ds
    pub numbered : All (λ r. r.frame ≡ suc s.frame_no) ls
    pub confirmed : map (λ d. d.id) ds ≡ confirmed_ids tracks

  rows-to_detections :
      (n : ℕ) (tracks : List (Track F))
      → map line_shows (rows n tracks) ≡ map message_shows (to_detections tracks false)
  unfolding rows to_detections detection_of
  rows-to_detections n [] = refl
  rows-to_detections n (t ∷ ts) = elim (Bool-cases (is_confirmed t.state)) [
    | inl e ↦ rw (e, rows-to_detections n ts) refl
    | inr e ↦ rw (e, rows-to_detections n ts) refl
  ]

  rows-numbered : (n : ℕ) (tracks : List (Track F)) → All (λ r. r.frame ≡ n) (rows n tracks)
  unfolding rows
  rows-numbered n [] = tt
  rows-numbered n (t ∷ ts) = elim (Bool-cases (is_confirmed t.state)) [
    | inl e ↦ rw e (refl, rows-numbered n ts)
    | inr e ↦ rw e (rows-numbered n ts)
  ]

  to_detections-confirmed :
      (tracks : List (Track F))
      → map (λ d. d.id) (to_detections tracks false) ≡ confirmed_ids tracks
  unfolding to_detections detection_of
  to_detections-confirmed [] = refl
  to_detections-confirmed (t ∷ ts) = elim (Bool-cases (is_confirmed t.state)) [
    | inl e ↦ rw (e, to_detections-confirmed ts) refl
    | inr e ↦ rw (e, to_detections-confirmed ts) refl
  ]

module _ {F P T : Type 0} ⦃f : Float F⦄
    (update : FrameView P → T → Option (List (Track F) × T)) where
  pub on_image-IsDumped :
      (msg : Image P) (s : TbdNode F T) (t t' : T) (tracks : List (Track F)) (lines : List (Row F))
      → msg.bgr ≡ true
      → s.tracker ≡ some t
      → update (view_of msg) t ≡ some (tracks, t')
      → s.connected ≡ true
      → s.publish_lost ≡ false
      → s.dump ≡ some lines
      → (s' : TbdNode F T) × ((on_image update msg s ≡ some s') × IsDumped tracks lines s s')
  unfolding on_image send
  on_image-IsDumped msg s t t' tracks lines bgr has answers connected quiet opened = (
    record s {
      frame_no = suc s.frame_no;
      tracker = some t';
      published = s.published ++ to_detections tracks s.publish_lost ∷ [];
      dump = Option.map (λ old. old ++ rows (suc s.frame_no) tracks) s.dump;
    },
    (
      rw (on_image, view_some msg bgr, has, answers, connected) refl,
      record {
        ds = to_detections tracks false;
        ls = rows (suc s.frame_no) tracks;
        published = rw quiet refl;
        dump = rw opened refl;
        agree = rows-to_detections (suc s.frame_no) tracks;
        numbered = rows-numbered (suc s.frame_no) tracks;
        confirmed = to_detections-confirmed tracks;
      },
    ),
  )

-- 1 for an image that can be read.
abbrev pub reads : {P : Type 0} → Image P → ℕ
reads msg = if msg.bgr then 1 else 0

abbrev pub readable_count : {P : Type 0} → List (Image P) → ℕ
readable_count [] = 0
readable_count (msg ∷ msgs) = reads msg + readable_count msgs

snoc-length {ℓ} : {A : Type ℓ} (xs : List A) (x : A) → length (xs ++ x ∷ []) ≡ length xs + 1
snoc-length [] x = refl
snoc-length (y ∷ ys) x = omega (arith, snoc-length ys x)

-- A node with so many frames counted and messages published, and a tracker and a publisher.
pub record Counted {F T : Type 0} (frames messages : ℕ) (s : TbdNode F T) : Type 0 where
  pub counts : s.frame_no ≡ frames
  pub publishes : length s.published ≡ messages
  pub tracks : (t : T) × (s.tracker ≡ some t)
  pub sends : s.connected ≡ true

module _ {F P T : Type 0} ⦃f : Float F⦄ (update : FrameView P → T → Option (List (Track F) × T))
    (total : (view : FrameView P) (t : T)
      → (r : List (Track F) × T) × (update view t ≡ some r)) where
  sent : List (Track F) → T → TbdNode F T → TbdNode F T
  sent tracks t s = record s {
    tracker = some t;
    published = s.published ++ to_detections tracks s.publish_lost ∷ [];
    dump = Option.map (λ lines. lines ++ rows s.frame_no tracks) s.dump;
  }

  pub on_image-Counted :
      (msg : Image P) (s : TbdNode F T) (n m : ℕ)
      → Counted n m s
      → (s' : TbdNode F T) × ((on_image update msg s ≡ some s')
          × Counted (reads msg + n) (reads msg + m) s')
  unfolding on_image send sent
  on_image-Counted msg s n m h =
      let (t, e) = h.tracks in
      let ((tracks, t'), u) = total (view_of msg) t in
      elim (Bool-cases msg.bgr) [
        | inl b ↦ (
          sent tracks t' (record s { frame_no = suc s.frame_no }),
          (
            rw (on_image, view_some msg b, e, u, h.sends) refl,
            record {
              counts = ground (arith, h.counts, b);
              publishes = ground (
                arith,
                snoc-length s.published (to_detections tracks s.publish_lost),
                h.publishes,
                b,
              );
              tracks = (t', refl);
              sends = h.sends;
            },
          ),
        )
        | inr b ↦ (
          s,
          (
            rw (on_image, view_none msg b) refl,
            record {
              counts = ground (arith, h.counts, b);
              publishes = ground (arith, h.publishes, b);
              tracks = h.tracks;
              sends = h.sends;
            },
          ),
        )
      ]

  -- If the tracker raises no exception, then a node with a tracker and a publisher takes any images: it
  -- counts a frame and publishes a message for each that can be read, and for no other.
  pub images-Counted :
      (msgs : List (Image P)) (s : TbdNode F T) (n m : ℕ)
      → Counted n m s
      → (s' : TbdNode F T) × ((images update msgs s ≡ some s')
          × Counted (readable_count msgs + n) (readable_count msgs + m) s')
  unfolding images
  images-Counted [] s n m h = (
    s,
    (
      refl,
      record {
        counts = omega (arith, h.counts);
        publishes = omega (arith, h.publishes);
        tracks = h.tracks;
        sends = h.sends;
      },
    ),
  )
  images-Counted (msg ∷ msgs) s n m h =
      let (s1, (runs, h1)) = on_image-Counted msg s n m h in
      let (s2, (runs', h2)) = images-Counted msgs s1 (reads msg + n) (reads msg + m) h1 in
      let en : readable_count msgs + (reads msg + n) ≡ readable_count (msg ∷ msgs) + n =
        omega arith in
      let em : readable_count msgs + (reads msg + m) ≡ readable_count (msg ∷ msgs) + m =
        omega arith in
      (
        s2,
        (
          rw (images, runs) runs',
          record {
            counts = h2.counts ∙ en;
            publishes = h2.publishes ∙ em;
            tracks = h2.tracks;
            sends = h2.sends;
          },
        ),
      )
