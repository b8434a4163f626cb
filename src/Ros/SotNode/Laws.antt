-- ===== src/Ros/SotNode/Laws.antt =====
-- The lifecycle of `SotNode`: what holds in each state, and what a request does.
use mathlib.Core.Option
use custos_tracker.Prelude.{
  ℕ, suc, Bool, true, false, not, ◌||◌, if◌then◌else◌, Option, none, some, ◌≡◌, refl, sym, ◌∙◌,
  arith, Bool-cases, Option-cases, inl, inr,
}
use custos_tracker.Float.{Float, ◌≤?◌, nought}
use custos_tracker.Types.{BBox, FrameView}
use custos_tracker.Ros.FrameView.{Image, view_of, to_frame_view, idle_status}
use custos_tracker.Ros.SotNode.{
  Facade, Phase, unconfigured, inactive, active, finalized, SotNode, is_active, on_deactivate,
  on_cleanup, on_shutdown, on_reset, dump_box, publish, first_frame, next_frame, on_view, on_image,
  on_set_target, Event, configure, activate, deactivate, cleanup, shutdown, image, set_target,
  reset, handle,
}
use custos_tracker.Ros.SotNode.Sound.{
  is_ready, view_some, active_only, tracker_of, configure-IsSound, activate-IsSound, IsTotal,
  IsSound, Reaches,
}

module _ {F P T : Type 0} where
  IsSound-if :
      (b : Bool) (x y : SotNode F P T)
      → (b ≡ true → IsSound x)
      → (b ≡ false → IsSound y)
      → IsSound (if b then x else y)
  IsSound-if true x y g h = g refl
  IsSound-if false x y g h = h refl

  Reaches-if :
      (b : Bool) (x y : Option (SotNode F P T))
      → (b ≡ true → Reaches x)
      → (b ≡ false → Reaches y)
      → Reaches (if b then x else y)
  Reaches-if true x y g h = g refl
  Reaches-if false x y g h = h refl

  IsSound-phase :
      (p : Phase) (a b c d : SotNode F P T)
      → (p ≡ unconfigured → IsSound a)
      → (p ≡ inactive → IsSound b)
      → (p ≡ active → IsSound c)
      → (p ≡ finalized → IsSound d)
      → IsSound (elim p [ unconfigured ↦ a | inactive ↦ b | active ↦ c | finalized ↦ d ])
  IsSound-phase unconfigured a b c d ha hb hc hd = ha refl
  IsSound-phase inactive a b c d ha hb hc hd = hb refl
  IsSound-phase active a b c d ha hb hc hd = hc refl
  IsSound-phase finalized a b c d ha hb hc hd = hd refl

module _ {F P T : Type 0} ⦃f : Float F⦄ (facade : Facade F P T) (total : IsTotal facade) where
  next_frame-IsSound :
      (view : FrameView P) (t : T) (s : SotNode F P T)
      → IsSound s
      → s.connected ≡ true
      → Reaches (next_frame facade view t s)
  unfolding next_frame publish dump_box
  next_frame-IsSound view t s h on =
      let (r, u) = total.updates view t in
      rw (next_frame, u, on)
        (record {
          images = h.images;
          services = sym on ∙ h.services;
          tracks = ground arith;
          cached = h.cached;
          exclusive = h.exclusive;
        })

  first_frame-IsSound :
      (view : FrameView P) (box : BBox F) (t : T) (s : SotNode F P T)
      → IsSound s
      → s.connected ≡ true
      → Reaches (first_frame facade view box t s)
  unfolding first_frame publish dump_box
  first_frame-IsSound view box t s h on =
      let (t', u) = total.inits view box t in
      rw (first_frame, u, on)
        (record {
          images = h.images;
          services = sym on ∙ h.services;
          tracks = ground arith;
          cached = h.cached;
          exclusive = refl;
        })

  count-IsSound : (n : ℕ) (s : SotNode F P T) → IsSound s → IsSound (record s { frame_no = n })
  count-IsSound n s h = record {
    images = h.images;
    services = h.services;
    tracks = h.tracks;
    cached = h.cached;
    exclusive = h.exclusive;
  }

  idle_frame-IsSound :
      (msg : Image P) (s : SotNode F P T)
      → IsSound s
      → s.connected ≡ true
      → msg.bgr ≡ true
      → Reaches (publish idle_status (record s { last_frame = some msg }))
  unfolding publish
  idle_frame-IsSound msg s h on b = rw on (record {
    images = h.images;
    services = sym on ∙ h.services;
    tracks = h.tracks;
    cached = b;
    exclusive = h.exclusive;
  })

  image_read :
      (msg : Image P) (s : SotNode F P T)
      → IsSound s
      → s.connected ≡ true
      → (t : T) → s.tracker ≡ some t
      → msg.bgr ≡ true
      → Reaches (on_view facade msg (view_of msg) s)
  unfolding on_view
  image_read msg s h on t e b =
      let counted = count-IsSound (suc s.frame_no) s h in
      elim (Bool-cases s.target_set) [
        | inl q ↦ rw (q, e) (next_frame-IsSound (view_of msg) t _ counted on)
        | inr q ↦ elim (Option-cases s.pending_init) [
          | inl n ↦ rw (q, n) (idle_frame-IsSound msg _ counted on b)
          | inr (box, n) ↦ rw (q, n, e) (first_frame-IsSound (view_of msg) box t _ counted on)
        ]
      ]

  image-IsSound :
      (msg : Image P) (s : SotNode F P T)
      → IsSound s
      → s.phase ≡ active
      → Reaches (on_image facade msg s)
  unfolding on_image to_frame_view
  image-IsSound msg s h p =
      let on : s.connected ≡ true = rw p at h.services in
      let (t, e) = tracker_of s h (rw p refl) in
      elim (Bool-cases msg.bgr) [
        | inr b ↦ rw b h
        | inl b ↦
            let opened : to_frame_view msg ≡ some (view_of msg) = view_some msg b in
            rw (on_image, opened) (image_read msg s h on t e b)
      ]

  armed-IsSound :
      (box : BBox F) (s : SotNode F P T)
      → IsSound s
      → IsSound (record s { pending_init = some box; target_set = false })
  armed-IsSound box s h = record {
    images = h.images;
    services = h.services;
    tracks = h.tracks;
    cached = h.cached;
    exclusive = refl;
  }

  started-IsSound :
      (box : BBox F) (t : T) (s : SotNode F P T)
      → IsSound s
      → IsSound
          (record (dump_box box s) { tracker = some t; target_set = true; pending_init = none })
  unfolding dump_box
  started-IsSound box t s h = record {
    images = h.images;
    services = h.services;
    tracks = ground arith;
    cached = h.cached;
    exclusive = refl;
  }

  set_target-IsSound :
      (box : BBox F) (s : SotNode F P T)
      → IsSound s
      → is_ready s.phase ≡ true
      → Reaches (Option.map (λ r. r.1) (on_set_target facade box s))
  unfolding on_set_target dump_box
  set_target-IsSound box s h p =
      let bad = not (is_active s.phase) || box.w ≤? nought || box.h ≤? nought in
      let (t, e) = tracker_of s h p in
      elim (Bool-cases bad) [
        | inl q ↦ rw (on_set_target, q) h
        | inr q ↦ elim (Option-cases s.last_frame) [
          | inl n ↦ rw (on_set_target, q, n) (armed-IsSound box s h)
          | inr (msg, n) ↦
              let b : msg.bgr ≡ true = rw n at h.cached in
              let (t', u) = total.inits (view_of msg) box t in
              rw (on_set_target, q, n, view_some msg b, e, u) (started-IsSound box t' s h)
        ]
      ]

  unsubscribed-IsSound :
      (phase : Phase) (s : SotNode F P T)
      → IsSound s
      → is_active phase ≡ false
      → is_ready phase ≡ false
      → IsSound (record s { subscribed = false; tracker = none; connected = false; phase = phase })
  unsubscribed-IsSound phase s h a r = record {
    images = sym a;
    services = sym r;
    tracks = rw r refl;
    cached = h.cached;
    exclusive = h.exclusive;
  }

  reset-IsSound : (s : SotNode F P T) → IsSound s → IsSound (on_reset s)
  unfolding on_reset
  reset-IsSound s h = record {
    images = h.images;
    services = h.services;
    tracks = h.tracks;
    cached = refl;
    exclusive = refl;
  }

  deactivate-IsSound :
      (s : SotNode F P T) → IsSound s → is_active s.phase ≡ true → IsSound (on_deactivate s)
  unfolding on_deactivate
  deactivate-IsSound s h q =
      let p = active_only s.phase q in
      record {
        images = refl;
        services = rw p at h.services;
        tracks = rw p at h.tracks;
        cached = refl;
        exclusive = h.exclusive;
      }

  cleanup-IsSound : (s : SotNode F P T) → IsSound s → s.phase ≡ inactive → IsSound (on_cleanup s)
  unfolding on_cleanup
  cleanup-IsSound s h p = record {
    images = rw p at h.images;
    services = refl;
    tracks = refl;
    cached = h.cached;
    exclusive = h.exclusive;
  }

  -- If the tracker raises no exception, then no transition, frame or request makes a sound node use what
  -- it does not have, and the node is sound afterwards: it takes images exactly while it is active, offers
  -- its services exactly while it is configured, and then has a tracker; a cached frame can be read, and a
  -- target is not both set and awaited.
  pub handle-IsSound :
      (event : Event F P T) (s : SotNode F P T) → IsSound s → Reaches (handle facade event s)
  unfolding handle on_deactivate on_cleanup on_shutdown on_reset
  handle-IsSound (configure host) s h =
      IsSound-phase s.phase _ s s s (configure-IsSound host s h) (λ p. h) (λ p. h) (λ p. h)
  handle-IsSound (activate opens) s h =
      IsSound-phase s.phase s _ s s (λ p. h) (activate-IsSound opens s h) (λ p. h) (λ p. h)
  handle-IsSound deactivate s h =
      IsSound-if (is_active s.phase) _ s (deactivate-IsSound s h) (λ p. h)
  handle-IsSound cleanup s h =
      IsSound-phase s.phase s _ s s (λ p. h) (λ p. cleanup-IsSound s h p) (λ p. h) (λ p. h)
  handle-IsSound shutdown s h =
      let gone = unsubscribed-IsSound finalized s h refl refl in
      IsSound-phase s.phase _ _ _ s (λ p. gone) (λ p. gone) (λ p. gone) (λ p. h)
  handle-IsSound (image msg) s h =
      Reaches-if s.subscribed _ (some s)
        (λ q. image-IsSound msg s h (active_only s.phase (sym h.images ∙ q))) (λ q. h)
  handle-IsSound (set_target box) s h =
      Reaches-if s.connected _ (some s) (λ q. set_target-IsSound box s h (sym h.services ∙ q))
        (λ q. h)
  handle-IsSound reset s h = IsSound-if s.connected _ s (λ q. reset-IsSound s h) (λ q. h)
