-- ===== src/Ros/SotNode/Sound.antt =====
-- What holds of a `SotNode` between its callbacks, and through the transitions that make it ready.
use custos_tracker.Prelude.{
  Bool, true, false, not, ◌&&◌, ◌||◌, if◌then◌else◌, Option, none, some, ◌≡◌, refl, ap, Bool-cases,
  Option-cases, inl, inr,
}
use custos_tracker.Types.{BBox, FrameView, SotResult}
use custos_tracker.Ros.FrameView.{Image, view_of, to_frame_view}
use custos_tracker.Ros.SotNode.{
  Facade, Params, Host, Phase, unconfigured, inactive, active, finalized, SotNode, is_active,
  on_configure, with_detector, on_activate,
}

abbrev pub has {ℓ} : {A : Type ℓ} → Option A → Bool
has none = false
has (some a) = true

abbrev pub is_ready : Phase → Bool
is_ready inactive = true
is_ready active = true
is_ready _ = false

abbrev pub readable : {P : Type 0} → Option (Image P) → Bool
readable none = true
readable (some msg) = msg.bgr

-- The tracker raises no exception.
pub record IsTotal {F P T : Type 0} (facade : Facade F P T) : Type 0 where
  pub inits :
      (view : FrameView P) (box : BBox F) (t : T) → (t' : T) × (facade.init view box t ≡ some t')
  pub updates :
      (view : FrameView P) (t : T) → (r : SotResult F × T) × (facade.update view t ≡ some r)

-- Images come exactly when the node is active, it has its publisher and services exactly when it is
-- configured, and then its tracker; a cached frame can be read; a target is not both set and awaited.
pub record IsSound {F P T : Type 0} (s : SotNode F P T) : Type 0 where
  pub images : s.subscribed ≡ is_active s.phase
  pub services : s.connected ≡ is_ready s.phase
  pub tracks : (not (is_ready s.phase) || has s.tracker) ≡ true
  pub cached : readable s.last_frame ≡ true
  pub exclusive : (s.target_set && has s.pending_init) ≡ false

pub view_some :
    {P : Type 0} (msg : Image P) → msg.bgr ≡ true → to_frame_view msg ≡ some (view_of msg)
unfolding to_frame_view
view_some msg b = elim (Bool-cases msg.bgr) [
  | inl c ↦ ap (λ t. if t then some (view_of msg) else none) c
  | inr c ↦ cc
]

pub active_only : (p : Phase) → is_active p ≡ true → p ≡ active
active_only unconfigured e = cc
active_only inactive e = cc
active_only active e = refl
active_only finalized e = cc

module _ {F P T : Type 0} where
  pub tracker_of :
      (s : SotNode F P T) → IsSound s → is_ready s.phase ≡ true → (t : T) × (s.tracker ≡ some t)
  tracker_of s h r = elim (Option-cases s.tracker) [
    | inl e ↦ let bad : false ≡ true = rw (r, e) at h.tracks in cc
    | inr (t, e) ↦ (t, e)
  ]

  pub configure-IsSound :
      (host : Host F T) (s : SotNode F P T)
      → IsSound s
      → s.phase ≡ unconfigured
      → IsSound (on_configure host s).1
  unfolding on_configure
  configure-IsSound host s h p =
      let off : s.subscribed ≡ false = rw p at h.images in
      let shut : s.connected ≡ false = rw p at h.services in
      elim (Option-cases host.declare_params) [
        | inl e ↦ rw (on_configure, e) h
        | inr (ps, e) ↦ elim (Option-cases (host.construct ps)) [
          | inl c ↦ rw (on_configure, e, c) (idle-IsSound ps none off shut h p)
          | inr (t, c) ↦ elim (Option-cases (with_detector host ps t)) [
            | inl n ↦ rw (on_configure, e, c, n) (idle-IsSound ps (some t) off shut h p)
            | inr (t', n) ↦ rw (on_configure, e, c, n) (ready-IsSound ps t' off h)
          ]
        ]
      ]
    where
      idle-IsSound :
          (ps : Params F) (o : Option T)
          → s.subscribed ≡ false
          → s.connected ≡ false
          → IsSound s
          → s.phase ≡ unconfigured
          → IsSound (record s { params = ps; tracker = o })
      idle-IsSound ps o off shut h p = record {
        images = h.images;
        services = h.services;
        tracks = rw p refl;
        cached = h.cached;
        exclusive = h.exclusive;
      }

      ready-IsSound :
          (ps : Params F) (t : T)
          → s.subscribed ≡ false
          → IsSound s
          → IsSound (record s { params = ps; tracker = some t; connected = true; phase = inactive })
      ready-IsSound ps t off h = record {
        images = off;
        services = refl;
        tracks = refl;
        cached = h.cached;
        exclusive = h.exclusive;
      }

  pub activate-IsSound :
      (opens : Bool) (s : SotNode F P T)
      → IsSound s
      → s.phase ≡ inactive
      → IsSound (on_activate opens s).1
  unfolding on_activate
  activate-IsSound opens s h p =
      let on : s.connected ≡ true = rw p at h.services in
      let (t, e) = tracker_of s h (rw p refl) in
      let off : s.subscribed ≡ false = rw p at h.images in
      elim (Bool-cases (s.params.dumps && not opens)) [
        | inl c ↦ rw c (record {
          images = h.images;
          services = h.services;
          tracks = h.tracks;
          cached = refl;
          exclusive = refl;
        })
        | inr c ↦ rw c (record {
          images = refl;
          services = on;
          tracks = rw e refl;
          cached = refl;
          exclusive = refl;
        })
      ]

-- There is a state afterwards, and it is sound.
abbrev pub Reaches : {F P T : Type 0} → Option (SotNode F P T) → Type 0
Reaches none = ⊥
Reaches (some s) = IsSound s
