-- ===== src/Ros/TbdNode/Lifecycle/Laws.antt =====
-- The lifecycle of `TbdNode` against what a user sees of it: its state and the frames of the session.
use mathlib.Core.Bool.{false≢true}
use custos_tracker.Prelude.{
  ℕ, ◌+◌, Bool, true, false, not, ◌&&◌, if◌then◌else◌, List, [], ◌∷◌, Option, none, some, ◌≡◌, refl,
  sym, ap, ◌∙◌, Bool-cases, Option-cases, inl, inr,
}
use custos_tracker.Float.{Float}
use custos_tracker.Types.{FrameView, Track}
use custos_tracker.Ros.FrameView.{Image}
use custos_tracker.Ros.SotNode.{Phase, unconfigured, inactive, active, finalized, is_active}
use custos_tracker.Ros.SotNode.Sound.{is_ready}
use custos_tracker.Ros.TbdNode.Laws.{reads, on_image-Counted}
use custos_tracker.Ros.TbdNode.Lifecycle.{
  Maker, Managed, Event, configure, activate, deactivate, cleanup, shutdown, image, on_configure,
  on_activate, on_deactivate, on_cleanup, on_shutdown, from_phase, handle, handle_all,
}

-- A node that is configured has a tracker and its publisher, and takes images exactly while it is active.
pub record IsSound {F T : Type 0} (s : Managed F T) : Type 0 where
  pub images : s.subscribed ≡ is_active s.phase
  pub tracks : is_ready s.phase ≡ true → (t : T) × (s.node.tracker ≡ some t)
  pub sends : is_ready s.phase ≡ true → s.node.connected ≡ true

-- What a user sees: the state in the lifecycle, whether frames are dumped, and the frames of the session.
pub record Session : Type 0 where
  pub phase : Phase
  pub dumps : Bool
  pub frames : ℕ

abbrev pub session : {F T : Type 0} → Managed F T → Session
session s = record { phase = s.phase; dumps = s.dumps; frames = s.node.frame_no }

-- What each event does to that.
abbrev pub see : {P T : Type 0} → Event P T → Session → Session
see (configure maker) v =
    from_phase v.phase
      (elim maker.declare_params [
        | none ↦ v
        | some p ↦ record v {
          dumps = p.dumps;
          phase = elim (maker.construct p) [ none ↦ unconfigured | some t ↦ inactive ];
        }
      ])
      v v v
see (activate opens) v =
    from_phase v.phase v
      (record v { frames = 0; phase = if v.dumps && not opens then inactive else active }) v v
see deactivate v = from_phase v.phase v v (record v { phase = inactive }) v
see cleanup v = from_phase v.phase v (record v { phase = unconfigured }) v v
see shutdown v =
    from_phase v.phase (record v { phase = finalized }) (record v { phase = finalized })
      (record v { phase = finalized }) v
see (image msg) v = from_phase v.phase v v (record v { frames = reads msg + v.frames }) v

abbrev pub see_all : {P T : Type 0} → List (Event P T) → Session → Session
see_all [] v = v
see_all (e ∷ es) v = see_all es (see e v)

-- A node that is sound and shows a session.
abbrev pub Shows : {F T : Type 0} → Session → Option (Managed F T) → Type 0
Shows v none = ⊥
Shows v (some s) = IsSound s × (session s ≡ v)

-- The phases one by one.
from_phase-Shows :
    {F T : Type 0} (p : Phase) (a b c d : Managed F T) (va vb vc vd : Session)
    → (p ≡ unconfigured → Shows va (some a))
    → (p ≡ inactive → Shows vb (some b))
    → (p ≡ active → Shows vc (some c))
    → (p ≡ finalized → Shows vd (some d))
    → Shows (from_phase p va vb vc vd) (some (from_phase p a b c d))
from_phase-Shows unconfigured a b c d va vb vc vd ha hb hc hd = ha refl
from_phase-Shows inactive a b c d va vb vc vd ha hb hc hd = hb refl
from_phase-Shows active a b c d va vb vc vd ha hb hc hd = hc refl
from_phase-Shows finalized a b c d va vb vc vd ha hb hc hd = hd refl

from_phase-active :
    {A : Type 0} (p : Phase) (a b : A) → is_active p ≡ true → from_phase p a a b a ≡ b
from_phase-active unconfigured a b e = absurd (false≢true e)
from_phase-active inactive a b e = absurd (false≢true e)
from_phase-active active a b e = refl
from_phase-active finalized a b e = absurd (false≢true e)

from_phase-other :
    {A : Type 0} (p : Phase) (a b : A) → is_active p ≡ false → from_phase p a a b a ≡ a
from_phase-other unconfigured a b e = refl
from_phase-other inactive a b e = refl
from_phase-other active a b e = absurd (false≢true (sym e))
from_phase-other finalized a b e = refl

ready_active : (p : Phase) → is_active p ≡ true → is_ready p ≡ true
ready_active unconfigured e = absurd (false≢true e)
ready_active inactive e = absurd (false≢true e)
ready_active active e = refl
ready_active finalized e = absurd (false≢true e)

module _ {F T : Type 0} (s : Managed F T) (h : IsSound s) where
  configure-Shows :
      (maker : Maker T)
      → s.phase ≡ unconfigured
      → Shows
          (elim maker.declare_params [
            | none ↦ session s
            | some p ↦ record (session s) {
              dumps = p.dumps;
              phase = elim (maker.construct p) [ none ↦ unconfigured | some t ↦ inactive ];
            }
          ])
          (some (on_configure maker s).1)
  unfolding on_configure
  configure-Shows maker p =
      let off : s.subscribed ≡ false = rw p at h.images in
      elim (Option-cases maker.declare_params) [
        | inl e ↦ rw (on_configure, e) (h, refl)
        | inr (ps, e) ↦ elim (Option-cases (maker.construct ps)) [
          | inl q ↦
              rw (on_configure, e, q)
                (
                  record {
                    images = h.images;
                    tracks = λ r. absurd (false≢true (rw p at r));
                    sends = λ r. absurd (false≢true (rw p at r));
                  },
                  rw p refl,
                )
          | inr (t, q) ↦
              rw (on_configure, e, q)
                (record { images = off; tracks = λ r. (t, refl); sends = λ r. refl }, refl)
        ]
      ]

  activate-Shows :
      (opens : Bool)
      → s.phase ≡ inactive
      → Shows
          (record (session s) {
            frames = 0;
            phase = if s.dumps && not opens then inactive else active;
          })
          (some (on_activate opens s).1)
  unfolding on_activate
  activate-Shows opens p =
      let ready : is_ready s.phase ≡ true = rw p refl in
      elim (Bool-cases (s.dumps && not opens)) [
        | inl e ↦
            rw (on_activate, e)
              (record { images = h.images; tracks = h.tracks; sends = h.sends }, rw p refl)
        | inr e ↦
            rw (on_activate, e)
              (
                record { images = refl; tracks = λ r. h.tracks ready; sends = λ r. h.sends ready },
                refl,
              )
      ]

  deactivate-Shows :
      s.phase ≡ active → Shows (record (session s) { phase = inactive }) (some (on_deactivate s))
  unfolding on_deactivate
  deactivate-Shows p =
      let ready : is_ready s.phase ≡ true = rw p refl in
      (record { images = refl; tracks = λ r. h.tracks ready; sends = λ r. h.sends ready }, refl)

  cleanup-Shows :
      s.phase ≡ inactive → Shows (record (session s) { phase = unconfigured }) (some (on_cleanup s))
  unfolding on_cleanup
  cleanup-Shows p = (
    record {
      images = rw p at h.images;
      tracks = λ r. absurd (false≢true r);
      sends = λ r. absurd (false≢true r);
    },
    refl,
  )

  shutdown-Shows : Shows (record (session s) { phase = finalized }) (some (on_shutdown s))
  unfolding on_shutdown
  shutdown-Shows = (
    record {
      images = refl;
      tracks = λ r. absurd (false≢true r);
      sends = λ r. absurd (false≢true r);
    },
    refl,
  )

module _ {F P T : Type 0} ⦃f : Float F⦄ (update : FrameView P → T → Option (List (Track F) × T))
    (total : (view : FrameView P) (t : T)
      → (r : List (Track F) × T) × (update view t ≡ some r)) where
  image-Shows :
      (msg : Image P) (s : Managed F T)
      → IsSound s
      → Shows (see {P = P} {T = T} (image msg) (session s)) (handle update (image msg) s)
  unfolding handle
  image-Shows msg s h = elim (Bool-cases s.subscribed) [
    | inl q ↦
        let on : is_active s.phase ≡ true = sym h.images ∙ q in
        let ready = ready_active s.phase on in
        let (n, (e, c)) = on_image-Counted update total msg s.node s.node.frame_no _ (record {
          counts = refl;
          publishes = refl;
          tracks = h.tracks ready;
          sends = h.sends ready;
        }) in
        rw
          (
            handle,
            q,
            e,
            from_phase-active s.phase (session s)
                (record (session s) { frames = reads msg + s.node.frame_no }) on,
          )
          (
            record { images = sym on; tracks = λ r. c.tracks; sends = λ r. c.sends },
            ap (λ k. record (session s) { frames = k }) c.counts,
          )
    | inr q ↦
        let off : is_active s.phase ≡ false = sym h.images ∙ q in
        rw
          (
            handle,
            q,
            from_phase-other s.phase (session s)
                (record (session s) { frames = reads msg + s.node.frame_no }) off,
          )
          (record { images = sym off; tracks = h.tracks; sends = h.sends }, refl)
  ]

  handle-Shows :
      (e : Event P T) (s : Managed F T) → IsSound s → Shows (see e (session s)) (handle update e s)
  unfolding handle
  handle-Shows (configure maker) s h =
      from_phase-Shows s.phase _ s s s _ _ _ _ (configure-Shows s h maker) (λ p. (h, refl))
        (λ p. (h, refl)) (λ p. (h, refl))
  handle-Shows (activate opens) s h =
      from_phase-Shows s.phase s _ s s _ _ _ _ (λ p. (h, refl)) (activate-Shows s h opens)
        (λ p. (h, refl)) (λ p. (h, refl))
  handle-Shows deactivate s h =
      from_phase-Shows s.phase s s _ s _ _ _ _ (λ p. (h, refl)) (λ p. (h, refl))
        (deactivate-Shows s h) (λ p. (h, refl))
  handle-Shows cleanup s h =
      from_phase-Shows s.phase s _ s s _ _ _ _ (λ p. (h, refl)) (cleanup-Shows s h) (λ p. (h, refl))
        (λ p. (h, refl))
  handle-Shows shutdown s h =
      let gone = shutdown-Shows s h in
      from_phase-Shows s.phase _ _ _ s _ _ _ _ (λ p. gone) (λ p. gone) (λ p. gone) (λ p. (h, refl))
  handle-Shows (image msg) s h = image-Shows msg s h

  -- If the tracker raises no exception, any transitions and images leave a sound node sound and make it use
  -- nothing that it does not have; its state and its count of frames are what a user sees: the
  -- transitions that succeed, and the images that could be read since the last activation.
  pub handle_all-see_all :
      (es : List (Event P T)) (s : Managed F T)
      → IsSound s
      → Shows (see_all es (session s)) (handle_all update es s)
  unfolding handle_all
  handle_all-see_all [] s h = (h, refl)
  handle_all-see_all (e ∷ es) s h =
      on_rest (handle update e s) refl (handle-Shows e s h) (λ s'. handle_all-see_all es s')
    where
      on_rest :
          (o : Option (Managed F T))
          → handle update e s ≡ o
          → Shows (see e (session s)) o
          → ((s' : Managed F T)
              → IsSound s'
              → Shows (see_all es (session s')) (handle_all update es s'))
          → Shows (see_all es (see e (session s))) (handle_all update (e ∷ es) s)
      on_rest none q shows ih = absurd shows
      on_rest (some s') q (h', v) ih = rw (handle_all, q, sym v) (ih s' h')
