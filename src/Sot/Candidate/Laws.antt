-- ===== src/Sot/Candidate/Laws.antt =====
-- What `pick_candidate` chooses: a detection that passes every gate, and the best of those.
use mathlib.Core.List.{Mem, mem-cons_self, mem-cons_of_mem}
use mathlib.Core.Bool.{false≢true}
use custos_tracker.Prelude.{
  ℕ, pos, Bool, true, false, not, ◌||◌, ◌&&◌, if◌then◌else◌, leb_ℤ, eqb_ℤ, List, [], ◌∷◌, Option,
  none, some, ◌≡◌, refl, ◌⊎◌, inl, inr, All, All-map, arith, Bool-cases, sym, ◌∙◌, ap,
}
use custos_tracker.Float.{Float, ◌<?◌, ◌≤?◌, one, IsOrdered}
use custos_tracker.Types.{BBox, Detection}
use custos_tracker.Sot.Config.{Reid, ReacquireConfig}
use custos_tracker.Sot.Candidate.{
  Pick, search_radius, size_ratio, distance, consider, pick_loop, uses_reid, pick_candidate,
}

module _ {F : Type 0} ⦃f : Float F⦄ (cfg : ReacquireConfig F) (last_good : BBox F) (radius : F)
    (use_reid : Bool) (accept : F) (sim : BBox F → F) where
  open f use {neg}

  abbrev dist : Detection F → F
  dist = distance cfg last_good

  -- The gates on score, class, size and position.
  pub gated : Detection F → Bool
  gated d =
      not (d.score <? cfg.min_score)
      && (not (leb_ℤ (pos 0) cfg.class_id) || eqb_ℤ d.class_id cfg.class_id)
      && not (
          size_ratio cfg last_good d <? cfg.size_low || cfg.size_high <? size_ratio cfg last_good d)
      && not (radius <? dist d)

  abbrev chooses : F → F → Detection F → Bool
  chooses low far d =
      if use_reid then not (sim d.box <? accept) && low <? sim d.box else dist d ≤? far

  -- What a candidate must meet: the gates, and similarity or, without it, a distance.
  pub eligible : Detection F → Bool
  eligible d = gated d && chooses (neg one) radius d

  -- `d` is strictly more similar than `c`, or without re-identification strictly nearer.
  pub better : Detection F → Detection F → Bool
  better d c = if use_reid then sim c.box <? sim d.box else dist d <? dist c

  step : Detection F → Pick F → Pick F
  step = consider cfg last_good radius use_reid accept sim

  -- The loop body takes a detection if it passes the gates and beats the best one so far.
  taken : Detection F → Pick F → Bool
  taken d p = gated d && chooses p.best_sim p.best_dist d

  abbrev holding : Detection F → Pick F → Pick F
  holding d p =
      if use_reid
      then record p { best = some d; best_sim = sim d.box }
      else record p { best = some d; best_dist = dist d }

  consider-eq : (d : Detection F) (p : Pick F) → step d p ≡ (if taken d p then holding d p else p)
  unfolding step consider taken gated
  consider-eq d p = ground arith

  -- The loop's variables belong to the detection held.
  abbrev Holds : Option (Detection F) → Pick F → Type 0
  Holds none p = (p.best_dist ≡ radius) × (p.best_sim ≡ neg one)
  Holds (some c) p =
      (eligible c ≡ true)
      × ((if use_reid then p.best_sim else p.best_dist) ≡ (if use_reid then sim c.box else dist c))

  beats : Detection F → Pick F → Bool
  beats d p = if use_reid then p.best_sim <? sim d.box else dist d <? p.best_dist

  module _ (o : IsOrdered F) where
    lt_trans : (x y z : F) → x <? y ≡ true → y <? z ≡ true → x <? z ≡ true
    lt_trans x y z p q = o.lt_of_lt_of_le x y z p (o.le_of_lt y z q)

    -- What is taken is eligible, for it beats what is held.
    taken-eligible :
        (d : Detection F) (p : Pick F) (held : Option (Detection F))
        → Holds held p
        → taken d p ≡ true
        → eligible d ≡ true
    unfolding taken eligible
    taken-eligible d p none h t = ground arith
    taken-eligible d p (some c) h t =
        ground
          (arith, lt_trans (neg one) (sim c.box) (sim d.box), o.le_trans (dist d) (dist c) radius)

    step-Holds : (d : Detection F) (p : Pick F) → Holds p.best p → Holds (step d p).best (step d p)
    step-Holds d p h = elim (Bool-cases (taken d p)) [
      | inl t ↦ let e = taken-eligible d p p.best h t in rw (consider-eq d p, t) (ground (arith, e))
      | inr t ↦ rw (consider-eq d p, t) h
    ]

    step-not-beats :
        (e d : Detection F) (p : Pick F) → beats e p ≡ false → beats e (step d p) ≡ false
    unfolding beats taken
    step-not-beats e d p h = ground (
      arith,
      consider-eq d p,
      lt_trans p.best_sim (sim d.box) (sim e.box),
      o.lt_of_lt_of_le (dist e) (dist d) p.best_dist,
    )

    step_self : (d : Detection F) (p : Pick F) → eligible d ≡ true → beats d (step d p) ≡ false
    unfolding beats taken eligible
    step_self d p h = ground (
      arith,
      consider-eq d p,
      o.lt_irrefl (sim d.box),
      o.lt_irrefl (dist d),
      o.le_of_lt (dist d) p.best_dist,
    )

    loop : List (Detection F) → Pick F → Pick F
    loop = pick_loop cfg last_good radius use_reid accept sim

    loop-Holds :
        (ds : List (Detection F)) (p : Pick F) → Holds p.best p → Holds (loop ds p).best (loop ds p)
    unfolding loop pick_loop step
    loop-Holds [] p h = h
    loop-Holds (d ∷ ds) p h = loop-Holds ds (step d p) (step-Holds d p h)

    loop-not-beats :
        (e : Detection F) (ds : List (Detection F)) (p : Pick F)
        → beats e p ≡ false
        → beats e (loop ds p) ≡ false
    unfolding loop pick_loop step
    loop-not-beats e [] p h = h
    loop-not-beats e (d ∷ ds) p h = loop-not-beats e ds (step d p) (step-not-beats e d p h)

    loop-All :
        (ds : List (Detection F)) (p : Pick F)
        → All (λ d. (eligible d && beats d (loop ds p)) ≡ false) ds
    unfolding loop pick_loop step
    loop-All [] p = tt
    loop-All (d ∷ ds) p =
        (ground (arith, loop-not-beats d ds (step d p), step_self d p), loop-All ds (step d p))

    abbrev is_some : Option (Detection F) → Bool
    is_some none = false
    is_some (some c) = true

    step-is_some :
        (d : Detection F) (p : Pick F)
        → Holds p.best p
        → (is_some p.best || eligible d) ≡ true
        → is_some (step d p).best ≡ true
    unfolding taken eligible
    step-is_some d p h e = ground (arith, consider-eq d p)

    loop-is_some :
        (ds : List (Detection F)) (p : Pick F)
        → Holds p.best p
        → is_some p.best ≡ true
        → is_some (loop ds p).best ≡ true
    unfolding loop pick_loop step
    loop-is_some [] p h s = s
    loop-is_some (d ∷ ds) p h s =
        loop-is_some ds (step d p) (step-Holds d p h) (step-is_some d p h (ground arith))

    -- If nothing is held at the end, nothing was eligible.
    loop-none :
        (ds : List (Detection F)) (p : Pick F)
        → Holds p.best p
        → is_some (loop ds p).best ≡ false
        → All (λ d. eligible d ≡ false) ds
    unfolding loop pick_loop step
    loop-none [] p h s = tt
    loop-none (d ∷ ds) p h s = (
      elim (Bool-cases (eligible d)) [
        | inl e ↦ absurd (
            false≢true (
              sym s
              ∙ loop-is_some ds (step d p) (step-Holds d p h) (step-is_some d p h (ground arith))))
        | inr e ↦ e
      ],
      loop-none ds (step d p) (step-Holds d p h) s,
    )

    -- What is held was held before or is in the list.
    loop_mem :
        (ds : List (Detection F)) (p : Pick F) (c : Detection F)
        → (loop ds p).best ≡ some c
        → (p.best ≡ some c) ⊎ Mem c ds
    unfolding loop pick_loop step
    loop_mem [] p c e = inl e
    loop_mem (d ∷ ds) p c e = ground (
      arith,
      loop_mem ds (step d p) c e,
      consider-eq d p,
      mem-cons_self {a = d} {l = ds},
      λ (m : Mem c ds). mem-cons_of_mem d m,
    )

  -- Nothing, if nothing is eligible; or else an eligible detection of the list that none of the
  -- eligible ones beats.
  abbrev pub IsChoice : List (Detection F) → Option (Detection F) → Type 0
  IsChoice dets none = All (λ d. eligible d ≡ false) dets
  IsChoice dets (some c) =
      Mem c dets × (eligible c ≡ true) × All (λ d. (eligible d && better d c) ≡ false) dets

  module _ (o : IsOrdered F) where
    beats-eq-better : (d c : Detection F) (p : Pick F) → Holds (some c) p → beats d p ≡ better d c
    unfolding beats better
    beats-eq-better d c p h = ground arith

    loop-IsChoice :
        (dets : List (Detection F)) (p : Pick F) (r : Option (Detection F))
        → Holds p.best p
        → p.best ≡ none
        → (loop o dets p).best ≡ r
        → IsChoice dets r
    loop-IsChoice dets p none h n e = loop-none o dets p h (ap (is_some o) e)
    loop-IsChoice dets p (some c) h n e =
        let held : Holds (some c) (loop o dets p) = rw e at (loop-Holds o dets p h) in
        (
          elim (loop_mem o dets p c e) [ inl q ↦ cc | inr m ↦ m ],
          held.0,
          All-map _ _ dets (λ d q. rw (← beats-eq-better d c (loop o dets p) held) q)
              (loop-All o dets p),
        )

-- `pick_candidate` returns nothing exactly when no detection passes the gates and the test on its
-- similarity or its distance; and otherwise a detection of the list that passes, with none among
-- those that pass more similar, or without re-identification nearer.
pub pick_candidate-IsChoice :
    {F : Type 0} ⦃f : Float F⦄ (o : IsOrdered F) (cfg : ReacquireConfig F) (reid : Reid F)
    (last_good : BBox F) (frames_lost : ℕ) (sim : BBox F → F) (dets : List (Detection F))
    → IsChoice cfg last_good
        (search_radius cfg last_good frames_lost)
        (uses_reid reid.embedder)
        reid.accept
        sim
        dets
        (pick_candidate cfg reid last_good frames_lost sim dets)
unfolding pick_candidate loop
pick_candidate-IsChoice o cfg reid last_good frames_lost sim dets =
    loop-IsChoice cfg last_good (search_radius cfg last_good frames_lost) (uses_reid reid.embedder)
      reid.accept sim o dets _ _ (refl, refl) refl refl
