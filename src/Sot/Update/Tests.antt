-- ===== src/Sot/Update/Tests.antt =====
-- A world in which the image is the score that the backend gives it, and the detector always sees the
-- same two boxes.
use custos_tracker.Prelude.{
  ℕ, pos, suc, ◌+ℤ◌, ◌-ℤ◌, true, [], ◌∷◌, some, ◌≡◌, refl, arith, if◌then◌else◌, ◌==◌,
}
use custos_tracker.Float.Milli.{Milli, milli_float, Milli-IsOrdered}
use custos_tracker.Types.{BBox, Detection, FrameView, bgr8, tracking, unstable, lost}
use custos_tracker.Mat.{Vision, as_mat}
use custos_tracker.Sot.Config.{SotConfig, default_sot, default_reacquire, hsv_hist, resolve}
use custos_tracker.Sot.World.{Backends, Detector, Engine, backend_init, backend_update}
use custos_tracker.Sot.Candidate.{
  pick_candidate, pick_loop, consider, similarity, distance, size_ratio, search_radius,
}
use custos_tracker.Sot.Update.{
  Impl, Message, update, create, enable_reacquire, state_at, next_streak, state_of, attempt,
  recover, consult,
}
use custos_tracker.Sot.Update.Laws.{update-IsConsistent, attempt-IsAttempt, IsConsistent, IsAttempt}
use custos_tracker.Sot.Update.Memory.{update-RemembersAll, update-Latched, RemembersAll, Latched}

abbrev here : BBox Milli
here = record { x = 10000; y = 10000; w = 20000; h = 20000 }

abbrev vision : Vision Milli ℕ ℕ ℕ
vision = record {
  wrap = λ p w h step. p;
  cols = λ img. pos 640;
  rows = λ img. pos 480;
  meet = λ a b. a;
  hist_l1 = λ img roi. img;
  hist_l2 = λ img roi. img ∷ [];
  bhattacharyya = λ a b. if a == b then 0 else 900;
}

abbrev backends : Backends Milli ℕ ℕ ℕ
backends = record {
  nano_init = λ img box n. some img;
  nano_update = λ img n. some (record { box = here; score = img; state = tracking }, n);
  nano_embed = λ img box n. img ∷ [];
  zf = λ n. n ∷ [];
  mosse_init = λ img box m. some img;
  mosse_update = λ img m. some (record { box = here; score = img; state = tracking }, m);
}

abbrev found : Detection Milli
found = record { box = here; score = 800; class_id = pos 0; embedding = [] }

abbrev detector : Detector Milli ℕ ℕ
detector = record { detect = λ frame d. some (found ∷ [], suc d) }

abbrev frame : ℕ → FrameView ℕ
frame score = record {
  pixels = some score;
  width = pos 640;
  height = pos 480;
  stride_bytes = pos 0;
  fmt = bgr8;
  t_ns = pos 0;
}

abbrev Tracker : Type 0
Tracker = Impl Milli ℕ ℕ ℕ ℕ

abbrev settings : SotConfig Milli
settings = record (default_sot {F = Milli}) {
  lost_score_thr = 300;
  lost_patience = pos 2;
  reid = record { embedder = hsv_hist; accept = 50; drift_check_every = pos 2; drift_thr = 400 };
}

-- One low score before, and the drift check on.
abbrev shaky : Tracker
shaky = record (enable_reacquire 0 default_reacquire (create settings (Engine.nano 0))) {
  low_streak = pos 1;
  frames_lost = 2;
  last_good = here;
}

abbrev latched : Tracker
latched = record shaky {
  drift_latched = true;
  low_streak = pos 2;
  reference = record { ref_hist = some 700; ref_embed = [] };
}

-- A second low score loses the target, and the third lost frame finds it again.
found_again :
    update vision backends detector (frame 100) shaky
    ≡ some (
      record { box = here; score = 800; state = unstable },
      record shaky {
        engine = Engine.nano 100;
        low_streak = pos 1;
        frames_lost = 3;
        detector = some 1;
        messages = Message.target_lost 100 300 ∷ Message.re_acquired here 800 3 ∷ [];
      },
    )
unfolding update create resolve enable_reacquire backend_update backend_init state_at next_streak
    state_of recover attempt consult similarity pick_candidate pick_loop consider distance
    size_ratio search_radius as_mat ◌+ℤ◌ ◌-ℤ◌
found_again = refl

update-IsConsistent_example :
    IsConsistent vision backends detector (update vision backends detector (frame 100) shaky)
unfolding create resolve enable_reacquire
update-IsConsistent_example =
    update-IsConsistent vision backends detector (frame 100) shaky (omega arith) (omega arith)

attempt-IsAttempt_example :
    IsAttempt vision backends detector 100
      (frame 100)
      0
      (record { box = here; score = 100; state = lost })
      shaky
      (attempt vision backends detector 100
        (frame 100)
        (record { box = here; score = 100; state = lost })
        0
        shaky)
attempt-IsAttempt_example =
    attempt-IsAttempt vision backends detector Milli-IsOrdered 100 (frame 100)
      (record { box = here; score = 100; state = lost }) 0 shaky

update-RemembersAll_example :
    RemembersAll vision backends detector shaky (update vision backends detector (frame 100) shaky)
update-RemembersAll_example = update-RemembersAll vision backends detector (frame 100) shaky

update-Latched_example :
    Latched vision backends detector 900 (update vision backends detector (frame 900) latched)
unfolding as_mat create resolve enable_reacquire
update-Latched_example =
    update-Latched vision backends detector (frame 900) 900 latched refl refl refl
