-- ===== src/Ros/SotNode/Tests.antt =====
-- A node that tracks, with a tracker that counts its calls.
use custos_tracker.Prelude.{ℕ, pos, true, false, [], ◌∷◌, none, some, ◌≡◌, refl}
use mathlib.Core.Option
use custos_tracker.Float.Milli.{Milli, milli_float}
use custos_tracker.Types.{BBox, tracking}
use custos_tracker.Ros.FrameView.{Image}
use custos_tracker.Ros.SotNode.{
  Facade, SotNode, active, image, handle, on_image, on_view, next_frame, publish, dump_box,
  on_set_target,
}
use custos_tracker.Ros.FrameView.{to_frame_view, to_sot_status}
use custos_tracker.Ros.SotNode.Sound.{IsTotal, IsSound, Reaches}
use custos_tracker.Ros.SotNode.Laws.{handle-IsSound}
use custos_tracker.Ros.SotNode.Cached.{images, outcome, on_set_target_stale}

abbrev here : BBox Milli
here = record { x = 10000; y = 10000; w = 20000; h = 20000 }

-- An image is its number, which becomes the state of the tracker.
abbrev facade : Facade Milli ℕ ℕ
facade = record {
  init = λ view box t. some (Option.get_or view.pixels 0);
  update = λ view t. some (record { box = here; score = 900; state = tracking }, t);
}

facade-IsTotal : IsTotal facade
facade-IsTotal = record { inits = λ view box t. (_, refl); updates = λ view t. (_, refl) }

abbrev numbered : ℕ → Image ℕ
numbered n = record {
  bgr = true;
  bytes = some n;
  width = 640;
  height = 480;
  step = 1920;
  sec = pos 1;
  nanosec = 0;
}

abbrev following : SotNode Milli ℕ ℕ
following = record {
  phase = active;
  params = record { reacquire = false; init_bbox = none; dumps = false };
  tracker = some 3;
  connected = true;
  subscribed = true;
  last_frame = some (numbered 3);
  pending_init = none;
  target_set = true;
  dump = none;
  frame_no = 3;
  published = [];
}

following-IsSound : IsSound following
following-IsSound = record {
  images = refl;
  services = refl;
  tracks = refl;
  cached = refl;
  exclusive = refl;
}

handle-IsSound_example : Reaches (handle facade (image (numbered 4)) following)
handle-IsSound_example =
    handle-IsSound facade facade-IsTotal (image (numbered 4)) following following-IsSound

abbrev one_later : SotNode Milli ℕ ℕ
one_later = record following {
  frame_no = 4;
  published = to_sot_status (record { box = here; score = 900; state = tracking }) ∷ [];
}

fourth_image : images facade (numbered 4 ∷ []) following ≡ some one_later
unfolding on_image on_view next_frame publish dump_box to_frame_view
fourth_image = refl

-- After frame 4 the tracker starts again on frame 3.
on_set_target_stale_example :
    Option.map (outcome facade) (on_set_target facade here one_later) ≡ some (true, some 3)
on_set_target_stale_example =
    on_set_target_stale facade (numbered 4 ∷ []) following one_later (numbered 3) here 3 3 refl refl
      refl fourth_image refl refl refl
