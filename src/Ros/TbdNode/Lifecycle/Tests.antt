-- ===== src/Ros/TbdNode/Lifecycle/Tests.antt =====
-- A node that is started, gets an image that it can read and one that it cannot, and is stopped.
use mathlib.Core.Option
use custos_tracker.Prelude.{ℕ, ◌+◌, pos, true, false, List, [], ◌∷◌, Option, none, some, ◌≡◌, refl}
use custos_tracker.Float.Milli.{Milli, milli_float}
use custos_tracker.Types.{FrameView, Track}
use custos_tracker.Ros.FrameView.{Image, to_frame_view}
use custos_tracker.Ros.SotNode.{unconfigured, inactive}
use custos_tracker.Ros.TbdNode.{on_image, send, to_detections, rows}
use custos_tracker.Ros.TbdNode.Lifecycle.{
  Maker, Managed, Event, configure, activate, deactivate, image, on_configure, on_activate,
  on_deactivate, handle, handle_all,
}
use custos_tracker.Ros.TbdNode.Lifecycle.Laws.{IsSound, Shows, see_all, session, handle_all-see_all}

abbrev update : FrameView ℕ → ℕ → Option (List (Track Milli) × ℕ)
update view n = some ([], n + 1)

abbrev colour : Image ℕ
colour = record {
  bgr = true;
  bytes = some 7;
  width = 640;
  height = 480;
  step = 1920;
  sec = pos 1;
  nanosec = 0;
}

abbrev fresh : Managed Milli ℕ
fresh = record {
  phase = unconfigured;
  dumps = false;
  subscribed = false;
  node = record {
    publish_lost = false;
    tracker = none;
    connected = false;
    dump = none;
    frame_no = 0;
    published = [];
  };
}

abbrev maker : Maker ℕ
maker = record {
  declare_params = some (record { lost_too = true; dumps = true });
  construct = λ p. some 0;
}

abbrev run : List (Event ℕ ℕ)
run =
    configure maker
    ∷ activate true
    ∷ image colour
    ∷ image (record colour { bgr = false })
    ∷ deactivate
    ∷ []

counted :
    Option.map session (handle_all update run fresh)
    ≡ some (record { phase = inactive; dumps = true; frames = 1 })
unfolding handle_all handle on_configure on_activate on_deactivate on_image send to_frame_view
    to_detections rows
counted = refl

fresh-IsSound : IsSound fresh
fresh-IsSound = record { images = refl; tracks = λ r. cc; sends = λ r. cc }

handle_all-see_all_example : Shows (see_all run (session fresh)) (handle_all update run fresh)
handle_all-see_all_example = handle_all-see_all update (λ view t. (_, refl)) run fresh fresh-IsSound
