-- ===== src/Ros/TbdNode/Tests.antt =====
-- A node that gets an image that it can read and one that it cannot.
use custos_tracker.Prelude.{ℕ, ◌+◌, pos, true, false, List, [], ◌∷◌, Option, some, ◌≡◌, refl}
use custos_tracker.Float.Milli.{Milli, milli_float}
use custos_tracker.Types.{BBox, FrameView, Track, confirmed, lost}
use custos_tracker.Ros.FrameView.{Image}
use custos_tracker.Ros.TbdNode.{TbdNode, on_image}
use custos_tracker.Ros.TbdNode.Laws.{IsDumped, on_image-IsDumped}

abbrev pub here : BBox Milli
here = record { x = 10000; y = 10000; w = 20000; h = 20000 }

abbrev pub seen : List (Track Milli)
seen =
    record { id = 1; box = here; score = 800; class_id = pos 0; state = lost; age = 9; hits = 5 }
    ∷ record {
      id = 2;
      box = here;
      score = 900;
      class_id = pos 0;
      state = confirmed;
      age = 4;
      hits = 4;
    }
    ∷ []

-- The state counts the frames.
abbrev pub update : FrameView ℕ → ℕ → Option (List (Track Milli) × ℕ)
update view n = some (seen, n + 1)

abbrev node : TbdNode Milli ℕ
node = record {
  publish_lost = true;
  tracker = some 0;
  connected = true;
  dump = some [];
  frame_no = 0;
  published = [];
}

abbrev pub colour : Image ℕ
colour = record {
  bgr = true;
  bytes = some 7;
  width = 640;
  height = 480;
  step = 1920;
  sec = pos 1;
  nanosec = 0;
}

-- The node leaves out lost tracks.
abbrev quiet : TbdNode Milli ℕ
quiet = record node { publish_lost = false }

on_image-IsDumped_example :
    (s' : TbdNode Milli ℕ) × ((on_image update colour quiet ≡ some s') × IsDumped seen [] quiet s')
on_image-IsDumped_example =
    on_image-IsDumped update colour quiet 0 1 seen [] refl refl refl refl refl refl
