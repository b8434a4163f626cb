-- ===== src/Sot/Nano/Tests.antt =====
-- A target of 0.6 pixels in a picture of 40 by 30, and engines that answer zeros.
use custos_tracker.Prelude.{ℕ, pos, [], ◌∷◌, some, ◌≡◌, refl}
use custos_tracker.Float.{◌⊗◌, ◌⊘◌}
use custos_tracker.Float.Milli.{Milli, milli_float, Milli-IsOrdered}
use custos_tracker.Types.{SotResult}
use custos_tracker.Sot.Config.{default_sot}
use custos_tracker.Detector.Canvas.{Engine, TensorView}
use custos_tracker.Subwindow.Tests.{Image, images, images-IsPixels}
use custos_tracker.Sot.Nano.{NanoTracker, Cell, no_cell, extent, run_one}
use custos_tracker.Sot.Nano.Update.{update}
use custos_tracker.Sot.Nano.Peak.{IsPeak}
use custos_tracker.Sot.Nano.Served.{IsServed, IsAnswer}
use custos_tracker.Sot.Nano.Laws.{IsMoved, IsWide, update-IsMoved}

abbrev picture : Image
picture = record { cols = pos 40; rows = pos 30; at = λ i j. i }

abbrev zeros : TensorView Milli
zeros = record { name = "out"; shape = []; values = λ k. 0 }

abbrev engine : Engine Milli
engine = record {
  input_descs = record { name = "a"; shape = [] } ∷ record { name = "b"; shape = [] } ∷ [];
  output_descs = record { name = "out"; shape = pos 3 ∷ [] } ∷ [];
  run = λ ins. some (zeros ∷ zeros ∷ []);
}

abbrev followed : NanoTracker Milli
followed = record {
  cfg = record default_sot { template_update_interval = pos 1; template_refresh_thr = 0 };
  backbone_z = engine;
  backbone_x = engine;
  head = engine;
  score_size = pos 2;
  hann = 0 ∷ 0 ∷ 0 ∷ 1000 ∷ [];
  zf = 100 ∷ 200 ∷ 300 ∷ [];
  zf_mix = [];
  since_refresh = pos 0;
  pos_x = 5000;
  pos_y = 4000;
  sz_w = 600;
  sz_h = 600;
  img_w = pos 40;
  img_h = pos 30;
}

followed-IsWide : IsWide followed
followed-IsWide = record { x = refl; y = refl; w = refl; h = refl }

followed-IsServed : IsServed followed
unfolding run_one
followed-IsServed = record {
  z = λ values. ((λ k. 0), refl);
  z_desc = (_, refl);
  x = λ values. ((λ k. 0), refl);
  i0 = (_, refl);
  i1 = (_, refl);
  head = λ ins. (_, (refl, ((_, refl), (_, refl))));
}

side : milli_float.trunc (extent followed ⊗ 2000) ≡ pos 2
side = refl

update-IsMoved_example :
    (res : SotResult Milli) × ((t' : NanoTracker Milli) × ((update images
            (λ a ch. a)
            picture
            followed
          ≡ some (res, t'))
        × (IsMoved followed t' res
            × ((best : Cell Milli) × ((res.score ≡ best.score)
                  × ((cells : ℕ → Cell Milli) × (IsAnswer images
                          (λ a ch. a)
                          picture
                          followed
                          (127000 ⊘ extent followed)
                          (extent followed ⊗ 2000)
                          cells
                        × IsPeak cells no_cell 4 best)))))))
update-IsMoved_example =
    update-IsMoved images (λ a ch. a) images-IsPixels picture 39 29 refl refl Milli-IsOrdered
      followed 1 followed-IsWide followed-IsServed side
