-- ===== src/Lib.antt =====
-- custos-tracker follows targets in a stream of camera frames, in two ways.
--
-- - `SotTracker` (core/src/sot/sot_tracker.cpp) follows one target. An engine, NanoTrack or MOSSE,
--   gives a box and a score for each frame; the facade classifies the score as Tracking, Unstable or
--   Lost, checks for drift against a reference of the target's look, and, while the target is lost, asks
--   a detector now and then for a candidate to start again from.
-- - `MultiTracker` (core/src/tbd/multi_tracker.cpp) follows all that a detector sees. It detects on every
--   n-th frame and coasts between; `ByteTracker` (core/src/tbd/byte_tracker.cpp) predicts its tracks,
--   assigns detections to them in three stages, and confirms, loses, removes and bears tracks.
--
-- Files:
-- - Float: the floats of the code as an interface, with the laws of `<` and `<=` that hold for every IEEE
--   754 value, NaN included, as the record IsOrdered. No law of rounding is assumed. Float/Milli is an
--   instance to run on, thousandths in natural numbers.
-- - Types: the structs of core/include/ctrk/types.hpp. A pixel buffer is abstract.
-- - Geometry: core/src/common/geometry.cpp and geometry.hpp. Boxes has `iou` and the letterbox map, Nms
--   has `nms`, with `std::sort` as a parameter with its contract.
-- - Mat: `as_mat` of core/src/common/mat_view.hpp, and what the code asks of OpenCV as the interface
--   Vision. Appearance: core/src/common/appearance.cpp.
-- - Sot: core/src/sot/sot_tracker.cpp and core/include/ctrk/sot.hpp. Config has the configurations, World
--   the engines and the detector as interfaces whose calls can throw, Candidate has `pick_candidate` and `similarity`, and
--   Update the state `Impl` with `init`, `enable_reacquire` and `update`. A log line is a value that is
--   added to the state.
-- - Tbd: core/src/tbd and core/include/ctrk/tbd.hpp. Config has the configuration and the motion filter
--   as an interface, Assoc has `match_by_iou` and `remove_matched`, Tracker has `ByteTracker` with
--   `coast` and `update`, Gmc has `GmcEstimator` of core/src/tbd/gmc.cpp, and Multi has
--   `MultiTracker`, whose `update` is `step`.
-- - Ros: ros2/ctrk_ros/src. FrameView has frame_view.hpp and the status messages of msg_convert.cpp,
--   SotNode the node of sot_node.cpp with its lifecycle, over any tracker; `handle` says which callback an
--   event reaches, as rclcpp documents it. TbdNode has the handler of images of tbd_node.cpp and
--   `to_detections`, its child Lifecycle the transitions of that node. Params has the parameters of
--   param_config.cpp, with those of the single-object tracker's node in Single; the parameter server is the interface Server, and the record IsServer of
--   Given says what the nodes rely on.
--   Player has the frames of frames_player_node.cpp, with its timers and acknowledgements as events.
-- - Munkres: core/src/common/munkres.cpp, the assignment of rows to columns that ByteTracker asks for. Search,
--   Matching, Path, Cover, Rounds, Loops and Initial have what its loops keep, Pigeons, Adjust and Ends why
--   they end, Exact, Shift and Zeros what holds in exact arithmetic, and Assignment and Minimal what the
--   caller is promised. Tbd/Assoc still takes any solver.
-- - Kalman: core/src/common/kalman.cpp, over any product and inverse of matrices. Filter fills the
--   interface of the tracks with it.
-- - Subwindow: core/src/common/subwindow.cpp and `nano_subwindow` of core/src/sot/nanotrack.cpp. Images
--   are the interface Pixels, whose laws are the record IsPixels.
-- - Detector: core/src/tbd/yolov8.cpp. The module itself has the decoding, Canvas the detector with the
--   canvas that it keeps; the engine is the interface Engine, of core/include/ctrk/infer.hpp.
-- - Sot/Nano and Sot/Mosse: the engines of the single-object tracker, core/src/sot/nanotrack.cpp and
--   mosse.cpp; Mosse/Laws shows when the correlation filter does not throw, and
--   Sot/Update/Correlation joins it to SotTracker.
-- - Prelude: the shared lists, options, tests and integers, with the lemmas on lists of indices.
--
-- Modelling: a failed assertion, an integer division by zero and a read that the code does not guard
-- end a computation with `none`, with two exceptions: an index that the code has itself made from a
-- list of the same length is read with a default, and a column out of the range of a row, which no
-- solver of the program returns, is read as the cost of a forbidden pair. `int` is the type of
-- integers, without its overflow, which needs two billion frames, hits or ids. Nearly all loops are
-- structural recursion, on lists of detections, tracks, indices, matches, classes, anchors, cells or
-- scales. The three loops of the assignment solver have fuel: for an n × n matrix n + 1 for a path, which
-- visits a row once, 2n + 2 for the rounds of a pass, where every other round at least covers a row more
-- or ends the pass, and n + 1 for the passes, each of which stars a column more. The double precision product in the time step of `MultiTracker` is
-- computed in the same type of floats as the rest.
--
-- An exception is `none` too: of the detector, of the initialisation and the update of an engine, of the
-- parameters. Four calls are taken to answer: the features of a crop that `similarity` compares, the
-- assignment solver and the estimate of the camera motion that MultiTracker is given, and rclcpp on an
-- override, which has the type of its parameter. A `static_cast` of a double to a float is `to_float` of
-- the floats.
--
-- Not modelled: the engine over ONNX Runtime (core/src/infer/ort_engine.cpp); OpenCV, ONNX Runtime
-- and rclcpp; logging, profiling and bench statistics; the drawing; the command line.
pub mod Prelude
pub mod Float
pub mod Types
pub mod Geometry
pub mod Mat
pub mod Appearance
pub mod Sot
pub mod Tbd
pub mod Ros
pub mod Kalman
pub mod Munkres
pub mod Subwindow
pub mod Detector
