-- ===== src/Ros/Player/Tests.antt =====
-- A player in lockstep over a video of three frames, with a limit of two.
use custos_tracker.Prelude.{ℕ, true, false, List, [], ◌∷◌, none, some, ◌≡◌, refl}
use custos_tracker.Ros.Player.{
  Video, Player, Event, wait_tick, ack, timeout, finish, send, next_frame, publish_next, on_ack,
  on_wait_tick, handle, handle_all,
}
use custos_tracker.Ros.Player.Laws.{InOrder, start, handle_all-InOrder}

-- A capture is what is left of the video.
abbrev video : Video ℕ (List ℕ)
video = record { read = λ c. elim c [ [] ↦ (none, []) | v ∷ rest ↦ (some v, rest) ]; reopen = none }

abbrev player : Player ℕ (List ℕ)
player = record {
  lockstep = true;
  loop = false;
  frame_limit = 2;
  cap = 10 ∷ 20 ∷ 30 ∷ [];
  done = false;
  waiting = true;
  ticking = false;
  armed = false;
  published = [];
}

abbrev events : List Event
events = wait_tick false ∷ wait_tick true ∷ ack ∷ timeout ∷ ack ∷ []

two_frames : (handle_all video events player).published ≡ (0, 10) ∷ (1, 20) ∷ []
unfolding handle_all handle on_wait_tick on_ack publish_next next_frame send finish
two_frames = refl

handle_all-InOrder_example : InOrder video (10 ∷ 20 ∷ 30 ∷ []) (handle_all video events player)
handle_all-InOrder_example = handle_all-InOrder video (10 ∷ 20 ∷ 30 ∷ []) events player (record {
  at = 10 ∷ 20 ∷ 30 ∷ [];
  reads = start (10 ∷ 20 ∷ 30 ∷ []);
  next = λ e. refl;
  once = refl;
  limited = refl;
})
