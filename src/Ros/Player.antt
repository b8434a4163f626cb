-- ===== src/Ros/Player.antt =====
-- ros2/ctrk_ros/src/frames_player_node.cpp: which frames `FramesPlayerNode` publishes, and when. The video is the
-- interface Video; the settle delay, the stamps of the clock and the pixels of a message are left out.
pub mod Laws
mod Tests
use mathlib.Core.Option
use custos_tracker.Prelude.{
  ℕ, suc, Bool, true, false, not, ◌&&◌, if◌then◌else◌, ltb, leb, length, List, [], ◌∷◌, ◌++◌,
  Option, none, some,
}

-- `cv::VideoCapture`: a read answers a frame, or nothing at the end, and the capture after it; `open` opens
-- the path of the player again.
pub record Video (V C : Type 0) : Type 0 where
  pub read : C → Option V × C
  pub reopen : Option C

-- The player. `armed` stands for the timer of the lockstep, `ticking` for that of the rate and `waiting` for
-- that of the start. A published frame has the number that its stamp is computed from.
pub record Player (V C : Type 0) : Type 0 where
  pub lockstep : Bool
  pub loop : Bool
  pub frame_limit : ℕ
  pub cap : C
  pub done : Bool
  pub waiting : Bool
  pub ticking : Bool
  pub armed : Bool
  pub published : List (ℕ × V)

pub data Event : Type 0 where
  wait_tick : Bool → Event
  rate_tick : Event
  ack : Event
  timeout : Event

module _ {V C : Type 0} where
  unfoldable pub finish : Player V C → Player V C
  finish s = if s.done then s else record s { done = true; ticking = false; armed = false }

  unfoldable pub send : V → C → Player V C → Player V C
  send v c s = record s { cap = c; published = s.published ++ (length s.published, v) ∷ [] }

  -- A frame that is read, or the first one again where the player loops.
  unfoldable pub next_frame : Video V C → Player V C → Option V × C
  next_frame video s =
      let (o, c) = video.read s.cap in
      elim o [
        | some v ↦ (some v, c)
        | none ↦
            if s.loop && ltb 0 (length s.published)
            then elim video.reopen [ none ↦ (none, c) | some c' ↦ video.read c' ]
            else (none, c)
      ]

  unfoldable pub publish_next : Video V C → Player V C → Player V C
  publish_next video s =
      let s' = record s { armed = false } in
      if s.done
      then s'
      else if ltb 0 s.frame_limit && leb s.frame_limit (length s.published)
      then finish s'
      else let (o, c) = next_frame video s in
        elim o [ none ↦ finish (record s' { cap = c }) | some v ↦ send v c s' ]

  unfoldable pub on_ack : Video V C → Player V C → Player V C
  on_ack video s =
      if s.done
      then s
      else let s' = publish_next video s in if s'.done then s' else record s' { armed = true }

  -- `ready`: the image topic has a subscriber and the delay is over.
  unfoldable pub on_wait_tick : Video V C → Bool → Player V C → Player V C
  on_wait_tick video ready s =
      let s' = publish_next video (record s { waiting = false }) in
      if not ready
      then s
      else if s.lockstep
      then record s' { armed = true }
      else record s' { ticking = true }

  -- A timer fires while it is not cancelled; acknowledgements come to the subscription of the lockstep.
  unfoldable pub handle : Video V C → Event → Player V C → Player V C
  handle video (wait_tick ready) s = if s.waiting then on_wait_tick video ready s else s
  handle video rate_tick s = if s.ticking then publish_next video s else s
  handle video ack s = if s.lockstep then on_ack video s else s
  handle video timeout s = if s.armed then on_ack video s else s

  unfoldable pub handle_all : Video V C → List Event → Player V C → Player V C
  handle_all video [] s = s
  handle_all video (e ∷ es) s = handle_all video es (handle video e s)
