-- ===== src/Sot/Update/Streak.antt =====
-- The count of low scores and the state that it stands for, apart from the images.
use custos_tracker.Prelude.{ℤ, pos, ◌+ℤ◌, ◌≤ℤ◌, ◌<ℤ◌, ◌≡◌, arith}
use custos_tracker.Float.{Float}
use custos_tracker.Types.{SotState, tracking, unstable, lost}
use custos_tracker.Sot.Config.{SotConfig}
use custos_tracker.Sot.Update.{state_at, next_streak}

-- What a reported state says of the streak that is kept.
abbrev pub Agrees : SotState → ℤ → ℤ → Type 0
Agrees tracking patience streak = streak ≡ pos 0
Agrees unstable patience streak = (pos 0 ≤ℤ streak) × (streak <ℤ patience)
Agrees lost patience streak = patience ≤ℤ streak

pub state_at-Agrees :
    (patience streak : ℤ) → pos 0 ≤ℤ streak → Agrees (state_at patience streak) patience streak
unfolding state_at
state_at-Agrees patience streak h = ground arith

module _ {F : Type 0} ⦃f : Float F⦄ (cfg : SotConfig F) where
  pub next_streak_nonneg : (k : ℤ) (score : F) → pos 0 ≤ℤ k → pos 0 ≤ℤ next_streak cfg k score
  unfolding next_streak ◌+ℤ◌
  next_streak_nonneg k score h = ground arith
