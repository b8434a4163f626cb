-- ===== src/Ros/Player/Laws.antt =====
-- The frames that the player publishes.
use mathlib.Core.Bool.{false≢true}
use custos_tracker.Prelude.{
  ℕ, suc, Bool, true, false, not, ◌&&◌, ◌||◌, if◌then◌else◌, ltb, leb, ◌==◌, length, List, [], ◌∷◌,
  ◌++◌, none, some, ◌≡◌, refl, sym, ap, ◌∙◌, arith, Option-cases, inl, inr,
}
use custos_tracker.Ros.Player.{
  Video, Player, Event, wait_tick, rate_tick, ack, timeout, finish, send, next_frame, publish_next,
  on_ack, on_wait_tick, handle, handle_all,
}

module _ {V C : Type 0} (video : Video V C) where
  -- Frames with their numbers from one on, as reads from a capture on answer them, and the capture after them.
  pub data Reads : ℕ → C → List (ℕ × V) → C → Type 0 where
    start : (c : C) → Reads 0 c [] c
    step :
        (n : ℕ) (c c' c'' : C) (v : V) (l : List (ℕ × V))
        → Reads n c l c'
        → video.read c' ≡ (some v, c'')
        → Reads (suc n) c (l ++ (n, v) ∷ []) c''

  -- What was published is what the first reads answered, in their order, and no more than the limit.
  pub record InOrder (c : C) (s : Player V C) : Type 0 where
    pub at : C
    pub reads : Reads (length s.published) c s.published at
    pub next : s.done ≡ false → s.cap ≡ at
    pub once : s.loop ≡ false
    pub limited : (s.frame_limit == 0 || leb (length s.published) s.frame_limit) ≡ true

  length-snoc : {A : Type 0} (l : List A) (a : A) → length (l ++ a ∷ []) ≡ suc (length l)
  length-snoc [] a = refl
  length-snoc (b ∷ l) a = ap suc (length-snoc l a)

  -- The timers are no part of that.
  timers-InOrder :
      (c : C) (s : Player V C) (w t a : Bool)
      → InOrder c s
      → InOrder c (record s { waiting = w; ticking = t; armed = a })
  timers-InOrder c s w t a h = record {
    at = h.at;
    reads = h.reads;
    next = h.next;
    once = h.once;
    limited = h.limited;
  }

  if-InOrder :
      (c : C) (b : Bool) (x y : Player V C)
      → (b ≡ true → InOrder c x)
      → (b ≡ false → InOrder c y)
      → InOrder c (if b then x else y)
  if-InOrder c true x y h h' = h refl
  if-InOrder c false x y h h' = h' refl

  finish-InOrder :
      (c : C) (s : Player V C) (c' : C)
      → InOrder c s
      → s.done ≡ false
      → InOrder c (finish (record s { armed = false; cap = c' }))
  unfolding finish
  finish-InOrder c s c' h q =
      if-InOrder c s.done _ _ (λ e. absurd (false≢true (sym q ∙ e)))
        (λ e. record {
          at = h.at;
          reads = h.reads;
          next = λ e'. absurd (false≢true (sym e'));
          once = h.once;
          limited = h.limited;
        })

  next-none :
      (s : Player V C)
      → s.loop ≡ false
      → (video.read s.cap).0 ≡ none
      → next_frame video s ≡ (none, (video.read s.cap).1)
  unfolding next_frame
  next-none s l n = rw (next_frame, n, l) refl

  next-some :
      (s : Player V C) (v : V)
      → (video.read s.cap).0 ≡ some v
      → next_frame video s ≡ (some v, (video.read s.cap).1)
  unfolding next_frame
  next-some s v n = rw (next_frame, n) refl

  publish_next-InOrder : (c : C) (s : Player V C) → InOrder c s → InOrder c (publish_next video s)
  unfolding publish_next send
  publish_next-InOrder c s h =
      if-InOrder c s.done _ _ (λ q. timers-InOrder c s s.waiting s.ticking false h)
        (λ q.
          if-InOrder c (ltb 0 s.frame_limit && leb s.frame_limit (length s.published)) _ _
            (λ f. finish-InOrder c s s.cap h q)
            (λ f. elim (Option-cases (video.read s.cap).0) [
              | inl n ↦ rw (next-none s h.once n) (finish-InOrder c s (next_frame video s).1 h q)
              | inr (v, n) ↦
                  let c' = (next_frame video s).1 in
                  let same : (video.read s.cap).1 ≡ c' = sym (ap (λ r. r.1) (next-some s v n)) in
                  let answers : video.read h.at ≡ (some v, c') =
                    sym (ap (λ x. video.read x) (h.next q))
                    ∙ ap (λ o. (o, (video.read s.cap).1)) n
                    ∙ ap (λ d. (some v, d)) same in
                  let size = length-snoc s.published (length s.published, v) in
                  rw (next-some s v n) (record {
                    at = c';
                    reads =
                        rw size (step (length s.published) c h.at c' v s.published h.reads answers);
                    next = λ e. refl;
                    once = h.once;
                    limited = rw size (ground (arith, h.limited, f));
                  })
            ]))

  on_ack-InOrder : (c : C) (s : Player V C) → InOrder c s → InOrder c (on_ack video s)
  unfolding on_ack
  on_ack-InOrder c s h =
      let s' = publish_next video s in
      let h' = publish_next-InOrder c s h in
      if-InOrder c s.done s _ (λ q. h)
        (λ q.
          if-InOrder c s'.done s' _ (λ r. h')
            (λ r. timers-InOrder c s' s'.waiting s'.ticking true h'))

  on_wait_tick-InOrder :
      (c : C) (ready : Bool) (s : Player V C) → InOrder c s → InOrder c (on_wait_tick video ready s)
  unfolding on_wait_tick
  on_wait_tick-InOrder c ready s h =
      let s' = publish_next video (record s { waiting = false }) in
      let h' =
        publish_next-InOrder c (record s { waiting = false })
          (timers-InOrder c s false s.ticking s.armed h) in
      if-InOrder c (not ready) s _ (λ q. h)
        (λ q.
          if-InOrder c s.lockstep _ _ (λ r. timers-InOrder c s' s'.waiting s'.ticking true h')
            (λ r. timers-InOrder c s' s'.waiting true s'.armed h'))

  handle-InOrder : (c : C) (e : Event) (s : Player V C) → InOrder c s → InOrder c (handle video e s)
  unfolding handle
  handle-InOrder c (wait_tick ready) s h =
      if-InOrder c s.waiting _ s (λ q. on_wait_tick-InOrder c ready s h) (λ q. h)
  handle-InOrder c rate_tick s h =
      if-InOrder c s.ticking _ s (λ q. publish_next-InOrder c s h) (λ q. h)
  handle-InOrder c ack s h = if-InOrder c s.lockstep _ s (λ q. on_ack-InOrder c s h) (λ q. h)
  handle-InOrder c timeout s h = if-InOrder c s.armed _ s (λ q. on_ack-InOrder c s h) (λ q. h)

  -- Whatever timers fire and acknowledgements come, early ones and late ones included, a player that does not
  -- loop publishes what the first reads of its video answer, in their order, none twice and none left out,
  -- each with its number, and no more than the limit.
  pub handle_all-InOrder :
      (c : C) (es : List Event) (s : Player V C) → InOrder c s → InOrder c (handle_all video es s)
  unfolding handle_all
  handle_all-InOrder c [] s h = h
  handle_all-InOrder c (e ∷ es) s h =
      handle_all-InOrder c es (handle video e s) (handle-InOrder c e s h)
