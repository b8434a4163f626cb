-- ===== src/Sot/Nano/Peak.antt =====
-- The best cell of the score map is the first of the highest ones.
use mathlib.Core.Bool.{false≢true}
use custos_tracker.Prelude.{
  ℕ, zero, suc, ◌+◌, ◌<◌, true, false, ◌≡◌, ◌⊎◌, refl, sym, ◌∙◌, arith, Bool-cases, inl, inr,
}
use custos_tracker.Float.{Float, ◌<?◌, ◌≤?◌, IsOrdered}
use custos_tracker.Sot.Nano.{Cell, better, peak_from}

module _ {F : Type 0} ⦃f : Float F⦄ where
  -- Of `n` cells, `k` is above the start, none is higher, and no earlier one is level.
  pub record IsFirst (cells : ℕ → Cell F) (start : F) (n k : ℕ) : Type 0 where
    pub below : k < n
    pub above : (start <? (cells k).pscore) ≡ true
    pub highest : (j : ℕ) → j < n → ((cells k).pscore <? (cells j).pscore) ≡ false
    pub first : (j : ℕ) → j < k → ((cells k).pscore ≤? (cells j).pscore) ≡ false

  -- The best of the start and `n` cells.
  abbrev pub IsPeak : (ℕ → Cell F) → Cell F → ℕ → Cell F → Type 0
  IsPeak cells start n best =
      ((best ≡ start) × ((j : ℕ) → j < n → (start.pscore <? (cells j).pscore) ≡ false))
      ⊎ ((k : ℕ) × ((best ≡ cells k) × IsFirst cells start.pscore n k))

  module _ (o : IsOrdered F) (cells : ℕ → Cell F) (start : Cell F) where
    split_lt : (c n : ℕ) → c < suc n → (c < n) ⊎ (c ≡ n)
    split_lt c n h = ground arith

    -- What is not above `u` is below all that is above `u`.
    not_above : (u v w : F) → (u <? v) ≡ true → (u <? w) ≡ false → (v ≤? w) ≡ false
    not_above u v w h g = elim (Bool-cases (v ≤? w)) [
      | inl e ↦ absurd (false≢true (sym g ∙ o.lt_of_lt_of_le u v w h e))
      | inr e ↦ e
    ]

    not_higher : (v w : F) → (v ≤? w) ≡ false → (v <? w) ≡ false
    not_higher v w h = elim (Bool-cases (v <? w)) [
      | inl e ↦ absurd (false≢true (sym h ∙ o.le_of_lt v w e))
      | inr e ↦ e
    ]

    above_start :
        (best c : Cell F) (n : ℕ)
        → IsPeak cells start n best
        → (best.pscore <? c.pscore) ≡ true
        → (start.pscore <? c.pscore) ≡ true
    above_start best c n (inl (q, _)) e = rw q at e
    above_start best c n (inr (k, (q, h))) e =
        o.lt_of_lt_of_le start.pscore (cells k).pscore c.pscore h.above
          (o.le_of_lt (cells k).pscore c.pscore (rw q at e))

    -- What the peak is not below, a higher cell is above.
    passed :
        (best : Cell F) (n j : ℕ)
        → IsPeak cells start n best
        → j < n
        → (best.pscore <? (cells j).pscore) ≡ false
    passed best n j (inl (q, h)) l = rw q (h j l)
    passed best n j (inr (k, (q, h))) l = rw q (h.highest j l)

    better-IsPeak :
        (n : ℕ) (best : Cell F)
        → IsPeak cells start n best
        → IsPeak cells start (suc n) (better best (cells n))
    unfolding better
    better-IsPeak n best h = elim (Bool-cases (best.pscore <? (cells n).pscore)) [
      | inl e ↦
          rw (better, e)
            (inr (
              n,
              (
                refl,
                record {
                  below = omega arith;
                  above = above_start best (cells n) n h e;
                  highest = λ j l. elim (split_lt j n l) [
                    | inl s ↦ not_higher (cells n).pscore (cells j).pscore (
                        not_above best.pscore (cells n).pscore (cells j).pscore e
                          (passed best n j h s))
                    | inr q ↦ rw q (o.lt_irrefl (cells n).pscore)
                  ];
                  first = λ j l.
                      not_above best.pscore (cells n).pscore (cells j).pscore e
                        (passed best n j h l);
                },
              ),
            ))
      | inr e ↦
          rw (better, e)
            (elim h [
              | inl (q, g) ↦
                  inl (q, λ j l. elim (split_lt j n l) [ inl s ↦ g j s | inr t ↦ rw (t, sym q) e ])
              | inr (k, (q, g)) ↦ inr (
                k,
                (
                  q,
                  record {
                    below = omega (arith, g.below);
                    above = g.above;
                    highest = λ j l. elim (split_lt j n l) [
                      | inl s ↦ g.highest j s
                      | inr t ↦ rw (t, sym q) e
                    ];
                    first = g.first;
                  },
                ),
              )
            ])
    ]

    peak_from-IsPeak_after :
        (n i : ℕ) (best : Cell F)
        → IsPeak cells start i best
        → IsPeak cells start (i + n) (peak_from cells i n best)
    unfolding peak_from
    peak_from-IsPeak_after zero i best h = let e : i + 0 ≡ i = omega arith in rw (peak_from, e) h
    peak_from-IsPeak_after (suc n) i best h =
        let e : i + suc n ≡ (i + 1) + n = omega arith in
        let s : i + 1 ≡ suc i = omega arith in
        rw (peak_from, e) (peak_from-IsPeak_after n (i + 1) _ (rw s (better-IsPeak i best h)))

    -- The cell that the loop ends with is the first of the highest ones, if any is above where it starts.
    pub peak_from-IsPeak : (n : ℕ) → IsPeak cells start n (peak_from cells 0 n start)
    peak_from-IsPeak n =
        let e : 0 + n ≡ n = omega arith in
        rw e at (peak_from-IsPeak_after n 0 start (inl (refl, λ j l. absurd (omega arith))))
