-- ===== src/Munkres/Matching.antt =====
-- Matchings, and what an alternating path makes of one.
use mathlib.Core.Bool.{false≢true}
use mathlib.Core.Path.{fun_ext}
use custos_tracker.Prelude.{
  ℕ, ◌<◌, Bool, true, false, ◌||◌, if◌then◌else◌, ◌==◌, ==_iff, List, [], ◌∷◌, ◌≡◌, ◌⊎◌, refl, sym,
  ap, ◌∙◌, arith, Bool-cases, inl, inr,
}
use custos_tracker.Munkres.{put2, flip}

-- No row and no column has two stars, and all are in the matrix.
pub record IsMatching (n : ℕ) (star : ℕ → ℕ → Bool) : Type 0 where
  pub row : (i j j' : ℕ) → star i j ≡ true → star i j' ≡ true → j ≡ j'
  pub col : (i i' j : ℕ) → star i j ≡ true → star i' j ≡ true → i ≡ i'
  pub row_lt : (i j : ℕ) → star i j ≡ true → i < n
  pub col_lt : (i j : ℕ) → star i j ≡ true → j < n

-- Rows with their new columns.
abbrev pub has_row : ℕ → List (ℕ × ℕ) → Bool
has_row i [] = false
has_row i ((r, c) ∷ l) = i == r || has_row i l

abbrev pub has_col : ℕ → List (ℕ × ℕ) → Bool
has_col j [] = false
has_col j ((r, c) ∷ l) = j == c || has_col j l

-- The matching with the rows of the list moved to their columns.
abbrev pub over : List (ℕ × ℕ) → (ℕ → ℕ → Bool) → ℕ → ℕ → Bool
over [] star i j = star i j
over ((r, c) ∷ l) star i j = if i == r then j == c else over l star i j

-- The cells of the path from a column on.
abbrev pub cells : ℕ → List (ℕ × ℕ) → List (ℕ × ℕ)
cells c [] = []
cells c ((r, c') ∷ l) = (r, c) ∷ (r, c') ∷ cells c' l

-- A path of the matching from a column on: each row has its star in the column before.
abbrev pub Alternates : ℕ → (ℕ → ℕ → Bool) → ℕ → List (ℕ × ℕ) → Type 0
Alternates n star c [] = (i : ℕ) → star i c ≡ false
Alternates n star c ((r, c') ∷ l) =
    (star r c ≡ true)
    × ((has_row r l ≡ false)
        × ((has_col c ((r, c') ∷ l) ≡ false) × ((c' < n) × Alternates n star c' l)))

over-outside :
    (l : List (ℕ × ℕ)) (star : ℕ → ℕ → Bool) (i j : ℕ)
    → has_row i l ≡ false
    → over l star i j ≡ star i j
over-outside [] star i j h = refl
over-outside ((r, c) ∷ l) star i j h =
    let e : (i == r) ≡ false = ground arith in rw e (over-outside l star i j (ground arith))

over-cong :
    (l : List (ℕ × ℕ)) (star star' : ℕ → ℕ → Bool) (i j : ℕ)
    → star i j ≡ star' i j
    → over l star i j ≡ over l star' i j
over-cong [] star star' i j h = h
over-cong ((r, c) ∷ l) star star' i j h = elim (Bool-cases (i == r)) [
  | inl e ↦ rw e refl
  | inr e ↦ rw e (over-cong l star star' i j h)
]

-- In a column that is no new one, a star is an old one.
over-old :
    (l : List (ℕ × ℕ)) (star : ℕ → ℕ → Bool) (i j : ℕ)
    → has_col j l ≡ false
    → over l star i j ≡ true
    → star i j ≡ true
over-old [] star i j h e = e
over-old ((r, c) ∷ l) star i j h e = elim (Bool-cases (i == r)) [
  | inl q ↦ let no : (j == c) ≡ false = ground arith in absurd (false≢true (sym no ∙ (rw q at e)))
  | inr q ↦ over-old l star i j (ground arith) (rw q at e)
]

module _ (n : ℕ) (star : ℕ → ℕ → Bool) (m : IsMatching n star) where
  over_cons-IsMatching :
      (l : List (ℕ × ℕ)) (r c : ℕ)
      → r < n
      → c < n
      → IsMatching n (over l star)
      → ((i : ℕ) → over l star i c ≡ false)
      → IsMatching n (over ((r, c) ∷ l) star)
  over_cons-IsMatching l r c hr hc h free = record {
    row = λ i j j' a b. elim (Bool-cases (i == r)) [
      | inl e ↦ (==_iff j c).0 (rw e at a) ∙ sym ((==_iff j' c).0 (rw e at b))
      | inr e ↦ h.row i j j' (rw e at a) (rw e at b)
    ];
    col = λ i i' j a b. elim (Bool-cases (i == r)) [
      | inl e ↦ elim (Bool-cases (i' == r)) [
        | inl e' ↦ (==_iff i r).0 e ∙ sym ((==_iff i' r).0 e')
        | inr e' ↦
            let same : j ≡ c = (==_iff j c).0 (rw e at a) in
            absurd (false≢true (sym (free i') ∙ (rw same at (rw e' at b))))
      ]
      | inr e ↦ elim (Bool-cases (i' == r)) [
        | inl e' ↦
            let same : j ≡ c = (==_iff j c).0 (rw e' at b) in
            absurd (false≢true (sym (free i) ∙ (rw same at (rw e at a))))
        | inr e' ↦ h.col i i' j (rw e at a) (rw e' at b)
      ]
    ];
    row_lt = λ i j a. elim (Bool-cases (i == r)) [
      | inl e ↦ let same : i ≡ r = (==_iff i r).0 e in omega (arith, same)
      | inr e ↦ h.row_lt i j (rw e at a)
    ];
    col_lt = λ i j a. elim (Bool-cases (i == r)) [
      | inl e ↦ let same : j ≡ c = (==_iff j c).0 (rw e at a) in omega (arith, same)
      | inr e ↦ h.col_lt i j (rw e at a)
    ];
  }

  -- A path leaves a matching in which the column that it started from is free.
  pub over-IsMatching :
      (l : List (ℕ × ℕ)) (c : ℕ)
      → Alternates n star c l
      → IsMatching n (over l star) × ((i : ℕ) → over l star i c ≡ false)
  over-IsMatching [] c h =
      (record { row = m.row; col = m.col; row_lt = m.row_lt; col_lt = m.col_lt }, h)
  over-IsMatching ((r, c') ∷ l) c (here, (fresh, (new, (lt, rest)))) =
      let (h, free) = over-IsMatching l c' rest in
      (
        over_cons-IsMatching l r c' (m.row_lt r c here) lt h free,
        λ i. elim (Bool-cases (over ((r, c') ∷ l) star i c)) [
          | inl e ↦
              let old = over-old ((r, c') ∷ l) star i c new e in
              let same : i ≡ r = m.col i r c old here in
              let q : (i == r) ≡ true = (==_iff i r).1 same in
              let no : (c == c') ≡ false = ground arith in
              absurd (false≢true (sym no ∙ (rw q at e)))
          | inr e ↦ e
        ],
      )

  -- With a row that has no star moved to that column, it is a matching still.
  pub over_new-IsMatching :
      (l : List (ℕ × ℕ)) (r c : ℕ)
      → r < n
      → c < n
      → Alternates n star c l
      → IsMatching n (over ((r, c) ∷ l) star)
  over_new-IsMatching l r c hr hc h =
      let (matching, free) = over-IsMatching l c h in over_cons-IsMatching l r c hr hc matching free

  -- A row whose star is taken off and that is given another.
  moved :
      (c c' r i j : ℕ) (now : ℕ → ℕ → Bool)
      → (i == r) ≡ true
      → (now i j ≡ true → j ≡ c)
      → put2 r c' true (put2 r c false now) i j ≡ (j == c')
  moved c c' r i j now e only = elim (Bool-cases (j == c')) [
    | inl q ↦ rw (e, q) refl
    | inr q ↦ elim (Bool-cases (j == c)) [
      | inl s ↦ rw (e, q, s) refl
      | inr s ↦ elim (Bool-cases (now i j)) [
        | inl t ↦ absurd (false≢true (sym s ∙ (==_iff j c).1 (only t)))
        | inr t ↦ rw (e, q, s) t
      ]
    ]
  ]

  -- The flips of the cells of a path do this.
  flip-over :
      (l : List (ℕ × ℕ)) (c : ℕ) (now : ℕ → ℕ → Bool)
      → Alternates n star c l
      → ((i j : ℕ) → has_row i l ≡ true → now i j ≡ star i j)
      → (i j : ℕ) → flip false (cells c l) now i j ≡ over l now i j
  unfolding flip
  flip-over [] c now h agree i j = refl
  flip-over ((r, c') ∷ l) c now (here, (fresh, (new, (lt, rest)))) agree i j =
      let next = put2 r c' true (put2 r c false now) in
      let kept : (x y : ℕ) → (x == r) ≡ false → next x y ≡ now x y = λ x y e. rw e refl in
      let ih =
        flip-over l c' next rest
          (λ x y e. elim (Bool-cases (x == r)) [
            | inl q ↦
                let same : x ≡ r = (==_iff x r).0 q in
                absurd (false≢true (sym fresh ∙ (rw same at e)))
            | inr q ↦ kept x y q ∙ agree x y (ground arith)
          ])
          i j in
      ih ∙ elim (Bool-cases (i == r)) [
        | inl e ↦
            let same : i ≡ r = (==_iff i r).0 e in
            let outside : has_row i l ≡ false = rw same fresh in
            over-outside l next i j outside
            ∙ (moved c c' r i j now e
                  (λ q. m.row r j c (rw same at (sym (agree i j (ground arith)) ∙ q)) here)
                ∙ sym (rw e refl))
        | inr e ↦ rw e (over-cong l next now i j (kept i j e))
      ]

  -- And those of the whole path, from a primed zero whose row has no star.
  pub flip-over_new :
      (l : List (ℕ × ℕ)) (r c : ℕ)
      → Alternates n star c l
      → has_row r l ≡ false
      → ((j : ℕ) → star r j ≡ false)
      → flip true ((r, c) ∷ cells c l) star ≡ over ((r, c) ∷ l) star
  unfolding flip
  flip-over_new l r c h fresh bare = fun_ext (λ i. fun_ext (λ j.
      let now = put2 r c true star in
      let away : (x y : ℕ) → (x == r) ≡ false → now x y ≡ star x y = λ x y e. rw e refl in
      flip-over l c now h
        (λ x y e. elim (Bool-cases (x == r)) [
          | inl q ↦
              let same : x ≡ r = (==_iff x r).0 q in
              absurd (false≢true (sym fresh ∙ (rw same at e)))
          | inr q ↦ away x y q
        ])
        i j
      ∙ elim (Bool-cases (i == r)) [
        | inl e ↦
            let same : i ≡ r = (==_iff i r).0 e in
            let outside : has_row i l ≡ false = rw same fresh in
            let none : star i j ≡ false = rw same (bare j) in
            over-outside l now i j outside
            ∙ elim (Bool-cases (j == c)) [ inl q ↦ rw (e, q) refl | inr q ↦ rw (e, q) none ]
        | inr e ↦ rw e (over-cong l now star i j (away i j e))
      ]))

  -- A column that has a star has one after a path, except for the one that the path starts from.
  over-keeps :
      (l : List (ℕ × ℕ)) (c i j : ℕ)
      → Alternates n star c l
      → star i j ≡ true
      → ((x : ℕ) × (over l star x j ≡ true)) ⊎ (j ≡ c)
  over-keeps [] c i j h e = inl (i, e)
  over-keeps ((r, c') ∷ l) c i j (here, (fresh, (new, (lt, rest)))) e =
      elim (over-keeps l c' i j rest e) [
        | inl (x, q) ↦ elim (Bool-cases (x == r)) [
          | inl s ↦
              let same : x ≡ r = (==_iff x r).0 s in
              let old : star x j ≡ true = sym (over-outside l star x j (rw same fresh)) ∙ q in
              inr (m.row r j c (rw same at old) here)
          | inr s ↦ inl (x, rw s q)
        ]
        | inr q ↦ inl (
          r,
          let s : (r == r) ≡ true = (==_iff r r).1 refl in
              let t : (j == c') ≡ true = (==_iff j c').1 q in rw s t,
        )
      ]

  -- With the new row, that column has a star too, and one more than had one.
  pub over_new-keeps :
      (l : List (ℕ × ℕ)) (r c i j : ℕ)
      → Alternates n star c l
      → has_row r l ≡ false
      → ((j : ℕ) → star r j ≡ false)
      → star i j ≡ true
      → (x : ℕ) × (over ((r, c) ∷ l) star x j ≡ true)
  over_new-keeps l r c i j h fresh bare e = elim (over-keeps l c i j h e) [
    | inl (x, q) ↦ elim (Bool-cases (x == r)) [
      | inl s ↦
          let same : x ≡ r = (==_iff x r).0 s in
          let old : star x j ≡ true = sym (over-outside l star x j (rw same fresh)) ∙ q in
          absurd (false≢true (sym (bare j) ∙ (rw same at old)))
      | inr s ↦ (x, rw s q)
    ]
    | inr q ↦ (
      r,
      let s : (r == r) ≡ true = (==_iff r r).1 refl in
          let t : (j == c) ≡ true = (==_iff j c).1 q in rw s t,
    )
  ]

  pub over_new-gains :
      (l : List (ℕ × ℕ)) (r c : ℕ)
      → Alternates n star c l
      → has_row r l ≡ false
      → (j : ℕ) × (((i : ℕ) → star i j ≡ false) × ((x : ℕ) × (over ((r, c) ∷ l) star x j ≡ true)))
  over_new-gains [] r c h fresh = (
    c,
    (
      h,
      (
        r,
        let s : (r == r) ≡ true = (==_iff r r).1 refl in
            let t : (c == c) ≡ true = (==_iff c c).1 refl in rw s t,
      ),
    ),
  )
  over_new-gains ((r1, c1) ∷ l) r c (here, (fresh1, (new, (lt, rest)))) fresh =
      let (j, (free, (x, q))) = over_new-gains l r1 c1 rest fresh1 in
      (
        j,
        (
          free,
          (
            x,
            elim (Bool-cases (x == r)) [
              | inl s ↦
                  let same : x ≡ r = (==_iff x r).0 s in
                  let old : star x j ≡ true =
                    sym (
                      over-outside ((r1, c1) ∷ l) star x j
                        (ap (λ y. has_row y ((r1, c1) ∷ l)) same ∙ fresh))
                    ∙ q in
                  absurd (false≢true (sym (free x) ∙ old))
              | inr s ↦ rw s q
            ],
          ),
        ),
      )
