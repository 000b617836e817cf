-- ===== src/Logging/Retention.antt =====
-- What the logger's task removes in all its rounds.
use mathlib.Core.List.{Memᴰ}
use mathlib.Core.List.Memᴰ
use mathlib.Core.Path.{subst}
use dookie.Base.{ℕ, ◌≡◌, refl, sym, ap, ◌∙◌, ◌≢◌, ◌⊎◌, inl, inr, some, none, List, [], ◌∷◌, arith}
use dookie.Base.Result.{Result, ok, err, ok-injective, Result-cases}
use dookie.Disk.{FilePath, IoError, dir, Disk}
use dookie.Logging.{LogFile, remove_old, Round, round, retain}
use dookie.Logging.Pass.{IsExpiredAt, Clears, Ends, remove_old-Spares, remove_old-Clears}

-- What a round read of the directory and of the time.
abbrev pub HasRead : Round → List (Result IoError LogFile) → ℕ → Type 0
HasRead r files now = (r.files ≡ ok files) × (r.now ≡ ok now)

abbrev pub IsExpiredIn : Round → FilePath → Type 0
IsExpiredIn r p =
    (files : List (Result IoError LogFile)) × (now : ℕ) × HasRead r files now
    × IsExpiredAt now files p

RoundSpares : Round → Disk → Disk → Type 0
RoundSpares r d d' =
    (p : FilePath) → (d'.fs p ≡ d.fs p) ⊎ ((d'.fs p ≡ none) × (d.fs p ≢ some dir) × IsExpiredIn r p)

RoundClears : Round → Disk → Disk → Type 0
RoundClears r d d' =
    (files : List (Result IoError LogFile)) (now : ℕ) → HasRead r files now → Clears now files d d'

round-Spares : (r : Round) (d : Disk) → RoundSpares r d (round r d).1
unfolding RoundSpares
round-Spares r d p = elim (Result-cases r.files) [
  | inr (e, q) ↦ inl (rw q)
  | inl (files, q) ↦ elim (Result-cases r.now) [
    | inr (e, n) ↦ inl (rw q (rw n))
    | inl (now, n) ↦ rw q (
        rw n (elim (remove_old-Spares now files d p) [
          | inl same ↦ inl same
          | inr (gone, n, x) ↦ inr (gone, n, (files, now, (refl, refl), x))
        ]))
  ]
]

round-Clears : (r : Round) (d : Disk) → Ends (round r d) (RoundClears r d)
unfolding RoundClears
round-Clears r d = elim (Result-cases r.files) [
  | inr (e, q) ↦ inl (e, rw q)
  | inl (files, q) ↦ elim (Result-cases r.now) [
    | inr (e, n) ↦ inl (e, rw q (rw n))
    | inl (now, n) ↦ rw q (
        rw n (elim (remove_old-Clears now files d) [
          | inl stopped ↦ inl stopped
          | inr c ↦ inr (λ files' now' k.
              let f = ok-injective k.0 in
              let t = ok-injective k.1 in
              subst (λ l. Clears now' l d (remove_old now files d).1) f
                (subst (λ m. Clears m files d (remove_old now files d).1) t c))
        ]))
  ]
]

-- After a round that did not end the task.
after_round :
    (r : Round) (rounds : List Round) (d : Disk)
    → ((e : IoError) × ((round r d).0 ≡ err e) × (retain (r ∷ rounds) d ≡ (err e, (round r d).1)))
      ⊎ (((round r d).0 ≡ ok tt) × (retain (r ∷ rounds) d ≡ retain rounds (round r d).1))
unfolding retain
after_round r rounds d = elim (Result-cases (round r d).0) [
  | inr (e, q) ↦ inl (e, q, ground (arith, q))
  | inl (u, q) ↦ inr (q, ground (arith, q))
]

-- What stands at a path is as it was, or gone, and then was no directory and expired in some round.
abbrev pub SparesAll : List Round → Disk → Disk → Type 0
SparesAll rounds d d' =
    (p : FilePath)
    → (d'.fs p ≡ d.fs p)
      ⊎ ((d'.fs p ≡ none) × (d.fs p ≢ some dir) × (r : Round) × Memᴰ r rounds × IsExpiredIn r p)

-- What any round read as expired is gone.
abbrev pub ClearsAll : List Round → Disk → Disk → Type 0
ClearsAll rounds d d' =
    (r : Round) (files : List (Result IoError LogFile)) (now : ℕ)
    → Memᴰ r rounds
    → HasRead r files now
    → Clears now files d d'

retain-SparesAll : (rounds : List Round) (d : Disk) → SparesAll rounds d (retain rounds d).1
unfolding retain RoundSpares
retain-SparesAll [] d p = inl refl
retain-SparesAll (r ∷ rounds) d p =
    let first = round-Spares r d p in
    let before_round : (round r d).1.fs p ≢ some dir → d.fs p ≢ some dir =
      λ n. elim first [ inl same ↦ λ h. n (same ∙ h) | inr (gone, m, x) ↦ m ] in
    elim (after_round r rounds d) [
      | inl (e, q, k) ↦
          subst
            (λ x.
              (x.1.fs p ≡ d.fs p)
              ⊎ ((x.1.fs p ≡ none)
                  × (d.fs p ≢ some dir)
                  × (r' : Round) × Memᴰ r' (r ∷ rounds)
                  × IsExpiredIn r' p))
            (sym k)
            (elim first [
              | inl same ↦ inl same
              | inr (gone, n, x) ↦ inr (gone, n, r, Memᴰ.head refl, x)
            ])
      | inr (o, k) ↦
          subst
            (λ x.
              (x.1.fs p ≡ d.fs p)
              ⊎ ((x.1.fs p ≡ none)
                  × (d.fs p ≢ some dir)
                  × (r' : Round) × Memᴰ r' (r ∷ rounds)
                  × IsExpiredIn r' p))
            (sym k)
            (elim (retain-SparesAll rounds (round r d).1 p) [
              | inr (gone, n, r', m, x) ↦ inr (gone, before_round n, r', Memᴰ.tail m, x)
              | inl same ↦ elim first [
                | inl same' ↦ inl (same ∙ same')
                | inr (gone, n, x) ↦ inr (same ∙ gone, n, r, Memᴰ.head refl, x)
              ]
            ])
    ]

stays_gone_all :
    (rounds : List Round) (d : Disk) (p : FilePath)
    → d.fs p ≡ none
    → (retain rounds d).1.fs p ≡ none
stays_gone_all rounds d p h = elim (retain-SparesAll rounds d p) [
  | inl same ↦ same ∙ h
  | inr away ↦ away.0
]

retain-ClearsAll : (rounds : List Round) (d : Disk) → Ends (retain rounds d) (ClearsAll rounds d)
unfolding retain RoundClears
retain-ClearsAll [] d = inr (λ r files now m k file l x. absurd (Memᴰ.not-nil m))
retain-ClearsAll (r ∷ rounds) d = elim (after_round r rounds d) [
  | inl (e, q, k) ↦ inl (e, ap (λ x. x.0) k)
  | inr (o, k) ↦
      subst (λ x. Ends x (ClearsAll (r ∷ rounds) d)) (sym k)
        (elim (retain-ClearsAll rounds (round r d).1) [
          | inl stopped ↦ inl stopped
          | inr later ↦ elim (round-Clears r d) [
            | inl (e, q) ↦ absurd (ground (arith, o, q))
            | inr c ↦ inr (λ r' files now m k file l x. elim (Memᴰ.cases_cons m) [
              | inr after ↦ later r' files now after k file l x
              | inl same ↦
                  stays_gone_all rounds (round r d).1 file.path
                    (c files now (subst (λ y. HasRead y files now) same k) file l x)
            ])
          ]
        ])
]

-- In all its rounds, whatever calls fail, the logger's task leaves what stands at a path as it was,
-- or removes it, and then it was no directory, and some round listed it as last changed seven days
-- and a second ago, or earlier; and the task ends with an error, or everything that any of its rounds listed so
-- is gone.
pub retain_removes :
    (rounds : List Round) (d : Disk)
    → SparesAll rounds d (retain rounds d).1
      × (((e : IoError) × ((retain rounds d).0 ≡ err e)) ⊎ ClearsAll rounds d (retain rounds d).1)
retain_removes rounds d = (retain-SparesAll rounds d, retain-ClearsAll rounds d)
