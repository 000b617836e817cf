-- ===== src/Logging/Pass.antt =====
-- Which files one round removes.
use mathlib.Core.List.{Memᴰ}
use mathlib.Core.List.Memᴰ
use mathlib.Core.Path.{subst}
use dookie.Base.{
  ℕ, ◌≤◌, ◌<◌, ◌+◌, ◌*◌, ◌≡◌, refl, sym, ap, ◌∙◌, ◌≢◌, ◌⊎◌, inl, inr, true, false, some, none, List,
  [], ◌∷◌, ltb, Bool-cases, arith,
}
use dookie.Base.Result.{Result, ok, err, ok-injective, Result-cases}
use dookie.Disk.{FilePath, IoError, dir, Disk, remove_file}
use dookie.Disk.Laws.{remove_file_frame, remove_file_gone, remove_file_err}
use dookie.Disk.Paths.{path_eq, path_eq_iff, ne_by_test}
use dookie.Logging.{LogFile, threshold, age_secs, remove_old}

-- Last changed seven days and a second ago, or earlier.
abbrev pub IsExpired : ℕ → LogFile → Type 0
IsExpired now file =
    (modified : ℕ) × (file.modified ≡ ok modified) × (modified + (7 * 86400 + 1) * 1000000000 ≤ now)

too_old :
    (now modified : ℕ)
    → ltb threshold (age_secs now modified) ≡ true
    → modified + (7 * 86400 + 1) * 1000000000 ≤ now
too_old now modified b =
    let above : threshold < age_secs now modified = ground (arith, b) in omega (arith, above)

young_enough :
    (now modified : ℕ)
    → ltb threshold (age_secs now modified) ≡ false
    → modified + (7 * 86400 + 1) * 1000000000 ≤ now
    → ⊥
young_enough now modified b l =
    let within : age_secs now modified ≤ threshold = ground (arith, b) in
    absurd (omega (arith, within, l))

-- The entries up to the first that cannot be read.
abbrev pub listed : List (Result IoError LogFile) → List LogFile
listed [] = []
listed (err e ∷ rest) = []
listed (ok file ∷ rest) = file ∷ listed rest

abbrev pub IsExpiredAt : ℕ → List (Result IoError LogFile) → FilePath → Type 0
IsExpiredAt now files p =
    (file : LogFile) × Memᴰ file (listed files) × (file.path ≡ p) × IsExpired now file

-- What stands at a path is as it was, or gone, and then was no directory and expired.
abbrev pub Spares : ℕ → List (Result IoError LogFile) → Disk → Disk → Type 0
Spares now files d d' =
    (p : FilePath)
    → (d'.fs p ≡ d.fs p) ⊎ ((d'.fs p ≡ none) × (d.fs p ≢ some dir) × IsExpiredAt now files p)

IsExpiredAt-later :
    (now : ℕ) (file : LogFile) (rest : List (Result IoError LogFile)) (p : FilePath)
    → IsExpiredAt now rest p
    → IsExpiredAt now (ok file ∷ rest) p
IsExpiredAt-later now file rest p (f, m, e, x) = (f, Memᴰ.tail m, e, x)

Spares-later :
    (now : ℕ) (file : LogFile) (rest : List (Result IoError LogFile)) (d d' : Disk)
    → Spares now rest d d'
    → Spares now (ok file ∷ rest) d d'
Spares-later now file rest d d' s p = elim (s p) [
  | inl e ↦ inl e
  | inr (e, n, x) ↦ inr (e, n, IsExpiredAt-later now file rest p x)
]

remove_file_plain : (p : FilePath) (d : Disk) → (remove_file p d).0 ≡ ok tt → d.fs p ≢ some dir
unfolding remove_file
remove_file_plain p d r = λ e. ground (arith, e)

dir_stays :
    (file : LogFile) (d : Disk) (p : FilePath)
    → (remove_file file.path d).0 ≡ ok tt
    → d.fs p ≡ some dir
    → (remove_file file.path d).1.fs p ≡ some dir
dir_stays file d p r h = elim (Bool-cases (path_eq file.path p)) [
  | inl t ↦
      let same = (path_eq_iff file.path p).0 t in
      absurd (remove_file_plain file.path d r (ap (λ q. d.fs q) same ∙ h))
  | inr f ↦ remove_file_frame file.path d p (ne_by_test file.path p f) ∙ h
]

Spares-removed :
    (now : ℕ) (file : LogFile) (rest : List (Result IoError LogFile)) (d d' : Disk)
    → IsExpired now file
    → (remove_file file.path d).0 ≡ ok tt
    → Spares now rest (remove_file file.path d).1 d'
    → Spares now (ok file ∷ rest) d d'
Spares-removed now file rest d d' x r s p = elim (s p) [
  | inr (e, n, y) ↦ inr (e, λ h. n (dir_stays file d p r h), IsExpiredAt-later now file rest p y)
  | inl e ↦ elim (Bool-cases (path_eq file.path p)) [
    | inl t ↦
        let same = (path_eq_iff file.path p).0 t in
        inr (
          e
              ∙ subst (λ q. (remove_file file.path d).1.fs q ≡ none) same
                  (remove_file_gone file.path d r),
          subst (λ q. d.fs q ≢ some dir) same (remove_file_plain file.path d r),
          (file, Memᴰ.head refl, same, x),
        )
    | inr f ↦ inl (e ∙ remove_file_frame file.path d p (ne_by_test file.path p f))
  ]
]

-- All such files are gone.
abbrev pub Clears : ℕ → List (Result IoError LogFile) → Disk → Disk → Type 0
Clears now files d d' =
    (file : LogFile) → Memᴰ file (listed files) → IsExpired now file → d'.fs file.path ≡ none

module _ (now : ℕ) (file : LogFile) (rest : List (Result IoError LogFile)) (d : Disk) where
  abbrev here : Disk
  here = (remove_file file.path d).1

  unreadable :
      (e : IoError) → file.modified ≡ err e → remove_old now (ok file ∷ rest) d ≡ (err e, d)
  unfolding remove_old
  unreadable e p = rw p

  passed :
      (modified : ℕ)
      → file.modified ≡ ok modified
      → ltb threshold (age_secs now modified) ≡ false
      → remove_old now (ok file ∷ rest) d ≡ remove_old now rest d
  unfolding remove_old
  passed modified p b = rw p (rw b)

  removed :
      (modified : ℕ)
      → file.modified ≡ ok modified
      → ltb threshold (age_secs now modified) ≡ true
      → (remove_file file.path d).0 ≡ ok tt
      → remove_old now (ok file ∷ rest) d ≡ remove_old now rest here
  unfolding remove_old
  removed modified p b r = rw p (rw b (rw r))

  not_removed :
      (modified : ℕ) (e : IoError)
      → file.modified ≡ ok modified
      → ltb threshold (age_secs now modified) ≡ true
      → (remove_file file.path d).0 ≡ err e
      → remove_old now (ok file ∷ rest) d ≡ (err e, here)
  unfolding remove_old
  not_removed modified e p b r = rw p (rw b (rw r))

  -- What is done with the first file.
  data First : Type 0 where
    stops :
        (e : IoError) (d' : Disk)
        → d'.fs ≡ d.fs
        → remove_old now (ok file ∷ rest) d ≡ (err e, d')
        → First
    passes :
        (IsExpired now file → ⊥) → remove_old now (ok file ∷ rest) d ≡ remove_old now rest d → First
    removes :
        IsExpired now file
        → (remove_file file.path d).0 ≡ ok tt
        → remove_old now (ok file ∷ rest) d ≡ remove_old now rest here
        → First

  first : First
  first = elim (Result-cases file.modified) [
    | inr (e, p) ↦ stops e d refl (unreadable e p)
    | inl (modified, p) ↦ elim (Bool-cases (ltb threshold (age_secs now modified))) [
      | inr b ↦
          passes
            (λ x.
              let same = ok-injective (sym x.1 ∙ p) in
              young_enough now modified b
                (subst (λ m. m + (7 * 86400 + 1) * 1000000000 ≤ now) same x.2))
            (passed modified p b)
      | inl b ↦ elim (Result-cases (remove_file file.path d).0) [
        | inr (e, r) ↦ stops e here (remove_file_err file.path d r) (not_removed modified e p b r)
        | inl (u, r) ↦ removes (modified, p, too_old now modified b) r (removed modified p b r)
      ]
    ]
  ]

pub remove_old-Spares :
    (now : ℕ) (files : List (Result IoError LogFile)) (d : Disk)
    → Spares now files d (remove_old now files d).1
unfolding remove_old
remove_old-Spares now [] d = λ p. inl refl
remove_old-Spares now (err e ∷ rest) d = λ p. inl refl
remove_old-Spares now (ok file ∷ rest) d = elim (first now file rest d) [
  | stops e d' k q ↦
      subst (λ x. Spares now (ok file ∷ rest) d x.1) (sym q) (λ p. inl (ap (λ f. f p) k))
  | passes n q ↦
      subst (λ x. Spares now (ok file ∷ rest) d x.1) (sym q)
        (Spares-later now file rest d (remove_old now rest d).1 (remove_old-Spares now rest d))
  | removes x r q ↦
      let d₁ = (remove_file file.path d).1 in
      subst (λ x. Spares now (ok file ∷ rest) d x.1) (sym q)
        (Spares-removed now file rest d (remove_old now rest d₁).1 x r
          (remove_old-Spares now rest d₁))
]

-- A call that ends with an error, or all its work is done.
abbrev pub Ends : (Result IoError (Unit {0}) × Disk) → (Disk → Type 0) → Type 0
Ends x done = ((e : IoError) × (x.0 ≡ err e)) ⊎ done x.1

pub stays_gone :
    (now : ℕ) (files : List (Result IoError LogFile)) (d d' : Disk)
    → Spares now files d d'
    → (p : FilePath) → d.fs p ≡ none
    → d'.fs p ≡ none
stays_gone now files d d' s p n = elim (s p) [ inl e ↦ e ∙ n | inr (e, _, _) ↦ e ]

Clears-removed :
    (now : ℕ) (file : LogFile) (rest : List (Result IoError LogFile)) (d d' : Disk)
    → (remove_file file.path d).0 ≡ ok tt
    → Spares now rest (remove_file file.path d).1 d'
    → Clears now rest (remove_file file.path d).1 d'
    → Clears now (ok file ∷ rest) d d'
Clears-removed now file rest d d' r s c f m x = elim (Memᴰ.cases_cons m) [
  | inr later ↦ c f later x
  | inl same ↦
      subst (λ p. d'.fs p ≡ none) (ap (λ (y : LogFile). y.path) (sym same))
        (stays_gone now rest (remove_file file.path d).1 d' s file.path
          (remove_file_gone file.path d r))
]

pub remove_old-Clears :
    (now : ℕ) (files : List (Result IoError LogFile)) (d : Disk)
    → Ends (remove_old now files d) (Clears now files d)
unfolding remove_old
remove_old-Clears now [] d = inr (λ f m x. absurd (Memᴰ.not-nil m))
remove_old-Clears now (err e ∷ rest) d = inr (λ f m x. absurd (Memᴰ.not-nil m))
remove_old-Clears now (ok file ∷ rest) d = elim (first now file rest d) [
  | stops e d' k q ↦ inl (e, ap (λ x. x.0) q)
  | passes n q ↦
      subst (λ x. Ends x (Clears now (ok file ∷ rest) d)) (sym q)
        (elim (remove_old-Clears now rest d) [
          | inl stopped ↦ inl stopped
          | inr c ↦ inr (λ f m x. elim (Memᴰ.cases_cons m) [
            | inl same ↦ absurd (n (subst (λ y. IsExpired now y) same x))
            | inr later ↦ c f later x
          ])
        ])
  | removes x r q ↦
      let d₁ = (remove_file file.path d).1 in
      subst (λ x. Ends x (Clears now (ok file ∷ rest) d)) (sym q)
        (elim (remove_old-Clears now rest d₁) [
          | inl stopped ↦ inl stopped
          | inr c ↦ inr (
              Clears-removed now file rest d (remove_old now rest d₁).1 r
                (remove_old-Spares now rest d₁) c)
        ])
]
