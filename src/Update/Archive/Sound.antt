-- ===== src/Update/Archive/Sound.antt =====
-- What a prepared update has been checked for, and that preparing it stays in its own directory.
use mathlib.Core.Path.{subst}
use dookie.Base.{
  ℕ, ◌+◌, ◌≤◌, ◌≡◌, refl, ◌∙◌, sym, ◌≢◌, true, List, [], ◌∷◌, String, length, arith, eq_iff,
}
use dookie.Base.Result.{Result, ok, err, ok-injective}
use dookie.Disk.{FilePath, Fs, Disk}
use dookie.Update.{Version, UpdateError, PreparedUpdate, Semver, archive_name, Upd}
use dookie.Update.Steps.{Ensures, Ensures-bind, Ensures-guard, Ensures-lift, Ensures-on_disk}
use dookie.Update.Install.{join}
use dookie.Update.Archive.{
  Entry, Codec, Found, Role, server, client, ignored, unexpected, role_of, stage, take_entry,
  take_entries, fill, or_drop, from_archive, checksum_matches, split_whitespace, max_archive,
}
use dookie.Update.Archive.Staging.{IsExecutable, stage-Leaves, stage_ensures}

IsExecutable-congr :
    (fs fs' : Fs) (q : FilePath) → fs' q ≡ fs q → IsExecutable fs q → IsExecutable fs' q
IsExecutable-congr fs fs' q e (bytes, p, m) = (bytes, e ∙ p, m)

join_ne : (p : FilePath) {a b : String} → a ≢ b → join p a ≢ join p b
join_ne [] h e = h (ground arith)
join_ne (c ∷ p) h e = join_ne p h (ground arith)

server_ne_client : ◌≢◌ {A = String} "dookie_server" "dookiec"
server_ne_client = ground (arith, eq_iff "dookie_server" "dookiec")

module _ (staging : FilePath) where
  abbrev Staged : Found → Disk → Type 0
  Staged f d =
      (f.server ≡ true → IsExecutable d.fs (join staging "dookie_server"))
      × (f.client ≡ true → IsExecutable d.fs (join staging "dookiec"))

  take_entry_ensures :
      (e : Entry) (role : Role) (f : Found)
      → Ensures (Staged f) (take_entry staging e role f) Staged
  unfolding take_entry
  take_entry_ensures e server f =
      Ensures-bind _ _ (λ _. Staged f) (Ensures-guard _ _ (λ b d p. p))
        λ _.
          Ensures-bind _ _ (λ _. Staged (record f { server = true }))
            (record {
              at = λ d p a h. (
                λ _. (stage_ensures _ e).at d tt a h,
                λ k.
                    IsExecutable-congr d.fs (stage (join staging "dookie_server") e d).1.fs _
                      ((stage-Leaves _ e _ (join_ne staging server_ne_client)).at d) (p.1 k),
              );
            })
            λ _. Ensures-lift _ (λ d a p h. subst (λ g. Staged g d) (ok-injective h) p)
  take_entry_ensures e client f =
      Ensures-bind _ _ (λ _. Staged f) (Ensures-guard _ _ (λ b d p. p))
        λ _.
          Ensures-bind _ _ (λ _. Staged (record f { client = true }))
            (record {
              at = λ d p a h. (
                λ k.
                    IsExecutable-congr d.fs (stage (join staging "dookiec") e d).1.fs _
                      ((stage-Leaves _ e _ (join_ne staging (λ q. server_ne_client (sym q)))).at d)
                      (p.0 k),
                λ _. (stage_ensures _ e).at d tt a h,
              );
            })
            λ _. Ensures-lift _ (λ d a p h. subst (λ g. Staged g d) (ok-injective h) p)
  take_entry_ensures e ignored f =
      Ensures-lift _ (λ d a p h. subst (λ g. Staged g d) (ok-injective h) p)
  take_entry_ensures e unexpected f = Ensures-lift _ (λ d a p h. absurd (ground arith))

  take_entries_ensures :
      (count : ℕ) (rs : List (Result UpdateError Entry)) (f : Found)
      → Ensures (Staged f) (take_entries staging count rs f) Staged
  unfolding take_entries
  take_entries_ensures count [] f =
      Ensures-lift _ (λ d a p h. subst (λ g. Staged g d) (ok-injective h) p)
  take_entries_ensures count (r ∷ rs) f =
      Ensures-bind _ _ (λ _. Staged f) (Ensures-guard _ _ (λ b d p. p))
        λ _.
          Ensures-bind _ _ (λ _. Staged f) (Ensures-lift _ (λ d a p h. p))
            λ e.
              Ensures-bind _ _ Staged (take_entry_ensures e (role_of e) f)
                λ f'. take_entries_ensures (count + 1) rs f'

  abbrev BothStaged : Disk → Type 0
  BothStaged d =
      IsExecutable d.fs (join staging "dookie_server") × IsExecutable d.fs (join staging "dookiec")

  fill_ensures :
      (codec : Codec) (unpacked : List ℕ)
      → Ensures (λ _. Unit {0}) (fill codec staging unpacked) (λ _. BothStaged)
  unfolding fill
  fill_ensures codec unpacked =
      Ensures-bind _ _ (λ _ _. Unit {0}) (Ensures-lift _ (λ d a p h. tt))
        λ entries.
          Ensures-bind _ _ Staged
            (record {
              at = λ d p a h.
                  (take_entries_ensures 0 entries _).at d (λ k. absurd (cc), λ k. absurd (cc)) a h;
            })
            λ found. Ensures-guard _ _ (λ b d p. (p.0 (ground arith), p.1 (ground arith)))

  or_drop_ensures :
      (m : Upd (Unit {0}))
      → Ensures (λ _. Unit {0}) m (λ _. BothStaged)
      → Ensures (λ _. Unit {0}) (or_drop staging m) (λ _. BothStaged)
  or_drop_ensures m h = record { at = λ d p a e. kept (m d).0 (m d).1 (h.at d p tt) a e }
    where
      kept :
          (r : Result UpdateError (Unit {0})) (d : Disk)
          → (r ≡ ok tt → BothStaged d)
          → (a : Unit {0}) → (or_drop staging (λ _. (r, d)) d).0 ≡ ok a
          → BothStaged (or_drop staging (λ _. (r, d)) d).1
      kept (ok _) d k a e = k refl
      kept (err x) d k a e = absurd (ground arith)

-- Everything that a prepared update has been checked for.
pub record IsVerified (sv : Semver) (codec : Codec) (temp : String) (install_dir : FilePath)
    (version : Version) (bytes : List ℕ) (checksum : String) (u : PreparedUpdate) (fs : Fs)
    : Type 0 where
  pub small : length bytes ≤ max_archive
  pub digest :
      checksum_matches (codec.sha256 bytes) (archive_name sv version) (split_whitespace checksum)
      ≡ true
  pub staging : u.staging ≡ join install_dir temp
  pub home : u.install_dir ≡ install_dir
  pub release : u.version ≡ version
  pub server : IsExecutable fs (join u.staging "dookie_server")
  pub client : IsExecutable fs (join u.staging "dookiec")

module _ (sv : Semver) (codec : Codec) (temp : String) (install_dir : FilePath) (version : Version)
    (bytes : List ℕ) (checksum : String) where
  abbrev prepare : Upd PreparedUpdate
  prepare = from_archive sv codec temp install_dir version bytes checksum

  abbrev prepared : PreparedUpdate
  prepared = record {
    staging = join install_dir temp;
    install_dir = install_dir;
    version = version;
  }

  abbrev Passed : Disk → Type 0
  Passed _ =
      (length bytes ≤ max_archive)
      × (checksum_matches (codec.sha256 bytes) (archive_name sv version) (split_whitespace checksum)
          ≡ true)

  from_archive_ensures :
      Ensures
        (λ _. Unit {0})
        prepare
        (λ u d. IsVerified sv codec temp install_dir version bytes checksum u d.fs)
  unfolding from_archive
  from_archive_ensures =
      Ensures-bind _ _ (λ _ _. length bytes ≤ max_archive)
        (Ensures-guard _ _ (λ b d p. ground arith))
        λ _.
          Ensures-bind _ _ (λ _. Passed) (Ensures-guard _ _ (λ b d p. (p, b)))
            λ _.
              Ensures-bind _ _ (λ _. Passed) (Ensures-lift _ (λ d a p h. p))
                λ unpacked.
                  Ensures-bind _ _ (λ _. Passed) (Ensures-guard _ _ (λ b d p. p))
                    λ _.
                      Ensures-bind _ _ (λ _. Passed) (Ensures-on_disk _ (λ d a p h. p))
                        λ _.
                          Ensures-bind _ _ (λ _ d. Passed d × BothStaged (join install_dir temp) d)
                            (record {
                              at = λ d p a h. (
                                p,
                                (or_drop_ensures (join install_dir temp) _
                                      (fill_ensures (join install_dir temp) codec unpacked)).at
                                    d tt a h,
                              );
                            })
                            λ _. Ensures-lift _ λ d u p h.
                              subst
                                (λ x.
                                  IsVerified sv codec temp install_dir version bytes checksum x
                                    d.fs)
                                (ok-injective h)
                                (record {
                                  small = p.0.0;
                                  digest = p.0.1;
                                  staging = refl;
                                  home = refl;
                                  release = refl;
                                  server = p.1.0;
                                  client = p.1.1;
                                })

  -- An archive that was accepted is small, has the digest and the name that its checksum file
  -- states, and leaves both binaries, each with the header of an Intel macOS executable, in the
  -- staging directory of the update.
  pub from_archive_sound :
      (d : Disk) (u : PreparedUpdate)
      → (prepare d).0 ≡ ok u
      → IsVerified sv codec temp install_dir version bytes checksum u (prepare d).1.fs
  from_archive_sound d u h = from_archive_ensures.at d tt u h
