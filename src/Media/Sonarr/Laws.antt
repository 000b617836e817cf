-- ===== src/Media/Sonarr/Laws.antt =====
-- Which requests a call to Sonarr sends, and what a removal has done.
use mathlib.Core.Path.{subst}
use dookie.Base.{
  ℕ, ◌<>◌, ◌≡◌, refl, sym, ap, ◌∙◌, ◌≢◌, ◌⊎◌, inl, inr, Bool, true, false, not, List, ◌∷◌,
  find-eq-some, ◌==◌, ==_iff, arith, if◌then◌else◌,
}
use dookie.Base.Result.{ok, ok-injective, ok_or-eq-ok}
use dookie.Media.{Request, Response, Server, lift, show, is_success}
use dookie.Media.Sends.{
  Adds, Sends, Sends-lift, Sends-bind, Sends-if, Sends-known, succeeded, lifted, lift_keeps,
}
use dookie.Media.Arr.{Quality, AddTarget, get_json}
use dookie.Media.Arr.Laws.{
  IsGet, get_json-Sends, post_json-Sends, arr_delete-Sends, add_target-Sends, deleted,
}
use dookie.Media.Client.{BundleClient, post_request, delete_request}
use dookie.Media.Sonarr.{
  Series, SonarrInput, lookup, add, remove, SonarrOutput, removed, not_tracked, SeriesCodec,
  with_target, find_series, add_untracked, remove_tracked, make_call,
}

removed-injective : {a b : Series} → removed a ≡ removed b → a ≡ b
removed-injective {a} h = ap (λ (x : SonarrOutput). elim x [ removed m ↦ m | _ ↦ a ]) h

not_removed : (a b : Series) → not_tracked a ≡ removed b → ⊥
not_removed a b h = absurd (ground arith)

module _ (server : Server) (client : BundleClient) (codec : SeriesCodec) where
  -- What some lookup of that number finds.
  abbrev pub IsFound : ℕ → Series → Type 0
  IsFound tvdb_id series =
      (h : List Request) × (series.tvdb_id ≡ tvdb_id)
      × ((find_series server client codec tvdb_id h).0 ≡ ok series)

  -- The answer to the request for the one that the lookup found.
  abbrev pub IsTracked : Series → Series → Type 0
  IsTracked found series =
      (h : List Request) × ((get_json server client codec.parse_one
          ("/api/v3/series/" <> show found.id) h).0
        ≡ ok series)

  -- The requests that may change what Sonarr tracks: adding the very series that was asked for, which
  -- its lookup has not in the library; deleting a series after the lookup has it in the library, with
  -- the files kept.
  abbrev pub IsChange : SonarrInput → Request → Type 0
  IsChange (lookup _) r = ⊥
  IsChange (add tvdb_id quality) r =
      (series : Series) × (target : AddTarget) × IsFound tvdb_id series
      × (series.id ≡ 0)
      × (r
          ≡ post_request server client "/api/v3/series" (codec.to_json (with_target target series)))
  IsChange (remove tvdb_id) r =
      (found series : Series) × IsFound tvdb_id found
      × (found.id ≢ 0)
      × IsTracked found series
      × (r
          ≡ delete_request server client
              ("/api/v3/series/" <> show series.id <> "?deleteFiles=false"))

  abbrev pub IsAllowed : SonarrInput → Request → Type 0
  IsAllowed input r = IsGet server client r ⊎ IsChange input r

  find_series-Sends :
      (P : Request → Type 0) (tvdb_id : ℕ)
      → ((r : Request) → IsGet server client r → P r)
      → Sends P (find_series server client codec tvdb_id)
  unfolding find_series
  find_series-Sends P tvdb_id g =
      Sends-bind P _ _ (get_json-Sends server client P codec.parse_list _ g) (λ a. Sends-lift P _)

  find_series_id :
      (tvdb_id : ℕ) (h : List Request) (series : Series)
      → (find_series server client codec tvdb_id h).0 ≡ ok series
      → series.tvdb_id ≡ tvdb_id
  unfolding find_series
  find_series_id tvdb_id h series e =
      let (found, q, k) = succeeded _ _ h series e in
      let matches =
        find-eq-some (λ m. m.tvdb_id == tvdb_id) found series
          (ok_or-eq-ok _ _ (lifted _ _ (ap (λ x. x.0) (sym k) ∙ e))) in
      ground (arith, ==_iff series.tvdb_id tvdb_id)

  add_untracked-Sends :
      (tvdb_id : ℕ) (quality : Quality) (series : Series)
      → IsFound tvdb_id series
      → series.id ≡ 0
      → Sends (IsAllowed (add tvdb_id quality)) (add_untracked server client codec quality series)
  unfolding add_untracked
  add_untracked-Sends tvdb_id quality series e z =
      Sends-bind _ _ _ (add_target-Sends server client _ codec.arr quality (λ r g. inl g))
        (λ target.
          Sends-bind _ _ _
            (post_json-Sends server client _ codec.parse_one "/api/v3/series" _
              (inr (series, target, e, z, refl)))
            (λ series'. Sends-lift _ _))

  remove_tracked-Sends :
      (tvdb_id : ℕ) (found : Series)
      → IsFound tvdb_id found
      → found.id ≢ 0
      → Sends (IsAllowed (remove tvdb_id)) (remove_tracked server client codec found)
  unfolding remove_tracked
  remove_tracked-Sends tvdb_id found e n =
      Sends-known _ (IsTracked found) _ _
        (get_json-Sends server client _ codec.parse_one _ (λ r g. inl g)) (λ h series q. (h, q))
        (λ series q.
          Sends-bind _ _ _ (arr_delete-Sends server client _ _ (inr (found, series, e, n, q, refl)))
            (λ _. Sends-lift _ _))

  -- A call to Sonarr sends, whatever is answered, only requests that read, and, for an input that
  -- adds, the addition of the show that the lookup of that TVDB number finds, where it is not tracked
  -- yet; for an input that removes, the deletion that keeps the files of the show that Sonarr answers
  -- with when asked for the tracked one which the lookup of that TVDB number finds.
  pub sonarr_requests :
      (input : SonarrInput) (h : List Request)
      → Adds (IsAllowed input) h (make_call server client codec input h).1
  unfolding make_call
  sonarr_requests (lookup term) h =
      (Sends-bind _ (lift _) _ (Sends-lift _ _) (λ url.
          Sends-bind _ _ _ (get_json-Sends server client _ codec.parse_list url (λ r g. inl g))
            (λ found. Sends-lift _ _))).at
        h
  sonarr_requests (add tvdb_id quality) h =
      (Sends-known _ (IsFound tvdb_id) _ _ (find_series-Sends _ tvdb_id (λ r g. inl g))
          (λ h series e. (h, find_series_id tvdb_id h series e, e))
          (λ series e.
            Sends-if _ (not (series.id == 0)) _ _ (λ t. Sends-lift _ _)
              (λ f.
                add_untracked-Sends tvdb_id quality series e
                  (ground (arith, ==_iff series.id 0))))).at
        h
  sonarr_requests (remove tvdb_id) h =
      (Sends-known _ (IsFound tvdb_id) _ _ (find_series-Sends _ tvdb_id (λ r g. inl g))
          (λ h series e. (h, find_series_id tvdb_id h series e, e))
          (λ found e.
            Sends-if _ (found.id == 0) _ _ (λ t. Sends-lift _ _)
              (λ f.
                remove_tracked-Sends tvdb_id found e (λ z. ground (arith, ==_iff found.id 0))))).at
        h

  -- The series is deleted: the last request deletes it, and Sonarr answered it with a success.
  abbrev pub IsDeleted : Series → List Request → Type 0
  IsDeleted series sent =
      let url = "/api/v3/series/" <> show series.id <> "?deleteFiles=false" in
      (before : List Request) × (response : Response) × (sent
        ≡ delete_request server client url ∷ before)
      × (server before (delete_request server client url) ≡ ok response)
      × (is_success response.status ≡ true)

  remove_tracked_deletes :
      (found series : Series) (h : List Request)
      → (remove_tracked server client codec found h).0 ≡ ok (removed series)
      → IsDeleted series (remove_tracked server client codec found h).1
  unfolding remove_tracked
  remove_tracked_deletes found series h e =
      let (m, q, k) = succeeded _ _ h (removed series) e in
      let h₁ = (get_json server client codec.parse_one ("/api/v3/series/" <> show found.id) h).1 in
      let (_, q₂, k₂) = succeeded _ _ h₁ (removed series) (ap (λ x. x.0) (sym k) ∙ e) in
      let same_series =
        removed-injective (ok-injective (lifted _ _ (ap (λ x. x.0) (sym (k ∙ k₂)) ∙ e))) in
      let url = "/api/v3/series/" <> show m.id <> "?deleteFiles=false" in
      let (sent, response, answered, success) = deleted server client url h₁ q₂ in
      subst (λ x. IsDeleted x (remove_tracked server client codec found h).1) same_series
        (h₁, response, ap (λ x. x.1) (k ∙ k₂) ∙ lift_keeps _ _ ∙ sent, answered, success)

  -- A removal that returns `Removed` has deleted that series: the deletion was the last request, and
  -- Sonarr answered it with a success.
  pub sonarr_removed :
      (tvdb_id : ℕ) (series : Series) (h : List Request)
      → (make_call server client codec (remove tvdb_id) h).0 ≡ ok (removed series)
      → IsDeleted series (make_call server client codec (remove tvdb_id) h).1
  unfolding make_call
  sonarr_removed tvdb_id series h e =
      let (found, q, k) = succeeded _ _ h (removed series) e in
      let h₁ = (find_series server client codec tvdb_id h).1 in
      subst (λ x. IsDeleted series x.1) (sym k)
        (by_test found (found.id == 0) h₁ (ap (λ x. x.0) (sym k) ∙ e))
    where
      by_test :
          (found : Series) (b : Bool) (h₁ : List Request)
          → ((if b then lift (ok (not_tracked found)) else remove_tracked server client codec found)
              h₁).0
            ≡ ok (removed series)
          → IsDeleted series
              ((if b
                  then lift (ok (not_tracked found))
                  else remove_tracked server client codec found)
                h₁).1
      by_test found true h₁ g = absurd (not_removed found series (ok-injective (lifted _ _ g)))
      by_test found false h₁ g = remove_tracked_deletes found series h₁ g
