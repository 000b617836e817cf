-- ===== src/Media/Radarr/Laws.antt =====
-- Which requests a call to Radarr sends, and what a removal has done.
use mathlib.Core.Path.{subst}
use dookie.Base.{
  ℕ, ◌<>◌, ◌≡◌, refl, sym, ap, ◌∙◌, ◌≢◌, ◌⊎◌, inl, inr, Bool, true, false, not, List, ◌∷◌,
  find-eq-some, ◌==◌, ==_iff, arith, if◌then◌else◌,
}
use dookie.Base.Result.{ok, ok-injective, ok_or-eq-ok}
use dookie.Media.{Request, Response, Server, lift, show, is_success}
use dookie.Media.Sends.{
  Adds, Sends, Sends-lift, Sends-bind, Sends-if, Sends-known, succeeded, lifted, lift_keeps,
}
use dookie.Media.Arr.{Quality, AddTarget, get_json}
use dookie.Media.Arr.Laws.{
  IsGet, get_json-Sends, post_json-Sends, arr_delete-Sends, add_target-Sends, deleted,
}
use dookie.Media.Client.{BundleClient, post_request, delete_request}
use dookie.Media.Radarr.{
  Movie, RadarrInput, lookup, add, remove, RadarrOutput, removed, not_tracked, MovieCodec,
  with_target, find_movie, add_untracked, remove_tracked, make_call,
}

removed-injective : {a b : Movie} → removed a ≡ removed b → a ≡ b
removed-injective {a} h = ap (λ (x : RadarrOutput). elim x [ removed m ↦ m | _ ↦ a ]) h

not_removed : (a b : Movie) → not_tracked a ≡ removed b → ⊥
not_removed a b h = absurd (ground arith)

module _ (server : Server) (client : BundleClient) (codec : MovieCodec) where
  -- What some lookup of that number finds.
  abbrev pub IsFound : ℕ → Movie → Type 0
  IsFound tmdb_id movie =
      (h : List Request) × (movie.tmdb_id ≡ tmdb_id)
      × ((find_movie server client codec tmdb_id h).0 ≡ ok movie)

  -- The answer to the request for the one that the lookup found.
  abbrev pub IsTracked : Movie → Movie → Type 0
  IsTracked found movie =
      (h : List Request) × ((get_json server client codec.parse_one
          ("/api/v3/movie/" <> show found.id) h).0
        ≡ ok movie)

  -- The requests that may change what Radarr tracks: adding the very movie that was asked for, which
  -- its lookup has not in the library; deleting a movie after the lookup has it in the library, with
  -- the files kept.
  abbrev pub IsChange : RadarrInput → Request → Type 0
  IsChange (lookup _) r = ⊥
  IsChange (add tmdb_id quality) r =
      (movie : Movie) × (target : AddTarget) × IsFound tmdb_id movie
      × (movie.id ≡ 0)
      × (r ≡ post_request server client "/api/v3/movie" (codec.to_json (with_target target movie)))
  IsChange (remove tmdb_id) r =
      (found movie : Movie) × IsFound tmdb_id found
      × (found.id ≢ 0)
      × IsTracked found movie
      × (r
          ≡ delete_request server client
              ("/api/v3/movie/" <> show movie.id <> "?deleteFiles=false"))

  abbrev pub IsAllowed : RadarrInput → Request → Type 0
  IsAllowed input r = IsGet server client r ⊎ IsChange input r

  find_movie-Sends :
      (P : Request → Type 0) (tmdb_id : ℕ)
      → ((r : Request) → IsGet server client r → P r)
      → Sends P (find_movie server client codec tmdb_id)
  unfolding find_movie
  find_movie-Sends P tmdb_id g =
      Sends-bind P _ _ (get_json-Sends server client P codec.parse_list _ g) (λ a. Sends-lift P _)

  find_movie_id :
      (tmdb_id : ℕ) (h : List Request) (movie : Movie)
      → (find_movie server client codec tmdb_id h).0 ≡ ok movie
      → movie.tmdb_id ≡ tmdb_id
  unfolding find_movie
  find_movie_id tmdb_id h movie e =
      let (found, q, k) = succeeded _ _ h movie e in
      let matches =
        find-eq-some (λ m. m.tmdb_id == tmdb_id) found movie
          (ok_or-eq-ok _ _ (lifted _ _ (ap (λ x. x.0) (sym k) ∙ e))) in
      ground (arith, ==_iff movie.tmdb_id tmdb_id)

  add_untracked-Sends :
      (tmdb_id : ℕ) (quality : Quality) (movie : Movie)
      → IsFound tmdb_id movie
      → movie.id ≡ 0
      → Sends (IsAllowed (add tmdb_id quality)) (add_untracked server client codec quality movie)
  unfolding add_untracked
  add_untracked-Sends tmdb_id quality movie e z =
      Sends-bind _ _ _ (add_target-Sends server client _ codec.arr quality (λ r g. inl g))
        (λ target.
          Sends-bind _ _ _
            (post_json-Sends server client _ codec.parse_one "/api/v3/movie" _
              (inr (movie, target, e, z, refl)))
            (λ movie'. Sends-lift _ _))

  remove_tracked-Sends :
      (tmdb_id : ℕ) (found : Movie)
      → IsFound tmdb_id found
      → found.id ≢ 0
      → Sends (IsAllowed (remove tmdb_id)) (remove_tracked server client codec found)
  unfolding remove_tracked
  remove_tracked-Sends tmdb_id found e n =
      Sends-known _ (IsTracked found) _ _
        (get_json-Sends server client _ codec.parse_one _ (λ r g. inl g)) (λ h movie q. (h, q))
        (λ movie q.
          Sends-bind _ _ _ (arr_delete-Sends server client _ _ (inr (found, movie, e, n, q, refl)))
            (λ _. Sends-lift _ _))

  -- A call to Radarr sends, whatever is answered, only requests that read, and, for an input that
  -- adds, the addition of the movie that the lookup of that TMDB number finds, where it is not tracked
  -- yet; for an input that removes, the deletion that keeps the files of the movie that Radarr answers
  -- with when asked for the tracked one which the lookup of that TMDB number finds.
  pub radarr_requests :
      (input : RadarrInput) (h : List Request)
      → Adds (IsAllowed input) h (make_call server client codec input h).1
  unfolding make_call
  radarr_requests (lookup term) h =
      (Sends-bind _ (lift _) _ (Sends-lift _ _) (λ url.
          Sends-bind _ _ _ (get_json-Sends server client _ codec.parse_list url (λ r g. inl g))
            (λ found. Sends-lift _ _))).at
        h
  radarr_requests (add tmdb_id quality) h =
      (Sends-known _ (IsFound tmdb_id) _ _ (find_movie-Sends _ tmdb_id (λ r g. inl g))
          (λ h movie e. (h, find_movie_id tmdb_id h movie e, e))
          (λ movie e.
            Sends-if _ (not (movie.id == 0)) _ _ (λ t. Sends-lift _ _)
              (λ f.
                add_untracked-Sends tmdb_id quality movie e
                  (ground (arith, ==_iff movie.id 0))))).at
        h
  radarr_requests (remove tmdb_id) h =
      (Sends-known _ (IsFound tmdb_id) _ _ (find_movie-Sends _ tmdb_id (λ r g. inl g))
          (λ h movie e. (h, find_movie_id tmdb_id h movie e, e))
          (λ found e.
            Sends-if _ (found.id == 0) _ _ (λ t. Sends-lift _ _)
              (λ f.
                remove_tracked-Sends tmdb_id found e (λ z. ground (arith, ==_iff found.id 0))))).at
        h

  -- The movie is deleted: the last request deletes it, and Radarr answered it with a success.
  abbrev pub IsDeleted : Movie → List Request → Type 0
  IsDeleted movie sent =
      let url = "/api/v3/movie/" <> show movie.id <> "?deleteFiles=false" in
      (before : List Request) × (response : Response) × (sent
        ≡ delete_request server client url ∷ before)
      × (server before (delete_request server client url) ≡ ok response)
      × (is_success response.status ≡ true)

  remove_tracked_deletes :
      (found movie : Movie) (h : List Request)
      → (remove_tracked server client codec found h).0 ≡ ok (removed movie)
      → IsDeleted movie (remove_tracked server client codec found h).1
  unfolding remove_tracked
  remove_tracked_deletes found movie h e =
      let (m, q, k) = succeeded _ _ h (removed movie) e in
      let h₁ = (get_json server client codec.parse_one ("/api/v3/movie/" <> show found.id) h).1 in
      let (_, q₂, k₂) = succeeded _ _ h₁ (removed movie) (ap (λ x. x.0) (sym k) ∙ e) in
      let same_movie =
        removed-injective (ok-injective (lifted _ _ (ap (λ x. x.0) (sym (k ∙ k₂)) ∙ e))) in
      let url = "/api/v3/movie/" <> show m.id <> "?deleteFiles=false" in
      let (sent, response, answered, success) = deleted server client url h₁ q₂ in
      subst (λ x. IsDeleted x (remove_tracked server client codec found h).1) same_movie
        (h₁, response, ap (λ x. x.1) (k ∙ k₂) ∙ lift_keeps _ _ ∙ sent, answered, success)

  -- A removal that returns `Removed` has deleted that movie: the deletion was the last request, and
  -- Radarr answered it with a success.
  pub radarr_removed :
      (tmdb_id : ℕ) (movie : Movie) (h : List Request)
      → (make_call server client codec (remove tmdb_id) h).0 ≡ ok (removed movie)
      → IsDeleted movie (make_call server client codec (remove tmdb_id) h).1
  unfolding make_call
  radarr_removed tmdb_id movie h e =
      let (found, q, k) = succeeded _ _ h (removed movie) e in
      let h₁ = (find_movie server client codec tmdb_id h).1 in
      subst (λ x. IsDeleted movie x.1) (sym k)
        (by_test found (found.id == 0) h₁ (ap (λ x. x.0) (sym k) ∙ e))
    where
      by_test :
          (found : Movie) (b : Bool) (h₁ : List Request)
          → ((if b then lift (ok (not_tracked found)) else remove_tracked server client codec found)
              h₁).0
            ≡ ok (removed movie)
          → IsDeleted movie
              ((if b
                  then lift (ok (not_tracked found))
                  else remove_tracked server client codec found)
                h₁).1
      by_test found true h₁ g = absurd (not_removed found movie (ok-injective (lifted _ _ g)))
      by_test found false h₁ g = remove_tracked_deletes found movie h₁ g
