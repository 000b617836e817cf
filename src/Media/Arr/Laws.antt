-- ===== src/Media/Arr/Laws.antt =====
-- Which requests the shared helpers send, and when a deletion has succeeded.
use dookie.Base.{ℕ, String, ◌≡◌, refl, true, List, [], ◌∷◌, arith}
use dookie.Base.Result.{Result, ok, err}
use dookie.Media.{BundleError, bad_status, Request, Response, Server, ◌>>=◌, guard, is_success}
use dookie.Media.Sends.{Sends, Sends-send, Sends-lift, Sends-guard, Sends-bind}
use dookie.Media.Arr.{Quality, ArrCodec, get_json, post_json, arr_delete, add_target}
use dookie.Media.Client.{BundleClient, get_request, post_request, delete_request}

-- The client's GET request for some path.
abbrev pub IsGet : Server → BundleClient → Request → Type 0
IsGet server client r = (url : String) × (r ≡ get_request server client url)

module _ (server : Server) (client : BundleClient) (P : Request → Type 0) where
  pub get_json-Sends :
      {T : Type 0} (parse : List ℕ → Result BundleError T) (url : String)
      → ((r : Request) → IsGet server client r → P r)
      → Sends P (get_json server client parse url)
  unfolding get_json
  get_json-Sends parse url g =
      Sends-bind P _ _ (Sends-send P server (get_request server client url) (g _ (url, refl)))
        (λ response. Sends-bind P _ _ (Sends-lift P _) (λ body. Sends-lift P _))

  pub post_json-Sends :
      {T : Type 0} (parse : List ℕ → Result BundleError T) (url json : String)
      → P (post_request server client url json)
      → Sends P (post_json server client parse url json)
  unfolding post_json
  post_json-Sends parse url json p =
      Sends-bind P _ _ (Sends-send P server (post_request server client url json) p)
        (λ response. Sends-bind P _ _ (Sends-lift P _) (λ body. Sends-lift P _))

  pub arr_delete-Sends :
      (url : String) → P (delete_request server client url) → Sends P (arr_delete server client url)
  unfolding arr_delete
  arr_delete-Sends url p =
      Sends-bind P _ _ (Sends-send P server (delete_request server client url) p)
        (λ response. Sends-guard P _ _)

  pub add_target-Sends :
      (codec : ArrCodec) (quality : Quality)
      → ((r : Request) → IsGet server client r → P r)
      → Sends P (add_target server client codec quality)
  unfolding add_target
  add_target-Sends codec quality g =
      Sends-bind P _ _ (get_json-Sends codec.profiles _ g) (λ profiles.
        Sends-bind P _ _ (get_json-Sends codec.folders _ g) (λ folders.
          Sends-bind P _ _ (Sends-lift P _)
            (λ profile. Sends-bind P _ _ (Sends-lift P _) (λ folder. Sends-lift P _))))

-- A deletion that returns `Ok` was its last request, and was answered with a success.
pub deleted :
    (server : Server) (client : BundleClient) (url : String) (h : List Request)
    → (arr_delete server client url h).0 ≡ ok tt
    → ((arr_delete server client url h).1 ≡ delete_request server client url ∷ h)
      × (response : Response) × (server h (delete_request server client url) ≡ ok response)
      × (is_success response.status ≡ true)
unfolding arr_delete ◌>>=◌
deleted server client url h e = cases (server h request) refl e
  where
    request : Request
    request = delete_request server client url

    cases :
        (r : Result BundleError Response)
        → server h request ≡ r
        → (((λ (x : List Request). (r, request ∷ h)) >>= λ response.
              guard (is_success response.status) (bad_status url response.status []))
            h).0
          ≡ ok tt
        → ((((λ (x : List Request). (r, request ∷ h)) >>= λ response.
                guard (is_success response.status) (bad_status url response.status []))
              h).1
            ≡ request ∷ h)
          × (response : Response) × (server h request ≡ ok response)
          × (is_success response.status ≡ true)
    cases (ok response) q g = (ground arith, response, q, ground arith)
    cases (err _) q g = absurd (ground arith)
