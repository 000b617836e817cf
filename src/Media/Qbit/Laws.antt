-- ===== src/Media/Qbit/Laws.antt =====
-- Which requests a call to qBittorrent sends.
use dookie.Base.{
  ℕ, String, ◌<>◌, ◌≡◌, refl, sym, ap, ◌∙◌, ◌⊎◌, inl, inr, Bool, true, false, ◌&&◌, Option, none,
  some, Bool-cases, List, arith, if◌then◌else◌,
}
use dookie.Base.Result.{Result, ok, err, ok-injective}
use dookie.Media.{BundleError, bad_status, Request, Response, Server, is_success}
use dookie.Media.Client.{BundleClient, set_cookie, get_request, post_request}
use dookie.Media.Qbit.{
  TorrentInfo, QbitInput, list_active, delete_torrent, Qbit, login_body, logged_in, login,
  make_call,
}
use dookie.Media.Sends.{
  Adds, Sends, Sends-send, Sends-lift, Sends-guard, Sends-bind, Sends-known, succeeded, lifted,
  answered,
}

logged_in_ok :
    (qbit : Qbit) (status : ℕ) (body : List ℕ) (cookie : Option String) (client : BundleClient)
    → logged_in qbit status body cookie ≡ ok client
    → (c : String) × (cookie ≡ some c)
      × (is_success status ≡ true)
      × (client ≡ set_cookie c qbit.client)
unfolding logged_in
logged_in_ok qbit status body none client e = elim (Bool-cases (is_success status)) [
  | inl s ↦ absurd (ground (arith, s))
  | inr s ↦ absurd (ground (arith, s))
]
logged_in_ok qbit status body (some c) client e = elim (Bool-cases (is_success status)) [
  | inl s ↦ (c, refl, s, sym (ok-injective (by_success (is_success status) s e)))
  | inr s ↦ absurd (ground (arith, s))
]
  where
    by_success :
        (b : Bool)
        → b ≡ true
        → (if b && true
            then ok (set_cookie c qbit.client)
            else err (bad_status "/api/v2/auth/login" status body))
          ≡ ok client
        → ◌≡◌ {A = Result BundleError BundleClient} (ok (set_cookie c qbit.client)) (ok client)
    by_success true s e = e
    by_success false s e = absurd (ground arith)

module _ {F64 : Type 0} (server : Server)
    (parse : List ℕ → Result BundleError (List (TorrentInfo F64))) (qbit : Qbit) where
  abbrev pub login_request : Request
  login_request = post_request server qbit.client "/api/v2/auth/login" (login_body qbit)

  -- A login was answered with a success and this cookie.
  abbrev pub IsLoggedIn : String → Type 0
  IsLoggedIn cookie =
      (before : List Request) × (response : Response) × (server before login_request ≡ ok response)
      × (is_success response.status ≡ true)
      × (response.cookie ≡ some cookie)

  abbrev pub session_request : QbitInput → String → Request
  session_request list_active cookie =
      get_request server (set_cookie cookie qbit.client) "/api/v2/torrents/info?filter=active"
  session_request (delete_torrent hash) cookie =
      post_request server (set_cookie cookie qbit.client) "/api/v2/torrents/delete"
        ("hashes=" <> hash <> "&deleteFiles=true")

  abbrev pub IsAllowed : QbitInput → Request → Type 0
  IsAllowed input r =
      (r ≡ login_request)
      ⊎ ((cookie : String) × IsLoggedIn cookie × (r ≡ session_request input cookie))

  login-Sends : (input : QbitInput) → Sends (IsAllowed input) (login server parse qbit)
  unfolding login
  login-Sends input =
      Sends-bind _ _ _ (Sends-send _ server login_request (inl refl))
        (λ response. Sends-bind _ _ _ (Sends-lift _ _) (λ body. Sends-lift _ _))

  abbrev IsSession : BundleClient → Type 0
  IsSession client =
      (cookie : String) × IsLoggedIn cookie × (client ≡ set_cookie cookie qbit.client)

  login_gives :
      (h : List Request) (client : BundleClient)
      → (login server parse qbit h).0 ≡ ok client
      → IsSession client
  unfolding login
  login_gives h client e =
      let (response, q₁, k₁) = succeeded _ _ h client e in
      let (body, q₂, k₂) = succeeded _ _ _ client (ap (λ x. x.0) (sym k₁) ∙ e) in
      let (cookie, c, success, g) =
        logged_in_ok qbit response.status body response.cookie client
          (lifted _ _ (ap (λ x. x.0) (sym (k₁ ∙ k₂)) ∙ e)) in
      (cookie, (h, response, answered server login_request h q₁, success, c), g)

  -- A call to qBittorrent sends, whatever is answered, only its login and, with the cookie of a login
  -- that was answered with a success, the request that its input stands for.
  pub qbit_requests :
      (input : QbitInput) (h : List Request)
      → Adds (IsAllowed input) h (make_call server parse qbit input h).1
  unfolding make_call
  qbit_requests list_active h =
      (Sends-known _ IsSession _ _ (login-Sends list_active) login_gives (λ client s.
          Sends-bind _ _ _
            (Sends-send _ server _ (
              inr (
                s.0,
                s.1,
                ap (λ x. get_request server x "/api/v2/torrents/info?filter=active") s.2,
              )))
            (λ response. Sends-bind _ _ _ (Sends-lift _ _) (λ body.
              Sends-bind _ _ _ (Sends-guard _ _ _)
                (λ _. Sends-bind _ _ _ (Sends-lift _ _) (λ found. Sends-lift _ _)))))).at
        h
  qbit_requests (delete_torrent hash) h =
      (Sends-known _ IsSession _ _ (login-Sends (delete_torrent hash)) login_gives (λ client s.
          Sends-bind _ _ _
            (Sends-send _ server _ (
              inr (
                s.0,
                s.1,
                ap
                    (λ x.
                      post_request server x "/api/v2/torrents/delete"
                        ("hashes=" <> hash <> "&deleteFiles=true"))
                    s.2,
              )))
            (λ response.
              Sends-bind _ _ _ (Sends-lift _ _)
                (λ body. Sends-bind _ _ _ (Sends-guard _ _ _) (λ _. Sends-lift _ _))))).at
        h
