-- ===== src/Http/Router/Files.antt =====
-- All of `NewRouter` of internal/http/router.go: the routes behind the CORS handler, the socket and the
-- files under /uploads/. The CORS handler and the file server are parameters: the former answers a
-- request by itself or lets it pass.
use livechat_server.Base.{
  ◌≡◌, refl, ap, ◌∙◌, Bool, true, false, ◌&&◌, List, [], ◌∷◌, ◌++◌, Text, codes, text_eq, Option,
  none, some, if◌then◌else◌, StrMap, ℤ, pos, All, arith, ==_iff, Bool-cases, Option-cases, inl, inr,
}
use livechat_server.Strings.{Unicode}
use livechat_server.Store.Rows.{Tables}
use livechat_server.Http.Types.{Request, Response, Packages, Env, Payload, Upload, respond}
use livechat_server.Http.Token.{has_prefix}
use livechat_server.Http.Uploads.{UploadsHandler, upload, read_form, save, kept_name, max_bytes}
use livechat_server.Http.Router.{Route, RouterDeps, routes, find_route, serve}

-- `cors.Options`.
pub record CorsOptions : Type 0 where
  pub allowed_origins : List Text
  pub allowed_methods : List Text
  pub allowed_headers : List Text
  pub exposed_headers : List Text
  pub allow_credentials : Bool
  pub max_age : ℤ

unfoldable pub cors_options : List Text → CorsOptions
cors_options origins = record {
  allowed_origins = origins;
  allowed_methods =
      codes "GET" ∷ codes "POST" ∷ codes "PUT" ∷ codes "DELETE" ∷ codes "OPTIONS" ∷ [];
  allowed_headers = codes "Accept" ∷ codes "Authorization" ∷ codes "Content-Type" ∷ [];
  exposed_headers = codes "Link" ∷ [];
  allow_credentials = true;
  max_age = pos 300;
}

-- A response, the request handed to ServeWS, the file server of a directory asked for a path, or what
-- chi and http.StripPrefix answer where nothing is found.
pub data Reply : Type 0 where
  answered : Tables → Response → Reply
  to_socket : Reply
  from_dir : Text → Text → Reply
  missing : Reply

-- A text behind a prefix of it.
unfoldable pub drop_prefix : Text → Text → Text
drop_prefix [] s = s
drop_prefix (d ∷ p) [] = []
drop_prefix (d ∷ p) (c ∷ s) = drop_prefix p s

-- `http.StripPrefix` before a file server.
unfoldable pub strip_prefix : Text → Text → Text → Reply
strip_prefix prefix dir path =
    if has_prefix path prefix then from_dir dir (drop_prefix prefix path) else missing

abbrev is_some : Option (StrMap Text) → Bool
is_some none = false
is_some (some params) = true

module _ ⦃u : Unicode⦄ (p : Packages) (deps : RouterDeps)
    (match : Text → Text → Option (StrMap Text))
    (cors : CorsOptions → Request → Option Response) where
  -- What stands behind the routes of the API.
  unfoldable pub beyond : Request → Reply
  beyond r =
      if is_some (match (codes "/ws") r.path) && text_eq r.method (codes "GET")
      then to_socket
      else if is_some (match (codes "/uploads/*") r.path)
      then strip_prefix (codes "/uploads/") deps.uploads.upload_dir r.path
      else missing

  unfoldable pub new_router : Env → Request → Tables → Reply
  new_router env r t = elim (cors (cors_options deps.cors_origins) r) [
    | some response ↦ answered t response
    | none ↦ elim (serve p deps match env r t) [
      | some (t', response) ↦ answered t' response
      | none ↦ beyond r
    ]
  ]

module _ ⦃u : Unicode⦄ (p : Packages) (deps : RouterDeps)
    (match : Text → Text → Option (StrMap Text)) where
  find_route-none :
      (r : Request) (l : List Route)
      → All (λ x. match x.pattern r.path ≡ none) l
      → find_route p deps match r l ≡ none
  unfolding find_route
  find_route-none r [] h = refl
  find_route-none r (x ∷ l) h = rw (h.0, find_route) (find_route-none r l h.1)

has_prefix-append : (prefix s : Text) → has_prefix (prefix ++ s) prefix ≡ true
unfolding has_prefix
has_prefix-append [] s = refl
has_prefix-append (d ∷ prefix) s = ground (arith, ==_iff d d, has_prefix-append prefix s)

drop_prefix-append : (prefix s : Text) → drop_prefix prefix (prefix ++ s) ≡ s
unfolding drop_prefix
drop_prefix-append [] s = refl
drop_prefix-append (d ∷ prefix) s = drop_prefix-append prefix s

strip-append : (prefix dir s : Text) → strip_prefix prefix dir (prefix ++ s) ≡ from_dir dir s
unfolding strip_prefix
strip-append prefix dir s = rw (has_prefix-append prefix s, drop_prefix-append prefix s) refl

-- The file that was made, where the response has this URL.
abbrev Made : Option Text → Text → Type 0
Made file url = (kept : Text) × (file ≡ some kept) × (url ≡ codes "/uploads/" ++ kept)

module _ ⦃u : Unicode⦄ (p : Packages) (h : UploadsHandler) where
  saved_url :
      (up : Upload) (filename url : Text)
      → (save p h up filename).1 ≡ respond 201 (Payload.url url)
      → Made (save p h up filename).0 url
  unfolding save
  saved_url up filename url e = elim (Bool-cases up.can_create) [
    | inr c ↦ absurd (ground arith)
    | inl c ↦ elim (Bool-cases up.can_write) [
      | inr w ↦ absurd (ground arith)
      | inl w ↦ (kept_name p h up.id filename, ground arith, ground arith)
    ]
  ]

  form_url :
      (up : Upload) (url : Text)
      → (read_form p h up).1 ≡ respond 201 (Payload.url url)
      → Made (read_form p h up).0 url
  unfolding read_form
  form_url up url e = elim (Bool-cases up.has_dir) [
    | inr d ↦ absurd (ground arith)
    | inl d ↦ elim (Option-cases (up.form (max_bytes h.max_upload_mb))) [
      | inl f ↦ absurd (ground arith)
      | inr (none, f) ↦ absurd (ground arith)
      | inr (some filename, f) ↦ rw (d, f, read_form) (saved_url up filename url (ground arith))
    ]
  ]

  upload_url :
      (env : Env) (r : Request) (t : Tables) (url : Text)
      → (upload p h env r t).1 ≡ respond 201 (Payload.url url)
      → Made (read_form p h env.upload).0 url
  unfolding upload
  upload_url env r t url e = elim (Option-cases r.user) [
    | inl n ↦ absurd (ground arith)
    | inr (user, n) ↦ form_url env.upload url (ground arith)
  ]

to_files :
    ⦃u : Unicode⦄
    → (p : Packages) (deps : RouterDeps) (match : Text → Text → Option (StrMap Text))
      (cors : CorsOptions → Request → Option Response) (env : Env) (r : Request) (t : Tables)
      (params : StrMap Text)
    → cors (cors_options deps.cors_origins) r ≡ none
    → All (λ x. match x.pattern r.path ≡ none) routes
    → match (codes "/ws") r.path ≡ none
    → match (codes "/uploads/*") r.path ≡ some params
    → new_router p deps match cors env r t
      ≡ strip_prefix (codes "/uploads/") deps.uploads.upload_dir r.path
unfolding new_router serve beyond
to_files p deps match cors env r t params passes api ws under =
    ground (arith, passes, find_route-none p deps match r routes api, ws, under)

-- What Upload has answered with is the path of the file that it has made: if the CORS handler lets a
-- request for this path pass, and chi finds it under "/uploads/*" but under no route of the API nor
-- "/ws", then the file server of the upload directory is asked for that file.
pub upload_fetched :
    ⦃u : Unicode⦄
    → (p : Packages) (deps : RouterDeps) (match : Text → Text → Option (StrMap Text))
      (cors : CorsOptions → Request → Option Response) (env env' : Env) (r r' : Request)
      (t t' : Tables) (params : StrMap Text)
    → (upload p deps.uploads env r t).1 ≡ respond 201 (Payload.url r'.path)
    → cors (cors_options deps.cors_origins) r' ≡ none
    → All (λ x. match x.pattern r'.path ≡ none) routes
    → match (codes "/ws") r'.path ≡ none
    → match (codes "/uploads/*") r'.path ≡ some params
    → (kept : Text) × ((read_form p deps.uploads env.upload).0 ≡ some kept)
      × (new_router p deps match cors env' r' t' ≡ from_dir deps.uploads.upload_dir kept)
upload_fetched p deps match cors env env' r r' t t' params e passes api ws under =
    let (kept, made, path) = upload_url p deps.uploads env r t r'.path e in
    (
      kept,
      made,
      to_files p deps match cors env' r' t' params passes api ws under
          ∙ (ap (strip_prefix (codes "/uploads/") deps.uploads.upload_dir) path
              ∙ strip-append (codes "/uploads/") deps.uploads.upload_dir kept),
    )
