-- ===== src/Http/Uploads.antt =====
-- internal/http/handlers/uploads.go.
use livechat_server.Base.{
  ℕ, ◌+◌, ◌-◌, ◌*◌, ◌%◌, ◌^◌, ◌≡◌, refl, false, not, ◌||◌, [], ◌∷◌, ◌++◌, Text, codes, Option, none,
  some, is_nil, if◌then◌else◌, ◌==◌, ==_iff, ltb, ℤ, pos, negsuc, contains, arith, Bool-cases, inl,
  inr,
}
use livechat_server.Strings.{Unicode, to_lower}
use livechat_server.Store.Models.{Uuid}
use livechat_server.Http.Types.{
  Response, user_from_context, Packages, Handler, Payload, Upload, respond, respond_error,
}
use livechat_server.Http.Users.{with_user}

pub record UploadsHandler : Type 0 where
  pub upload_dir : Text
  pub max_upload_mb : ℤ

-- The int64 with the bits of an integer.
abbrev pub to_int64 : ℕ → ℤ
to_int64 n = let r = n % 2 ^ 64 in if ltb r (2 ^ 63) then pos r else negsuc (2 ^ 64 - r - 1)

-- `h.MaxUploadMB * 1024 * 1024`, which wraps around.
unfoldable pub max_bytes : ℤ → ℤ
max_bytes (pos n) = to_int64 (n * 2 ^ 20)
max_bytes (negsuc n) = to_int64 (2 ^ 64 - ((n + 1) * 2 ^ 20) % 2 ^ 64)

-- What stands behind the last slash, and from the last dot on: `filepath.Ext`.
unfoldable pub last_part : Text → Text
last_part [] = []
last_part (c ∷ s) =
    let rest = last_part s in if contains b'/' s then rest else if c == b'/' then s else c ∷ s

unfoldable pub from_dot : Text → Text
from_dot [] = []
from_dot (c ∷ s) =
    let rest = from_dot s in if contains b'.' s then rest else if c == b'.' then c ∷ s else []

abbrev pub file_ext : Text → Text
file_ext name = from_dot (last_part name)

module _ ⦃u : Unicode⦄ (p : Packages) (h : UploadsHandler) where
  -- The name under which a file is kept.
  unfoldable pub kept_name : Uuid → Text → Text
  kept_name id filename =
      let ext = file_ext filename in
      p.uuid_string id ++ to_lower (if is_nil ext then codes ".bin" else ext)

  -- Upload behind FormFile: the file that is made in the directory, if any, and the response.
  unfoldable pub save : Upload → Text → Option Text × Response
  save up filename =
      let kept = kept_name up.id filename in
      if not up.can_create
      then (none, respond_error 500 (codes "failed to save file"))
      else if not up.can_write
      then (some kept, respond_error 500 (codes "failed to write file"))
      else (some kept, respond 201 (Payload.url (codes "/uploads/" ++ kept)))

  unfoldable pub read_form : Upload → Option Text × Response
  read_form up =
      if not up.has_dir
      then (none, respond_error 500 (codes "failed to create upload dir"))
      else elim (up.form (max_bytes h.max_upload_mb)) [
        | none ↦ (none, respond_error 400 (codes "invalid form"))
        | some none ↦ (none, respond_error 400 (codes "file missing"))
        | some (some filename) ↦ save up filename
      ]

  unfoldable pub upload : Handler
  upload env r t = with_user (user_from_context r) t (λ user. (t, (read_form env.upload).1))

contains-last_part : (s : Text) → contains b'/' (last_part s) ≡ false
unfolding contains last_part
contains-last_part [] = refl
contains-last_part (c ∷ s) = ground (arith, contains-last_part s)

contains-from_dot : (d : ℕ) (s : Text) → contains d s ≡ false → contains d (from_dot s) ≡ false
unfolding contains from_dot
contains-from_dot d [] h = refl
contains-from_dot d (c ∷ s) h = ground (arith, contains-from_dot d s)

contains-append : (d : ℕ) (s t : Text) → contains d (s ++ t) ≡ (contains d s || contains d t)
unfolding contains
contains-append d [] t = refl
contains-append d (c ∷ s) t = ground (arith, contains-append d s t)

module _ ⦃u : Unicode⦄ (lower_slash : (c : ℕ) → u.lower c ≡ b'/' → c ≡ b'/') where
  contains-to_lower : (s : Text) → contains b'/' s ≡ false → contains b'/' (to_lower s) ≡ false
  unfolding contains to_lower
  contains-to_lower [] h = refl
  contains-to_lower (c ∷ s) h =
      ground (arith, contains-to_lower s, lower_slash c, ==_iff b'/' c, ==_iff b'/' (u.lower c))

-- Where a UUID is printed with no slash and no other character has the slash as its lower case, the
-- name under which a file of any name is kept holds no slash: it is made in the upload directory.
pub kept_name_in_dir :
    ⦃u : Unicode⦄
    → (p : Packages) (h : UploadsHandler) (id : Uuid) (filename : Text)
    → ((c : ℕ) → u.lower c ≡ b'/' → c ≡ b'/')
    → contains b'/' (p.uuid_string id) ≡ false
    → contains b'/' (kept_name p h id filename) ≡ false
unfolding kept_name
kept_name_in_dir p h id filename lower_slash clean =
    elim (Bool-cases (is_nil (file_ext filename))) [
      | inl e ↦ rw e (
          ground (
            arith,
            contains-append b'/' (p.uuid_string id) (to_lower (codes ".bin")),
            contains-to_lower lower_slash (codes ".bin") bin_clean,
          ))
      | inr e ↦ rw e (
          ground (
            arith,
            contains-append b'/' (p.uuid_string id) (to_lower (file_ext filename)),
            contains-to_lower lower_slash (file_ext filename) ext_clean,
          ))
    ]
  where
    bin_clean : contains b'/' (codes ".bin") ≡ false
    bin_clean = unfold contains in refl

    ext_clean : contains b'/' (file_ext filename) ≡ false
    ext_clean = contains-from_dot b'/' (last_part filename) (contains-last_part filename)
