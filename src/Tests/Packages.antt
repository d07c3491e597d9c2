-- ===== src/Tests/Packages.antt =====
-- Packages that do what internal/auth and internal/http rely on: a token holds the claims with every
-- number moved behind the white space, and a hash is the password behind a zero.
use livechat_server.Base.{
  ℕ, ◌+◌, ◌-◌, ◌≤◌, ◌≡◌, refl, ap, ◌∙◌, true, false, [], ◌∷◌, ◌++◌, map, Text, Option, none, some,
  codes, text_eq, text_eq_iff, if◌then◌else◌, ltb, lookup, StrMap, arith,
}
use livechat_server.Strings.{is_space, trim_left, trim_right, trim_space}
use livechat_server.Strings.Trim.{trim_right_cons}
use livechat_server.Http.Types.{
  RegisterRequest, LoginRequest, Claims, ParsedToken, Packages, seconds,
}
use livechat_server.Http.Users.Registered.{AreFaithful}

abbrev shift : ℕ → ℕ
shift c = c + 65536

abbrev shift_back : ℕ → ℕ
shift_back c = c - 65536

abbrev pub token_of : Claims → Text
token_of c = shift c.expires_at ∷ map shift c.user_id

abbrev read_token : ℕ → Text → Option Claims
read_token now [] = none
read_token now (c ∷ s) =
    if ltb now (shift_back c)
    then some (record {
      user_id = map shift_back s;
      username = [];
      expires_at = shift_back c;
      issued_at = 0;
    })
    else none

abbrev parsed : Option Claims → Option ParsedToken
parsed none = none
parsed (some c) = some (record { claims = some c; valid = true })

abbrev pub registration : Text → Text → RegisterRequest
registration email username = record {
  email = email;
  username = username;
  password = codes "secret" ++ username;
  avatar = [];
}

abbrev pub credentials : Text → Text → LoginRequest
credentials email password = record { email = email; password = password }

-- Bodies are numbered.
abbrev registrations : StrMap RegisterRequest
registrations =
    (codes "1", registration (codes "ann@x") (codes "ann"))
    ∷ (codes "2", registration (codes "Ann@x") (codes "eve"))
    ∷ []

abbrev logins : StrMap LoginRequest
logins =
    (codes "1", credentials (codes " ann@x") (codes "secretann"))
    ∷ (codes "2", credentials (codes "Ann@x") (codes "secreteve"))
    ∷ []

abbrev pub packages : Packages
packages = record {
  decode_register = λ s. lookup s registrations;
  decode_login = λ s. lookup s logins;
  decode_room = λ s. none;
  parse_time = λ s. none;
  parse_uuid = some;
  uuid_string = λ id. id;
  sign = λ c secret. some (token_of c);
  parse_with_claims = λ now token secret. parsed (read_token now token);
  hash_password = λ salt password. some (0 ∷ password);
  is_password = λ hash password. text_eq hash (0 ∷ password);
}

shift_no_space : (c : ℕ) → is_space (shift c) ≡ false
unfolding is_space
shift_no_space c = ground arith

trim_right-shift : (s : Text) → trim_right is_space (map shift s) ≡ map shift s
unfolding trim_right
trim_right-shift [] = refl
trim_right-shift (c ∷ s) =
    trim_right_cons is_space (shift c) (map shift s) (shift_no_space c)
    ∙ ap (λ r. shift c ∷ r) (trim_right-shift s)

trim_space-shift : (c : ℕ) (s : Text) → trim_space (map shift (c ∷ s)) ≡ map shift (c ∷ s)
unfolding trim_space trim_left
trim_space-shift c s = rw (shift_no_space c) (trim_right-shift (c ∷ s))

back-shift : (c : ℕ) → shift_back (shift c) ≡ c
back-shift c = omega arith

shift_back-shift : (s : Text) → map shift_back (map shift s) ≡ s
shift_back-shift [] = refl
shift_back-shift (c ∷ s) = rw (back-shift c) (ap (λ r. c ∷ r) (shift_back-shift s))

signed_is :
    (c : Claims) (secret token : Text) → packages.sign c secret ≡ some token → token_of c ≡ token
signed_is c secret token e = ground arith

pub hashed_is :
    (salt password hash : Text)
    → packages.hash_password salt password ≡ some hash
    → 0 ∷ password ≡ hash
hashed_is salt password hash e = ground arith

read_back :
    (c : Claims) (now : ℕ)
    → now + seconds 1 ≤ c.expires_at
    → (d : Claims) × (parsed (read_token now (token_of c))
        ≡ some (record { claims = some d; valid = true }))
      × (d.user_id ≡ c.user_id)
read_back c now soon = (
  record {
    user_id = map shift_back (map shift c.user_id);
    username = [];
    expires_at = shift_back (shift c.expires_at);
    issued_at = 0;
  },
  ground arith,
  shift_back-shift c.user_id,
)

pub packages-AreFaithful : AreFaithful packages
packages-AreFaithful = record {
  parse-uuid_string = λ id. refl;
  trim-sign = λ c secret token e.
      rw (← signed_is c secret token e) (trim_space-shift c.expires_at c.user_id);
  sign_filled = λ c secret token e. rw (← signed_is c secret token e) refl;
  parse-sign =
      λ c secret token now e soon. rw (← signed_is c secret token e) (read_back c now soon);
  is_password-hash = λ salt password hash e.
      rw (← hashed_is salt password hash e) ((text_eq_iff (0 ∷ password) (0 ∷ password)).1 refl);
}
