-- ===== src/Http/Types.antt =====
-- Requests and responses, internal/http/handlers/helpers.go, and what the handlers take from outside:
-- what comes with a request, and the packages that the repository does not hold.
use livechat_server.Base.{
  ℕ, ◌+◌, Bool, List, [], Text, Option, none, some, is_nil, if◌then◌else◌, StrMap, lookup, ℤ, ◌*◌,
}
use livechat_server.Store.Models.{Uuid, User, Room, Message}
use livechat_server.Store.Queries.{Call}
use livechat_server.Store.Rows.{Tables}

pub record Request : Type 0 where
  pub method : Text
  pub path : Text
  -- r.Header.Get("Authorization")
  pub authorization : Text
  pub query : StrMap Text
  pub body : Text
  -- what chi.URLParam reads
  pub params : StrMap Text
  -- the user in the context
  pub user : Option User

-- `WithUser` and `UserFromContext` of internal/http/middleware/auth.go.
abbrev pub with_user : Request → User → Request
with_user r user = record r { user = some user }

abbrev pub user_from_context : Request → Option User
user_from_context r = r.user

-- What a response encodes: {"error": …}, {"status": …}, {"url": …}, {"token": …, "user": …}, a record,
-- a list of records, or a plain text.
pub data Payload : Type 0 where
  error status url plain : Text → Payload
  session : Text → User → Payload
  user : User → Payload
  users : List User → Payload
  room : Room → Payload
  rooms : List Room → Payload
  messages : List Message → Payload

pub record Response : Type 0 where
  pub code : ℕ
  pub payload : Payload

pub record RegisterRequest : Type 0 where
  pub email : Text
  pub username : Text
  pub password : Text
  pub avatar : Text

pub record LoginRequest : Type 0 where
  pub email : Text
  pub password : Text

pub record CreateRoomRequest : Type 0 where
  pub name : Text
  pub is_private : Bool

-- internal/auth/auth.go: `Claims`. `user_id` and the registered subject are both encoded as "sub", of
-- which the outer field is the one that is written and read.
pub record Claims : Type 0 where
  pub user_id : Text
  pub username : Text
  pub expires_at : ℕ
  pub issued_at : ℕ

-- What jwt.ParseWithClaims answers where it has no error: its claims, if they are of this type, and
-- whether the token is valid.
pub record ParsedToken : Type 0 where
  pub claims : Option Claims
  pub valid : Bool

-- encoding/json at the types of the requests, time.Parse of an RFC 3339 text, package uuid, HS256 of
-- package jwt (with the instant at which a token is looked at), and bcrypt with its salt.
pub record Packages : Type 0 where
  pub decode_register : Text → Option RegisterRequest
  pub decode_login : Text → Option LoginRequest
  pub decode_room : Text → Option CreateRoomRequest
  pub parse_time : Text → Option ℕ
  pub parse_uuid : Text → Option Uuid
  pub uuid_string : Uuid → Text
  pub sign : Claims → Text → Option Text
  pub parse_with_claims : ℕ → Text → Text → Option ParsedToken
  pub hash_password : Text → Text → Option Text
  pub is_password : Text → Text → Bool

-- What the file system and the form give to an upload: whether the directory is there or can be made,
-- the form at a limit in bytes with its file's name, uuid.New, and whether the file can be made and
-- written.
pub record Upload : Type 0 where
  pub has_dir : Bool
  pub form : ℤ → Option (Option Text)
  pub id : Uuid
  pub can_create : Bool
  pub can_write : Bool

-- What comes with a request: the calls of the store in their order, time.Now, and bcrypt's salt.
pub record Env : Type 0 where
  pub call : ℕ → Call
  pub now : ℕ
  pub salt : Text
  pub upload : Upload

abbrev pub Handler : Type 0
Handler = Env → Request → Tables → Tables × Response

abbrev pub respond : ℕ → Payload → Response
respond code payload = record { code = code; payload = payload }

abbrev pub respond_error : ℕ → Text → Response
respond_error code message = respond code (error message)

-- `Get` of the query and URLParam: the empty text for a name that is missing.
abbrev pub get_param : Text → StrMap Text → Text
get_param name m = elim (lookup name m) [ none ↦ [] | some v ↦ v ]

abbrev pub seconds : ℕ → ℕ
seconds n = n * 1000000000

-- A text that is missing or wrong stands for a second from now.
unfoldable pub parse_time_param : Packages → ℕ → Text → ℕ
parse_time_param p now raw =
    if is_nil raw
    then now + seconds 1
    else elim (p.parse_time raw) [ none ↦ now + seconds 1 | some at ↦ at ]
