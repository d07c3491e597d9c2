-- ===== src/Chat/Util.antt =====
-- internal/chat/util.go.
pub mod Names
pub mod Commands
use livechat_server.Base.{
  ℕ, ◌≡◌, Bool, true, false, ◌||◌, List, [], ◌∷◌, ◌++◌, Text, codes, ltb, ◌==◌, if◌then◌else◌,
  Option, none, some, is_nil, ℤ,
}
use livechat_server.Strings.{Unicode, trim_space, trim_slash, to_lower, byte_len, split_space}
use livechat_server.Strings.Decimal.{atoi}

-- The errors that the functions below return.
pub data Error : Type 0 where
  room_empty room_too_long name_too_short name_too_long : Error
  room_bad_char name_bad_char : ℕ → Error

pub data Result {ℓ} (A : Type ℓ) : Type ℓ where
  ok : A → Result A
  err : Error → Result A

-- The first character of a text that fails the test of the loop.
unfoldable pub first_bad : (ℕ → Bool) → Text → Option ℕ
first_bad p [] = none
first_bad p (c ∷ s) = if p c then first_bad p s else some c

module _ ⦃u : Unicode⦄ where
  -- `err.Error()`.
  unfoldable pub error_text : Error → Text
  error_text room_empty = codes "room name cannot be empty"
  error_text room_too_long = codes "room name is too long (max 32 characters)"
  error_text (room_bad_char c) =
      codes "invalid character " ++ (u.quote_rune c ++ codes " in room name")
  error_text name_too_short = codes "name must be at least 3 characters long"
  error_text name_too_long = codes "name is too long (max 24 characters)"
  error_text (name_bad_char c) = codes "invalid character " ++ (u.quote_rune c ++ codes " in name")

  unfoldable pub normalize_room_key : Text → Text
  normalize_room_key name = to_lower (trim_space name)

  abbrev pub name_char : ℕ → Bool
  name_char c = u.is_letter c || u.is_digit c || c == b'-' || c == b'_'

  abbrev pub room_char : ℕ → Bool
  room_char c = name_char c || c == 32

  unfoldable pub sanitize_room_name : Text → Result Text
  sanitize_room_name name =
      let trimmed = trim_space name in
      if is_nil trimmed
      then err room_empty
      else if ltb 32 (byte_len trimmed)
      then err room_too_long
      else elim (first_bad room_char trimmed) [ some c ↦ err (room_bad_char c) | none ↦ ok trimmed ]

  unfoldable pub sanitize_user_name : Text → Result Text
  sanitize_user_name name =
      let trimmed = trim_space name in
      if ltb (byte_len trimmed) 3
      then err name_too_short
      else if ltb 24 (byte_len trimmed)
      then err name_too_long
      else elim (first_bad name_char trimmed) [ some c ↦ err (name_bad_char c) | none ↦ ok trimmed ]

  -- The command and its arguments, from the parts of `SplitN`.
  command_parts : Text × Option Text → Text × Text
  command_parts (cmd, none) = (to_lower cmd, [])
  command_parts (cmd, some args) = (to_lower cmd, trim_space args)

  unfoldable pub parse_command : Text → Text × Text
  unfolding command_parts
  parse_command raw =
      let trimmed = trim_slash (trim_space raw) in
      if is_nil trimmed then ([], []) else command_parts (split_space trimmed)

-- `none` stands for the error of `Atoi`.
unfoldable pub parse_optional_int : Text → ℤ → Option ℤ
parse_optional_int value fallback = if is_nil (trim_space value) then some fallback else atoi value
