-- ===== src/Chat/Util/Names.antt =====
-- Room keys, and what the two sanitizers accept.
use livechat_server.Base.{
  ℕ, ◌≤◌, ◌≡◌, refl, Bool, true, false, ◌↔◌, [], ◌∷◌, Text, none, arith, all, is_nil, ◌∙◌,
}
use livechat_server.Strings.{Unicode, trim_space, to_lower, byte_len}
use livechat_server.Strings.Trim.{
  trim_space_idem, trim_space_of_bare, begins-to_lower, ends-to_lower, begins-trim_space,
  ends-trim_space, to_lower_idem,
}
use livechat_server.Chat.Util.{
  ok, first_bad, normalize_room_key, name_char, room_char, sanitize_room_name, sanitize_user_name,
}

all_of_first_bad : (p : ℕ → Bool) (s : Text) → first_bad p s ≡ none → all p s ≡ true
unfolding first_bad all
all_of_first_bad p [] h = refl
all_of_first_bad p (c ∷ s) h = ground (arith, all_of_first_bad p s)

first_bad_of_all : (p : ℕ → Bool) (s : Text) → all p s ≡ true → first_bad p s ≡ none
unfolding first_bad all
first_bad_of_all p [] h = refl
first_bad_of_all p (c ∷ s) h = ground (arith, first_bad_of_all p s)

module _ ⦃u : Unicode⦄ where
  -- A key is its own key.
  pub normalize_room_key_idem :
      (s : Text) → normalize_room_key (normalize_room_key s) ≡ normalize_room_key s
  unfolding normalize_room_key
  normalize_room_key_idem s =
      rw
        (trim_space_of_bare (to_lower (trim_space s))
          (begins-to_lower (trim_space s) ∙ begins-trim_space s)
          (ends-to_lower (trim_space s) ∙ ends-trim_space s))
        (to_lower_idem (trim_space s))

  -- What the rules for a room's name ask of a text.
  pub record IsRoomName (v : Text) : Type 0 where
    pub trimmed : trim_space v ≡ v
    pub filled : is_nil v ≡ false
    pub short : byte_len v ≤ 32
    pub chars : all room_char v ≡ true

  pub record IsUserName (v : Text) : Type 0 where
    pub trimmed : trim_space v ≡ v
    pub long : 3 ≤ byte_len v
    pub short : byte_len v ≤ 24
    pub chars : all name_char v ≡ true

  sanitize_room_name_sound :
      (name v : Text) → sanitize_room_name name ≡ ok v → (v ≡ trim_space name) × IsRoomName v
  unfolding sanitize_room_name
  sanitize_room_name_sound name v h =
      ground (arith, trim_space_idem name, all_of_first_bad room_char (trim_space name))

  sanitize_room_name_complete :
      (name v : Text) → v ≡ trim_space name → IsRoomName v → sanitize_room_name name ≡ ok v
  unfolding sanitize_room_name
  sanitize_room_name_complete name v e r =
      ground (arith, first_bad_of_all room_char (trim_space name))

  -- The sanitizer accepts exactly the names whose trimmed form obeys the rules, and returns that
  -- form.
  pub sanitize_room_name_iff :
      (name v : Text) → (sanitize_room_name name ≡ ok v) ↔ ((v ≡ trim_space name) × IsRoomName v)
  sanitize_room_name_iff name v =
      (sanitize_room_name_sound name v, λ h. sanitize_room_name_complete name v h.0 h.1)

  sanitize_user_name_sound :
      (name v : Text) → sanitize_user_name name ≡ ok v → (v ≡ trim_space name) × IsUserName v
  unfolding sanitize_user_name
  sanitize_user_name_sound name v h =
      ground (arith, trim_space_idem name, all_of_first_bad name_char (trim_space name))

  sanitize_user_name_complete :
      (name v : Text) → v ≡ trim_space name → IsUserName v → sanitize_user_name name ≡ ok v
  unfolding sanitize_user_name
  sanitize_user_name_complete name v e r =
      ground (arith, first_bad_of_all name_char (trim_space name))

  -- The sanitizer returns a name exactly if it is the trimmed input and has 3 to 24 bytes in UTF-8, each
  -- character a letter, a digit, '-' or '_'.
  pub sanitize_user_name_iff :
      (name v : Text) → (sanitize_user_name name ≡ ok v) ↔ ((v ≡ trim_space name) × IsUserName v)
  sanitize_user_name_iff name v =
      (sanitize_user_name_sound name v, λ h. sanitize_user_name_complete name v h.0 h.1)
