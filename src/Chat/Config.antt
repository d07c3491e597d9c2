-- ===== src/Chat/Config.antt =====
-- internal/chat/config.go. A duration is its number of nanoseconds.
use livechat_server.Base.{
  ◌*◌, ◌^◌, ◌≡◌, refl, false, Text, codes, ℤ, pos, is_nonpos, is_nil, if◌then◌else◌, arith,
}

pub record Config : Type 0 where
  pub idle_timeout : ℤ
  pub history_limit : ℤ
  pub max_message_bytes : ℤ
  pub lobby_name : Text
  pub system_name : Text
  pub send_buffer_size : ℤ

abbrev pub default_config : Config
default_config = record {
  idle_timeout = pos (2 * 60 * 10 ^ 9);
  history_limit = pos 50;
  max_message_bytes = pos 4096;
  lobby_name = codes "lobby";
  system_name = codes "livechat";
  send_buffer_size = pos 64;
}

abbrev or_default_int : ℤ → ℤ → ℤ
or_default_int n d = if is_nonpos n then d else n

abbrev or_default_text : Text → Text → Text
or_default_text s d = if is_nil s then d else s

unfoldable pub with_defaults : Config → Config
with_defaults c = record {
  idle_timeout = or_default_int c.idle_timeout default_config.idle_timeout;
  history_limit = or_default_int c.history_limit default_config.history_limit;
  max_message_bytes = or_default_int c.max_message_bytes default_config.max_message_bytes;
  lobby_name = or_default_text c.lobby_name default_config.lobby_name;
  system_name = or_default_text c.system_name default_config.system_name;
  send_buffer_size = or_default_int c.send_buffer_size default_config.send_buffer_size;
}

-- Every number is positive and no text is empty.
pub record IsUsable (c : Config) : Type 0 where
  pub idle_pos : is_nonpos c.idle_timeout ≡ false
  pub history_pos : is_nonpos c.history_limit ≡ false
  pub max_pos : is_nonpos c.max_message_bytes ≡ false
  pub lobby_set : is_nil c.lobby_name ≡ false
  pub system_set : is_nil c.system_name ≡ false
  pub buffer_pos : is_nonpos c.send_buffer_size ≡ false

or_default_int_usable : (n d : ℤ) → is_nonpos d ≡ false → is_nonpos (or_default_int n d) ≡ false
or_default_int_usable n d h = ground arith

or_default_text_usable : (s d : Text) → is_nil d ≡ false → is_nil (or_default_text s d) ≡ false
or_default_text_usable s d h = ground arith

-- Filling in the defaults makes every configuration usable.
pub with_defaults-IsUsable : (c : Config) → IsUsable (with_defaults c)
unfolding with_defaults
with_defaults-IsUsable c = record {
  idle_pos = or_default_int_usable c.idle_timeout _ refl;
  history_pos = or_default_int_usable c.history_limit _ refl;
  max_pos = or_default_int_usable c.max_message_bytes _ refl;
  lobby_set = or_default_text_usable c.lobby_name _ refl;
  system_set = or_default_text_usable c.system_name _ refl;
  buffer_pos = or_default_int_usable c.send_buffer_size _ refl;
}

-- A usable configuration is left as it is.
pub with_defaults_of_IsUsable : (c : Config) → IsUsable c → with_defaults c ≡ c
unfolding with_defaults
with_defaults_of_IsUsable c v = ground arith
