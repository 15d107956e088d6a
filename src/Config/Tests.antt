-- ===== src/Config/Tests.antt =====
-- Runs of the loader, and its theorems at settings files.
use vemory.Prelude.{◌≡◌, refl, codes, some, List, [], ◌∷◌, Bytes}
use vemory.Config.{
  Config, default_config, load_config, load_lines, get_lines, start, load_line, statement,
  is_ignored, enter_section, key_value, apply_key, apply_server, apply_storage, is_known_section,
  is_warned,
}
use vemory.Request.{skip_spaces, c_str, read_digits}
use vemory.Decimal.{decimal, decimal_at}
use vemory.Config.Outcome.{ok, err}
use vemory.Config.Text.{
  trim, trim_end, to_lower, parse_uint, strtoull, wrapped_digits, wrapped, find_eq, last_byte,
  unbracket,
}
use vemory.Config.Laws.{IsValid, load_config-IsValid}
use vemory.Config.Ignored.{FirstBad, load_lines-FirstBad}

abbrev settings : Bytes
settings = codes "; cache\n\n[Server]\nport = 7000\n[other]\nx = 1"

abbrev loaded : Config
loaded = record default_config { port = 7000; warnings = codes "unknown section [other]" ∷ [] }

abbrev settings_lines : List Bytes
settings_lines = get_lines settings

load_settings : load_config (codes "v.ini") (some settings) ≡ ok loaded
unfolding load_config load_lines get_lines load_line is_ignored trim trim_end skip_spaces statement
    last_byte enter_section to_lower unbracket is_known_section find_eq key_value apply_key
    apply_server parse_uint strtoull wrapped wrapped_digits c_str read_digits is_warned
load_settings = refl

load_config-IsValid_example : IsValid loaded
load_config-IsValid_example = load_config-IsValid (codes "v.ini") settings loaded load_settings

abbrev bad_lines : List Bytes
bad_lines = codes "[server]" ∷ codes "port = 0" ∷ []

abbrev bad_message : Bytes
bad_message = codes "line 2: invalid server.port: 0"

load_bad_lines : load_lines 1 start bad_lines ≡ err bad_message
unfolding load_lines load_line is_ignored trim trim_end skip_spaces statement last_byte
    enter_section to_lower unbracket is_known_section find_eq key_value apply_key apply_server
    parse_uint strtoull wrapped wrapped_digits c_str read_digits decimal decimal_at
load_bad_lines = refl

load_lines-FirstBad_example : FirstBad 1 start bad_lines bad_message
load_lines-FirstBad_example = load_lines-FirstBad 1 start bad_lines bad_message load_bad_lines

-- A negative size wraps around, and is accepted.
negative_size :
    load_lines 1 start (codes "[storage]" ∷ codes "kv_reserve = -1" ∷ [])
    ≡ ok (record start {
      cfg = record default_config { kv_reserve = 18446744073709551615 };
      section = codes "storage";
    })
unfolding load_lines load_line is_ignored trim trim_end skip_spaces statement last_byte
    enter_section to_lower unbracket is_known_section find_eq key_value apply_key apply_storage
    parse_uint strtoull wrapped wrapped_digits c_str read_digits
negative_size = refl
