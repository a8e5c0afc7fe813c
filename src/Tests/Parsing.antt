-- ===== src/Tests/Parsing.antt =====
-- Runs of Config, Ipv4 and RetryPolicy.
use jlu_drcom.Base.{
  ◌-◌, inl, ◌≡◌, ◌↔◌, refl, true, false, Bytes, [], ◌∷◌, none, some, length, codes, arith, success,
}
use jlu_drcom.Config.{Config, Globals}
use jlu_drcom.Config.Parse.{config_parse, fgets_lines, buffer_size}
use jlu_drcom.Config.Parse.Laws.{config_parse-Fits}
use jlu_drcom.Config.Parse.Settings.{SettingsOf}
use jlu_drcom.Config.Parse.Settings.Final.{config_parse-SettingsOf}
use jlu_drcom.Config.Reader.{read_d_config}
use jlu_drcom.Config.Reader.Bounds.{GlobalsFit}
use jlu_drcom.Config.Text.{parse_key_value, pair, trim_in_place}
use jlu_drcom.Ctype.{is_space, is_xdigit}
use jlu_drcom.Config.Text.RoundTrip.{parse_key_value-setting_line, setting_line, IsKey}
use jlu_drcom.Config.Values.{collect_hex_digits, skip_hex_prefix, parse_mac_string}
use jlu_drcom.Config.Values.Hex.{
  collect_hex_digits_iff, only_xdigits, parse_mac_string-show_hex, show_hex, show_hex_separated,
}
use jlu_drcom.Ipv4.{parse_ipv4_address}
use jlu_drcom.Ipv4.Grammar.{IsDotted, parse_ipv4_address-iff-IsDotted}
use jlu_drcom.Ipv4.RoundTrip.{parse_ipv4_address-show_ipv4, show_ipv4}
use jlu_drcom.RetryPolicy.{
  should_reconnect_after_keepalive_failure, login_template_for_attempt, keepalive_extra_packet_kind,
  extra_first, extra_periodic, jlu, standard,
}
use jlu_drcom.Tests.Data.{fresh}

-- An explicit version in front of the profile.
abbrev pub settings : Bytes
settings = codes "AUTH_VERSION='\\x68\\x00'\nprofile='jlu-modern'\nserver = '10.100.61.3'\n"

pub settings_succeed : (config_parse (codes "dhcp") (some settings) fresh).1 ≡ success
unfolding fgets_lines jlu_drcom.Config.Parse.apply_profile_defaults jlu_drcom.Config.Parse.read_line
    jlu_drcom.Config.Parse.read_lines config_parse jlu_drcom.Config.Reader.dhcp_key
    jlu_drcom.Config.Reader.store_dhcp jlu_drcom.Config.Reader.store_known
    jlu_drcom.Config.Reader.dhcp_pair read_d_config jlu_drcom.Config.Reader.store_pppoe
    jlu_drcom.Config.Reader.read_p_config jlu_drcom.Config.Text.trim_end trim_in_place
    jlu_drcom.Config.Text.strip_matching_quotes jlu_drcom.Config.Text.split_at_separator
    jlu_drcom.Config.Text.key_value_of parse_key_value jlu_drcom.Config.Text.equals_ignore_case
    jlu_drcom.Config.Values.copy_checked jlu_drcom.Config.Values.copy_ipv4_checked skip_hex_prefix
    jlu_drcom.Config.Values.hex_digits collect_hex_digits jlu_drcom.Config.Values.hex_value
    jlu_drcom.Config.Values.scan_pairs jlu_drcom.Config.Values.parse_hex_byte_string
    jlu_drcom.Config.Values.parse_two_byte_string parse_mac_string
    jlu_drcom.Config.Values.parse_bool_string jlu_drcom.Config.Values.parse_nonnegative_int_string
    jlu_drcom.Ctype.c_string is_space jlu_drcom.Ctype.is_digit is_xdigit jlu_drcom.Ctype.to_lower
    jlu_drcom.Ctype.skip_spaces jlu_drcom.Ctype.read_decimal jlu_drcom.Ctype.strtoul
    jlu_drcom.Ctype.strtol jlu_drcom.Ipv4.octet jlu_drcom.Ipv4.after_dot jlu_drcom.Ipv4.at_end
    jlu_drcom.Ipv4.octets parse_ipv4_address jlu_drcom.RetryPolicy.profile_defaults_for_name
settings_succeed = refl

-- The explicit version counts, though it stands in front of the profile.
settings_read :
    ((config_parse (codes "dhcp") (some settings) fresh).0.config.auth_version ≡ 0x68 ∷ 0x00 ∷ [])
    × ((config_parse (codes "dhcp") (some settings) fresh).0.config.jlu_mode ≡ true)
unfolding fgets_lines jlu_drcom.Config.Parse.apply_profile_defaults jlu_drcom.Config.Parse.read_line
    jlu_drcom.Config.Parse.read_lines config_parse jlu_drcom.Config.Reader.dhcp_key
    jlu_drcom.Config.Reader.store_dhcp jlu_drcom.Config.Reader.store_known
    jlu_drcom.Config.Reader.dhcp_pair read_d_config jlu_drcom.Config.Reader.store_pppoe
    jlu_drcom.Config.Reader.read_p_config jlu_drcom.Config.Text.trim_end trim_in_place
    jlu_drcom.Config.Text.strip_matching_quotes jlu_drcom.Config.Text.split_at_separator
    jlu_drcom.Config.Text.key_value_of parse_key_value jlu_drcom.Config.Text.equals_ignore_case
    jlu_drcom.Config.Values.copy_checked jlu_drcom.Config.Values.copy_ipv4_checked skip_hex_prefix
    jlu_drcom.Config.Values.hex_digits collect_hex_digits jlu_drcom.Config.Values.hex_value
    jlu_drcom.Config.Values.scan_pairs jlu_drcom.Config.Values.parse_hex_byte_string
    jlu_drcom.Config.Values.parse_two_byte_string parse_mac_string
    jlu_drcom.Config.Values.parse_bool_string jlu_drcom.Config.Values.parse_nonnegative_int_string
    jlu_drcom.Ctype.c_string is_space jlu_drcom.Ctype.is_digit is_xdigit jlu_drcom.Ctype.to_lower
    jlu_drcom.Ctype.skip_spaces jlu_drcom.Ctype.read_decimal jlu_drcom.Ctype.strtoul
    jlu_drcom.Ctype.strtol jlu_drcom.Ipv4.octet jlu_drcom.Ipv4.after_dot jlu_drcom.Ipv4.at_end
    jlu_drcom.Ipv4.octets parse_ipv4_address jlu_drcom.RetryPolicy.profile_defaults_for_name
settings_read = (refl, refl)

config_parse-SettingsOf_example :
    SettingsOf
      (fgets_lines (buffer_size - 1) settings)
      (config_parse (codes "dhcp") (some settings) fresh).0.config
config_parse-SettingsOf_example = config_parse-SettingsOf settings fresh settings_succeed

config_parse-Fits_example : GlobalsFit (config_parse (codes "pppoe") (some settings) fresh).0
config_parse-Fits_example = config_parse-Fits (codes "pppoe") settings fresh (omega arith)

server_IsKey : IsKey b's' (codes "erver")
unfolding is_space
server_IsKey = record {
  no_spaces = (refl, (refl, (refl, (refl, (refl, (refl, tt))))));
  no_separator = (refl, (refl, (refl, (refl, (refl, (refl, tt))))));
  no_comment = refl;
}

address_trimmed : trim_in_place (codes "10.100.61.3") ≡ codes "10.100.61.3"
unfolding trim_in_place jlu_drcom.Ctype.skip_spaces is_space
address_trimmed = refl

parse_key_value-setting_line_example :
    parse_key_value (setting_line b's' (codes "erver") b'\'' (codes "10.100.61.3"))
    ≡ pair (codes "server") (codes "10.100.61.3")
parse_key_value-setting_line_example =
    parse_key_value-setting_line b's' (codes "erver") b'\'' (codes "10.100.61.3") server_IsKey
      (inl refl) address_trimmed

collect_hex_digits_iff_example : (collect_hex_digits (codes "0xB0:25") 4 ≡ some (codes "B025")) ↔ (
    (codes "B025" ≡ only_xdigits (skip_hex_prefix (codes "0xB0:25"))) × (length (codes "B025") ≡ 4))
collect_hex_digits_iff_example = collect_hex_digits_iff (codes "0xB0:25") 4 (codes "B025")

abbrev card : Bytes
card = 0xb0 ∷ 0x25 ∷ 0xaa ∷ 0x85 ∷ 0x10 ∷ 0x14 ∷ []

colon_separates : is_xdigit b':' ≡ false
unfolding is_xdigit
colon_separates = refl

parse_mac_string-show_hex_example :
    (parse_mac_string (show_hex true card) ≡ some card)
    × (parse_mac_string (b'0' ∷ b'x' ∷ show_hex true card) ≡ some card)
    × (parse_mac_string (show_hex_separated true b':' card) ≡ some card)
parse_mac_string-show_hex_example =
    parse_mac_string-show_hex true b':' card refl (omega arith) colon_separates

parse_ipv4_address-iff-IsDotted_example :
    (parse_ipv4_address (codes "10.100.061.3") ≡ some (10 ∷ 100 ∷ 61 ∷ 3 ∷ []))
    ↔ IsDotted 3 (codes "10.100.061.3") (10 ∷ 100 ∷ 61 ∷ 3 ∷ [])
parse_ipv4_address-iff-IsDotted_example =
    parse_ipv4_address-iff-IsDotted (codes "10.100.061.3") (10 ∷ 100 ∷ 61 ∷ 3 ∷ [])

parse_ipv4_address-show_ipv4_example :
    parse_ipv4_address (show_ipv4 10 100 61 3) ≡ some (10 ∷ 100 ∷ 61 ∷ 3 ∷ [])
parse_ipv4_address-show_ipv4_example =
    parse_ipv4_address-show_ipv4 10 100 61 3 (omega arith) (omega arith) (omega arith) (omega arith)

-- An octet above 255 and a missing one.
bad_addresses :
    (parse_ipv4_address (codes "10.256.0.1") ≡ none) × (parse_ipv4_address (codes "10.1.1") ≡ none)
unfolding parse_ipv4_address jlu_drcom.Ctype.is_digit jlu_drcom.Ctype.strtoul
    jlu_drcom.Ctype.read_decimal
bad_addresses = (refl, refl)
