-- ===== src/Config/Reader.antt =====
-- drcom/src/configparse.c: `read_d_config` and `read_p_config`, one line of the file each. The
-- ladder of `strcmp` on the key is a function into the recognised keys, and its branches are the
-- clauses of a second one. Debug output is left out, and `strdup` is taken to succeed.
pub mod Bounds
use jlu_drcom.Base.{
  ℕ, Bool, true, false, Bytes, Option, none, some, equal, codes, Status, success, failure,
  if◌then◌else◌,
}
use jlu_drcom.Config.{Config, Explicit, Globals, username_size, text_size}
use jlu_drcom.Config.Text.{KeyValue, blank, malformed, pair, parse_key_value}
use jlu_drcom.Config.Values.{
  copy_checked, copy_ipv4_checked, parse_hex_byte_string, parse_two_byte_string, parse_mac_string,
  parse_bool_string, parse_nonnegative_int_string,
}

pub data DhcpKey : Type 0 where
  profile server username password control_check_status adapter_num host_ip ip_dog : DhcpKey
  host_name primary_dns secondary_dns dhcp_server auth_version mac host_os : DhcpKey
  keep_alive_version ror_version keepalive1_mod jlu_mode startup_delay_seconds : DhcpKey
  bind_ip log eternal : DhcpKey

-- The conditions of the ladder in `read_d_config`.
unfoldable pub dhcp_key : Bytes → Option DhcpKey
unfolding equal
dhcp_key key =
    if equal key (codes "profile")
    then some profile
    else if equal key (codes "server")
    then some server
    else if equal key (codes "username")
    then some username
    else if equal key (codes "password")
    then some password
    else if equal key (codes "CONTROLCHECKSTATUS")
    then some control_check_status
    else if equal key (codes "ADAPTERNUM")
    then some adapter_num
    else if equal key (codes "host_ip")
    then some host_ip
    else if equal key (codes "IPDOG")
    then some ip_dog
    else if equal key (codes "host_name")
    then some host_name
    else if equal key (codes "PRIMARY_DNS")
    then some primary_dns
    else if equal key (codes "SECONDARY_DNS")
    then some secondary_dns
    else if equal key (codes "dhcp_server")
    then some dhcp_server
    else if equal key (codes "AUTH_VERSION")
    then some auth_version
    else if equal key (codes "mac")
    then some mac
    else if equal key (codes "host_os")
    then some host_os
    else if equal key (codes "KEEP_ALIVE_VERSION")
    then some keep_alive_version
    else if equal key (codes "ror_version")
    then some ror_version
    else if equal key (codes "keepalive1_mod")
    then some keepalive1_mod
    else if equal key (codes "jlu_mode")
    then some jlu_mode
    else if equal key (codes "startup_delay_seconds")
    then some startup_delay_seconds
    else if equal key (codes "bind_ip")
    then some bind_ip
    else if equal key (codes "log")
    then some log
    else if equal key (codes "eternal")
    then some eternal
    else none

-- A field gets the parsed value, or the line fails and nothing changes.
abbrev store : {A : Type 0} → Globals → (A → Globals) → Option A → Globals × Status
store g put none = (g, failure)
store g put (some value) = (put value, success)

-- A text field gets what the copy left in it, whatever the copy returned.
abbrev store_text : (Bytes → Globals) → Bytes × Status → Globals × Status
store_text put copied = (put copied.0, copied.1)

abbrev with_config : Globals → Config → Globals
with_config g c = record g { config = c }

-- The branches of `read_d_config`.
unfoldable pub store_dhcp : Globals → DhcpKey → Bytes → Globals × Status
store_dhcp g profile value =
    store_text (λ t. with_config g (record g.config { profile = t }))
      (copy_checked g.config.profile text_size value)
store_dhcp g server value =
    store_text (λ t. with_config g (record g.config { server = t }))
      (copy_ipv4_checked g.config.server text_size value)
store_dhcp g username value =
    store_text (λ t. with_config g (record g.config { username = t }))
      (copy_checked g.config.username username_size value)
store_dhcp g password value =
    store_text (λ t. with_config g (record g.config { password = t }))
      (copy_checked g.config.password text_size value)
store_dhcp g control_check_status value =
    store g (λ b. with_config g (record g.config { control_check_status = b }))
      (parse_hex_byte_string value)
store_dhcp g adapter_num value =
    store g (λ b. with_config g (record g.config { adapter_num = b })) (parse_hex_byte_string value)
store_dhcp g host_ip value =
    store_text (λ t. with_config g (record g.config { host_ip = t }))
      (copy_ipv4_checked g.config.host_ip text_size value)
store_dhcp g ip_dog value =
    store g (λ b. with_config g (record g.config { ip_dog = b })) (parse_hex_byte_string value)
store_dhcp g host_name value =
    store_text (λ t. with_config g (record g.config { host_name = t }))
      (copy_checked g.config.host_name text_size value)
store_dhcp g primary_dns value =
    store_text (λ t. with_config g (record g.config { primary_dns = t }))
      (copy_ipv4_checked g.config.primary_dns text_size value)
store_dhcp g secondary_dns value = (g, success)
store_dhcp g dhcp_server value =
    store_text (λ t. with_config g (record g.config { dhcp_server = t }))
      (copy_ipv4_checked g.config.dhcp_server text_size value)
store_dhcp g auth_version value =
    store g
      (λ v. record g {
        config = record g.config { auth_version = v };
        explicit = record g.explicit { auth_version = true };
      })
      (parse_two_byte_string value)
store_dhcp g mac value =
    store g (λ m. with_config g (record g.config { mac = m })) (parse_mac_string value)
store_dhcp g host_os value =
    store_text (λ t. with_config g (record g.config { host_os = t }))
      (copy_checked g.config.host_os text_size value)
store_dhcp g keep_alive_version value =
    store g
      (λ v. record g {
        config = record g.config { keep_alive_version = v };
        explicit = record g.explicit { keep_alive_version = true };
      })
      (parse_two_byte_string value)
store_dhcp g ror_version value =
    store g
      (λ b. record g {
        config = record g.config { ror_version = b };
        explicit = record g.explicit { ror_version = true };
      })
      (parse_bool_string value)
store_dhcp g keepalive1_mod value =
    store g (λ b. with_config g (record g.config { keepalive1_mod = b })) (parse_bool_string value)
store_dhcp g jlu_mode value =
    store g
      (λ b. record g {
        config = record g.config { jlu_mode = b };
        explicit = record g.explicit { jlu_mode = true };
      })
      (parse_bool_string value)
store_dhcp g startup_delay_seconds value =
    store g
      (λ n. record g {
        config = record g.config { startup_delay_seconds = n };
        explicit = record g.explicit { startup_delay_seconds = true };
      })
      (parse_nonnegative_int_string value)
store_dhcp g bind_ip value =
    store_text (λ t. record g { bind_ip = t }) (copy_ipv4_checked g.bind_ip text_size value)
store_dhcp g log value = (record g { log_path = some value; logging_flag = true }, success)
store_dhcp g eternal value = store g (λ b. record g { eternal_flag = b }) (parse_bool_string value)

-- The ladder, and the final `else` on a key that it does not know.
unfoldable pub store_known : Globals → Option DhcpKey → Bytes → Globals × Status
store_known g none value = (g, failure)
store_known g (some key) value = store_dhcp g key value

-- The test of `key_value_state`.
unfoldable pub dhcp_pair : Globals → KeyValue → Globals × Status
dhcp_pair g blank = (g, success)
dhcp_pair g malformed = (g, failure)
dhcp_pair g (pair key value) = store_known g (dhcp_key key) value

unfoldable pub read_d_config : Globals → Bytes → Globals × Status
unfolding dhcp_pair store_known
read_d_config g buf = dhcp_pair g (parse_key_value buf)

unfoldable pub store_pppoe : Globals → Bytes → Bytes → Globals × Status
unfolding equal
store_pppoe g key value =
    if equal key (codes "server")
    then store_text (λ t. with_config g (record g.config { server = t }))
        (copy_checked g.config.server text_size value)
    else if equal key (codes "pppoe_flag")
    then store g (λ b. with_config g (record g.config { pppoe_flag = b }))
        (parse_hex_byte_string value)
    else if equal key (codes "keep_alive2_flag")
    then store g (λ b. with_config g (record g.config { keep_alive2_flag = b }))
        (parse_hex_byte_string value)
    else (g, failure)

pppoe_pair : Globals → KeyValue → Globals × Status
pppoe_pair g blank = (g, success)
pppoe_pair g malformed = (g, failure)
pppoe_pair g (pair key value) = store_pppoe g key value

unfoldable pub read_p_config : Globals → Bytes → Globals × Status
unfolding pppoe_pair
read_p_config g buf = pppoe_pair g (parse_key_value buf)
