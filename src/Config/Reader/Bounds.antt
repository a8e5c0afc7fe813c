-- ===== src/Config/Reader/Bounds.antt =====
-- drcom/src/configparse.c: the sizes of `struct config` under the readers of one line.
use jlu_drcom.Base.{◌≤◌, ◌<◌, ◌≡◌, refl, Bytes, Option, none, some, arith, length}
use jlu_drcom.Config.{Config, Globals, username_size, text_size}
use jlu_drcom.Config.Reader.{
  DhcpKey, dhcp_key, store, store_dhcp, store_known, dhcp_pair, read_d_config, store_pppoe,
  pppoe_pair, read_p_config,
}
use jlu_drcom.Config.Text.{KeyValue, blank, malformed, pair, parse_key_value}
use jlu_drcom.Config.Values.{parse_two_byte_string, parse_mac_string, parse_nonnegative_int_string}
use jlu_drcom.Config.Values.Bounds.{
  copy_checked-lt, copy_ipv4_checked-lt, parse_two_byte_string-length, parse_mac_string-length,
  parse_nonnegative_int_string-le,
}

pub record Fits (c : Config) : Type 0 where
  pub profile_fits : length c.profile < text_size
  pub server_fits : length c.server < text_size
  pub username_fits : length c.username < username_size
  pub password_fits : length c.password < text_size
  pub host_ip_fits : length c.host_ip < text_size
  pub host_name_fits : length c.host_name < text_size
  pub primary_dns_fits : length c.primary_dns < text_size
  pub dhcp_server_fits : length c.dhcp_server < text_size
  pub host_os_fits : length c.host_os < text_size
  pub auth_version_size : length c.auth_version ≡ 2
  pub keep_alive_version_size : length c.keep_alive_version ≡ 2
  pub mac_size : length c.mac ≡ 6
  pub startup_delay_bounded : c.startup_delay_seconds ≤ 1800

abbrev pub GlobalsFit : Globals → Type 0
GlobalsFit g = Fits g.config × (length g.bind_ip < text_size)

store_rule :
    {A : Type 0} (g : Globals) (put : A → Globals) (o : Option A)
    → GlobalsFit g
    → ((a : A) → o ≡ some a → GlobalsFit (put a))
    → GlobalsFit (store g put o).0
store_rule g put none h keep = h
store_rule g put (some a) h keep = keep a refl

pub store_dhcp-Fits :
    (g : Globals) (key : DhcpKey) (value : Bytes)
    → GlobalsFit g
    → GlobalsFit (store_dhcp g key value).0
unfolding store_dhcp
store_dhcp-Fits g DhcpKey.profile value h =
    ground (arith, copy_checked-lt g.config.profile text_size value)
store_dhcp-Fits g DhcpKey.server value h =
    ground (arith, copy_ipv4_checked-lt g.config.server text_size value)
store_dhcp-Fits g DhcpKey.username value h =
    ground (arith, copy_checked-lt g.config.username username_size value)
store_dhcp-Fits g DhcpKey.password value h =
    ground (arith, copy_checked-lt g.config.password text_size value)
store_dhcp-Fits g DhcpKey.host_ip value h =
    ground (arith, copy_ipv4_checked-lt g.config.host_ip text_size value)
store_dhcp-Fits g DhcpKey.host_name value h =
    ground (arith, copy_checked-lt g.config.host_name text_size value)
store_dhcp-Fits g DhcpKey.primary_dns value h =
    ground (arith, copy_ipv4_checked-lt g.config.primary_dns text_size value)
store_dhcp-Fits g DhcpKey.dhcp_server value h =
    ground (arith, copy_ipv4_checked-lt g.config.dhcp_server text_size value)
store_dhcp-Fits g DhcpKey.host_os value h =
    ground (arith, copy_checked-lt g.config.host_os text_size value)
store_dhcp-Fits g DhcpKey.bind_ip value h =
    ground (arith, copy_ipv4_checked-lt g.bind_ip text_size value)
store_dhcp-Fits g DhcpKey.auth_version value h =
    store_rule g _ (parse_two_byte_string value) h
      (λ v e. ground (arith, parse_two_byte_string-length value e))
store_dhcp-Fits g DhcpKey.keep_alive_version value h =
    store_rule g _ (parse_two_byte_string value) h
      (λ v e. ground (arith, parse_two_byte_string-length value e))
store_dhcp-Fits g DhcpKey.mac value h =
    store_rule g _ (parse_mac_string value) h
      (λ v e. ground (arith, parse_mac_string-length value e))
store_dhcp-Fits g DhcpKey.startup_delay_seconds value h =
    store_rule g _ (parse_nonnegative_int_string value) h
      (λ v e. ground (arith, parse_nonnegative_int_string-le value e))
store_dhcp-Fits g _ value h = ground arith

store_pppoe-Fits :
    (g : Globals) (key value : Bytes) → GlobalsFit g → GlobalsFit (store_pppoe g key value).0
unfolding store_pppoe
store_pppoe-Fits g key value h = ground (arith, copy_checked-lt g.config.server text_size value)

pub read_d_config-Fits :
    (g : Globals) (buf : Bytes) → GlobalsFit g → GlobalsFit (read_d_config g buf).0
unfolding read_d_config
read_d_config-Fits g buf h = paired (parse_key_value buf)
  where
    known : (o : Option DhcpKey) (value : Bytes) → GlobalsFit (store_known g o value).0
    known none value = h
    known (some key) value = store_dhcp-Fits g key value h

    paired : (kv : KeyValue) → GlobalsFit (dhcp_pair g kv).0
    paired blank = h
    paired malformed = h
    paired (pair key value) = known (dhcp_key key) value

pub read_p_config-Fits :
    (g : Globals) (buf : Bytes) → GlobalsFit g → GlobalsFit (read_p_config g buf).0
unfolding read_p_config
read_p_config-Fits g buf h = paired (parse_key_value buf)
  where
    paired : (kv : KeyValue) → GlobalsFit (pppoe_pair g kv).0
    paired blank = h
    paired malformed = h
    paired (pair key value) = store_pppoe-Fits g key value h
