-- ===== src/Tests/Data.antt =====
-- What the tests share: a configuration, digests and worlds.
use jlu_drcom.Base.{true, false, List, [], ◌∷◌, replicate, codes, refl, arith, none}
use jlu_drcom.Config.{Config, Globals, zero_config, zero_explicit}
use jlu_drcom.Config.Reader.Bounds.{Fits}
use jlu_drcom.Packet.{Digests}
use jlu_drcom.Udp.{Address, World, Incoming}

-- Digests that do not depend on the text.
abbrev pub flat_digests : Digests
flat_digests = record {
  md5 = λ s. replicate 16 0x5a;
  md4 = λ s. replicate 16 0x4a;
  sha1 = λ s. replicate 20 0x3a;
  md5_length = λ s. refl;
  md4_length = λ s. refl;
  sha1_length = λ s. refl;
  md5_bytes = λ s. omega arith;
}

abbrev pub campus : Config
campus = record zero_config {
  server = codes "10.100.61.3";
  username = codes "student";
  password = codes "secret";
  host_ip = codes "49.140.1.2";
  host_name = codes "drcom";
  primary_dns = codes "10.10.10.10";
  dhcp_server = codes "0.0.0.0";
  auth_version = 0x6a ∷ 0x00 ∷ [];
  mac = 0xb0 ∷ 0x25 ∷ 0xaa ∷ 0x85 ∷ 0x14 ∷ 0x9b ∷ [];
  host_os = codes "Windows 10";
  keep_alive_version = 0xdc ∷ 0x02 ∷ [];
  ror_version = true;
}

-- A password of 17 bytes.
abbrev pub talkative : Config
talkative = record campus { password = codes "seventeen bytes!!" }

pub campus-Fits : Fits campus
campus-Fits = record {
  profile_fits = omega arith;
  server_fits = omega arith;
  username_fits = omega arith;
  password_fits = omega arith;
  host_ip_fits = omega arith;
  host_name_fits = omega arith;
  primary_dns_fits = omega arith;
  dhcp_server_fits = omega arith;
  host_os_fits = omega arith;
  auth_version_size = refl;
  keep_alive_version_size = refl;
  mac_size = refl;
  startup_delay_bounded = omega arith;
}

pub talkative-Fits : Fits talkative
talkative-Fits = record {
  profile_fits = omega arith;
  server_fits = omega arith;
  username_fits = omega arith;
  password_fits = omega arith;
  host_ip_fits = omega arith;
  host_name_fits = omega arith;
  primary_dns_fits = omega arith;
  dhcp_server_fits = omega arith;
  host_os_fits = omega arith;
  auth_version_size = refl;
  keep_alive_version_size = refl;
  mac_size = refl;
  startup_delay_bounded = omega arith;
}

abbrev pub fresh : Globals
fresh = record {
  config = zero_config;
  explicit = zero_explicit;
  bind_ip = codes "0.0.0.0";
  log_path = none;
  logging_flag = false;
  eternal_flag = false;
}

abbrev pub server_address : Address
server_address = record { host = 0x033d640a; port = 61440 }

abbrev pub stranger : Address
stranger = record { host = 0x01020304; port = 53 }

-- A world with nothing in it.
abbrev pub still : World
still = record {
  inbox = [];
  send_results = [];
  sent = [];
  randoms = 7 ∷ 300 ∷ [];
  stops = [];
  stop_requested = false;
  slept = [];
}

-- What `recvfrom` will give.
abbrev pub receiving : List Incoming → World
receiving inbox = record still { inbox = inbox }
