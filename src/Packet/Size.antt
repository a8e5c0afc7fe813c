-- ===== src/Packet/Size.antt =====
-- drcom/src/protocol.c: `drcom_dhcp_login_packet_size`, against the places that `dhcp_login`
-- writes to.
use jlu_drcom.Base.{
  ◌⊎◌, ◌<◌, ℕ, ◌+◌, ◌-◌, ◌/◌, ◌%◌, ◌≤◌, ◌<◌, ◌≡◌, Bool, true, not, ◌||◌, arith, ltb, leb, ◌==◌,
  if◌then◌else◌,
}

-- `length_padding` for a long password.
jlu_length_padding : ℕ → ℕ
jlu_length_padding password_length =
    28 + (password_length - 8) + (if password_length == 16 then 0 else password_length / 4)

length_padding : ℕ → Bool → ℕ
length_padding password_length try_jlu_version =
    if ltb 8 password_length
    then if try_jlu_version
      then jlu_length_padding password_length
      else if not ((password_length - 8) % 2 == 0)
      then password_length - 8 + 1
      else password_length - 8
    else 0

unfoldable pub dhcp_login_packet_size : ℕ → Bool → Bool → ℕ
unfolding length_padding jlu_length_padding
dhcp_login_packet_size password_length ror_version try_jlu_version =
    if not (ror_version || try_jlu_version)
    then 330
    else 338 + length_padding password_length try_jlu_version

-- `counter` of `dhcp_login` behind the scrambled password.
unfoldable pub login_counter : ℕ → Bool → ℕ
login_counter password_length use_ror_version =
    if use_ror_version then 314 + password_length else 312

-- `ror_padding` of `dhcp_login`, with its `JLU_padding`.
unfoldable pub ror_padding : ℕ → Bool → Bool → ℕ
ror_padding password_length use_ror_version try_jlu_version =
    if not use_ror_version
    then 2
    else if leb password_length 8
    then 8 - password_length
    else if try_jlu_version
    then if password_length == 16 then 0 else password_length / 4
    else if not ((password_length - 8) % 2 == 0)
    then 1
    else 0

-- The packet has room for all that `dhcp_login` writes: its last two bytes lie at `counter +
-- ror_padding + 14` and behind, and they end the packet, unless it is made in JLU mode with a password
-- of more than eight bytes.
pub dhcp_login_packet_size_fits :
    (n : ℕ) (ror jlu_version : Bool)
    → let use_ror = ror || jlu_version in
      let last = login_counter n use_ror + ror_padding n use_ror jlu_version + 16 in
      (last ≤ dhcp_login_packet_size n ror jlu_version)
      × ((dhcp_login_packet_size n ror jlu_version ≡ last) ⊎ ((jlu_version ≡ true) × (8 < n)))
unfolding dhcp_login_packet_size login_counter ror_padding
dhcp_login_packet_size_fits n ror jlu_version = (ground arith, ground arith)

pub le-dhcp_login_packet_size :
    (n : ℕ) (ror jlu_version : Bool) → 330 ≤ dhcp_login_packet_size n ror jlu_version
unfolding dhcp_login_packet_size
le-dhcp_login_packet_size n ror jlu_version = ground arith

pub le-dhcp_login_packet_size_ror :
    (n : ℕ) (ror jlu_version : Bool)
    → (ror || jlu_version) ≡ true
    → 314 + n + 16 ≤ dhcp_login_packet_size n ror jlu_version
unfolding dhcp_login_packet_size
le-dhcp_login_packet_size_ror n ror jlu_version h = ground arith
