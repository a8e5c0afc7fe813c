-- ===== src/Interfaces.antt =====
-- drcom/src/libs/common.c: the list of the network interfaces.
pub mod Laws
use jlu_drcom.Base.{
  ℕ, zero, suc, ◌-◌, ◌==◌, leb, Bool, true, false, ◌&&◌, ◌||◌, if◌then◌else◌, Bytes, List, [], ◌∷◌,
  Option, none, some, length, take, drop, codes, ℤ, pos, negsuc,
}
use jlu_drcom.Ctype.{skip_spaces}

starts_with : Bytes → Bytes → Bool
starts_with text [] = true
starts_with [] (c ∷ needle) = false
starts_with (d ∷ text) (c ∷ needle) = let rest = starts_with text needle in d == c && rest

-- `strstr(text, needle) != NULL`
unfoldable pub contains : Bytes → Bytes → Bool
unfolding starts_with
contains needle [] = starts_with [] needle
contains needle (c ∷ text) =
    let later = contains needle text in starts_with (c ∷ text) needle || later

-- `filter` in `is_filter`
abbrev pub filters : List Bytes
filters =
    codes "Wireless"
    ∷ codes "Microsoft"
    ∷ codes "Virtual"
    ∷ codes "lo"
    ∷ codes "wlan"
    ∷ codes "vboxnet"
    ∷ codes "ifb"
    ∷ codes "gre"
    ∷ codes "teql"
    ∷ codes "br"
    ∷ codes "imq"
    ∷ codes "ra"
    ∷ codes "wds"
    ∷ codes "sit"
    ∷ codes "apcli"
    ∷ []

contains_any : List Bytes → Bytes → Bool
contains_any [] ifname = false
contains_any (needle ∷ needles) ifname =
    let later = contains_any needles ifname in contains needle ifname || later

unfoldable pub is_filter : Bytes → Bool
unfolding contains_any contains
is_filter ifname = contains_any filters ifname

unfoldable pub before_colon : Bytes → Bytes
before_colon [] = []
before_colon (c ∷ buff) = let rest = before_colon buff in if c == b':' then [] else c ∷ rest

unfoldable pub get_ifname_from_buff : Bytes → Bytes
unfolding skip_spaces before_colon
get_ifname_from_buff buff = before_colon (skip_spaces buff)

-- `strncpy` into `name`, which has 16 bytes.
abbrev pub stored_name : Bytes → Bytes
stored_name name = take 16 name

-- The loop over the lines, with room for so many names more; `none` is the return value -2.
unfoldable pub collect_ifs : ℕ → List Bytes → Option (List Bytes)
unfolding is_filter
collect_ifs room [] = some []
collect_ifs room (buff ∷ more) =
    let name = get_ifname_from_buff buff in
    let unchanged = collect_ifs room more in
    let longer = collect_ifs (room - 1) more in
    if is_filter name
    then unchanged
    else if leb room 1
    then none
    else elim longer [ none ↦ none | some names ↦ some (stored_name name ∷ names) ]

abbrev counted : Option (List Bytes) → ℤ × List Bytes
counted none = (negsuc 1, [])
counted (some names) = (pos (length names), names)

-- The lines of /proc/net/dev as `fgets` gives them, or `none` when it cannot be opened. On success the
-- return value is also the new `*cnt`.
unfoldable pub getall_ifs : Option (List Bytes) → ℕ → ℤ × List Bytes
unfolding collect_ifs
getall_ifs lines zero = (negsuc 1, [])
getall_ifs none (suc cnt) = (negsuc 0, [])
getall_ifs (some lines) (suc cnt) = counted (collect_ifs (suc cnt) (drop 2 lines))
