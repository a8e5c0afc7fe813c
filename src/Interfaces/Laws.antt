-- ===== src/Interfaces/Laws.antt =====
-- drcom/src/libs/common.c: which interfaces `getall_ifs` gives.
use jlu_drcom.Base.{
  ℕ, zero, suc, ◌-◌, ◌<◌, ◌≡◌, if◌then◌else◌, Bytes, List, [], ◌∷◌, none, some, length, drop, ltb,
  leb, arith, pos, negsuc, Bool-cases, inl, inr, lt→ltb,
}
use jlu_drcom.Interfaces.{is_filter, get_ifname_from_buff, stored_name, collect_ifs, getall_ifs}

-- The names on the lines that are not filtered, in their order.
abbrev pub kept_names : List Bytes → List Bytes
kept_names [] = []
kept_names (buff ∷ more) =
    let rest = kept_names more in
    let name = get_ifname_from_buff buff in if is_filter name then rest else stored_name name ∷ rest

collect_ifs-kept_names :
    (room : ℕ) (lines : List Bytes)
    → 0 < room
    → collect_ifs room lines
      ≡ (if ltb (length (kept_names lines)) room then some (kept_names lines) else none)
unfolding collect_ifs
collect_ifs-kept_names room [] h = rw (lt→ltb 0 room h)
collect_ifs-kept_names room (buff ∷ more) h =
    elim (Bool-cases (is_filter (get_ifname_from_buff buff))) [
      | inl filtered ↦ rw (collect_ifs, filtered) (collect_ifs-kept_names room more h)
      | inr wanted ↦ elim (Bool-cases (leb room 1)) [
        | inl full ↦ rw (collect_ifs, wanted, full) (ground arith)
        | inr free ↦
            rw (collect_ifs, wanted, free, collect_ifs-kept_names (room - 1) more (ground arith))
              (ground arith)
      ]
    ]

-- With room for `cnt` names, `getall_ifs` gives the names of all lines behind the two of the heading that
-- are not filtered, in their order, and their number, if these are fewer than `cnt`; where they are
-- `cnt` or more it gives none and returns -2.
pub getall_ifs-kept_names :
    (lines : List Bytes) (cnt : ℕ)
    → 0 < cnt
    → getall_ifs (some lines) cnt ≡ (
        if ltb (length (kept_names (drop 2 lines))) cnt
        then (pos (length (kept_names (drop 2 lines))), kept_names (drop 2 lines))
        else (negsuc 1, []))
unfolding getall_ifs
getall_ifs-kept_names lines zero h = absurd (omega arith)
getall_ifs-kept_names lines (suc cnt) h =
    let all = collect_ifs-kept_names (suc cnt) (drop 2 lines) h in
    elim (Bool-cases (ltb (length (kept_names (drop 2 lines))) (suc cnt))) [
      | inl room ↦ rw (getall_ifs, all, room)
      | inr full ↦ rw (getall_ifs, all, full)
    ]
