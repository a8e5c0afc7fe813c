-- ===== src/Ethernet/Files.antt =====
-- drcom/src/libs/common.c: the directory of the program, and the copy of a file.
use mathlib.Core.List.{append_assoc}
use jlu_drcom.Base.{
  ℕ, zero, suc, ◌<◌, ◌≡◌, ◌≢◌, ◌∙◌, ap, refl, ◌==◌, leb, Bool, true, false, if◌then◌else◌, Bytes,
  [], ◌∷◌, ◌++◌, Option, none, some, length, take, drop, Status, success, failure, arith,
  length-drop, take_all,
}

-- The text in front of the first NUL of an array, if it has one.
unfoldable pub text_of : Bytes → Option Bytes
text_of [] = none
text_of (c ∷ array) =
    let rest = text_of array in
    if c == 0 then some [] else elim rest [ none ↦ none | some text ↦ some (c ∷ text) ]

-- What stands in front of the last `/`, and the `/`: `strrchr`.
unfoldable pub up_to_slash : Bytes → Option Bytes
up_to_slash [] = none
up_to_slash (c ∷ text) =
    let later = up_to_slash text in
    elim later [ some dir ↦ some (c ∷ dir) | none ↦ if c == b'/' then some (c ∷ []) else none ]

-- How `getexedir` ends: with -1, with the directory, or in a read past the end of the array.
pub data ExeDir : Type 0 where
  no_dir overrun : ExeDir
  dir_is : Bytes → ExeDir

abbrev pub exe_path_max : ℕ
exe_path_max = 4097

directory_in : Option Bytes → ExeDir
directory_in none = overrun
directory_in (some text) = elim (up_to_slash text) [ none ↦ no_dir | some dir ↦ dir_is dir ]

-- `link` is what `readlink` finds, and `old` what stood in the array before: `readlink` writes no NUL.
unfoldable pub getexedir : Option Bytes → Bytes → ExeDir
unfolding directory_in
getexedir none old = no_dir
getexedir (some link) old =
    let path = take exe_path_max link in
    if leb exe_path_max (length path)
    then no_dir
    else directory_in (text_of (path ++ drop (length path) old))

-- The loop of `copy`, with the rounds that are left.
unfoldable pub copy_loop : ℕ → Bytes → Bytes
copy_loop zero source = []
copy_loop (suc rounds) source =
    let rest = copy_loop rounds (drop 1024 source) in
    elim (take 1024 source) [ [] ↦ [] | c ∷ buff ↦ (c ∷ buff) ++ rest ]

-- `copy` of two paths: what the source holds, whether the target can be opened, and what it holds; a
-- source that is the target itself (`same`) has been emptied by the time that it is read. Each round
-- of the loop takes a byte at least, so one more than there are bytes are enough.
unfoldable pub copy : Option Bytes → Bool → Bool → Option Bytes → Status × Option Bytes
unfolding copy_loop
copy none can_open same target = (failure, if can_open then some [] else target)
copy (some source) false same target = (failure, target)
copy (some source) true same target =
    let read : Bytes = if same then [] else source in
    (success, some (copy_loop (suc (length read)) read))

take-drop : (n : ℕ) (s : Bytes) → take n s ++ drop n s ≡ s
take-drop zero s = refl
take-drop (suc n) [] = refl
take-drop (suc n) (c ∷ s) = ap (◌∷◌ c) (take-drop n s)

copy_loop_all :
    (rounds : ℕ) (source : Bytes) → length source < rounds → copy_loop rounds source ≡ source
unfolding copy_loop
copy_loop_all zero source h = absurd (omega arith)
copy_loop_all (suc rounds) [] h = refl
copy_loop_all (suc rounds) (c ∷ source) h =
    let shorter = length-drop 1023 source in
    ap (◌∷◌ c) (
      ap (λ (rest : Bytes). take 1023 source ++ rest)
        (copy_loop_all rounds (drop 1023 source) (omega arith))
      ∙ take-drop 1023 source)

-- When both files can be opened and are not one and the same, `copy` succeeds and the target holds what
-- the source holds; when only the source is missing it fails, and the target has lost what it held.
pub copy_lem :
    (source : Option Bytes) (target : Option Bytes)
    → copy source true false target
      ≡ (elim source [ none ↦ (failure, some []) | some text ↦ (success, some text) ])
unfolding copy
copy_lem none target = refl
copy_lem (some text) target =
    ap (λ (held : Bytes). (success, some held))
      (copy_loop_all (suc (length text)) text (omega arith))

-- A name without `/`, and with no NUL.
abbrev pub IsName : Bytes → Type 0
IsName [] = Unit
IsName (c ∷ cs) = (c ≢ b'/') × (c ≢ 0) × IsName cs

abbrev pub NoNul : Bytes → Type 0
NoNul [] = Unit
NoNul (c ∷ cs) = (c ≢ 0) × NoNul cs

text_of-append : (text rest : Bytes) → NoNul text → text_of (text ++ 0 ∷ rest) ≡ some text
unfolding text_of
text_of-append [] rest h = refl
text_of-append (c ∷ text) rest h = let later = text_of-append text rest h.1 in ground (arith, later)

up_to_slash-name : (name : Bytes) → IsName name → up_to_slash name ≡ none
unfolding up_to_slash
up_to_slash-name [] h = refl
up_to_slash-name (c ∷ name) h = let later = up_to_slash-name name h.2 in ground (arith, later)

up_to_slash-append :
    (dir name : Bytes) → IsName name → up_to_slash (dir ++ b'/' ∷ name) ≡ some (dir ++ b'/' ∷ [])
unfolding up_to_slash
up_to_slash-append [] name h =
    let none_later = up_to_slash-name name h in ground (arith, none_later)
up_to_slash-append (c ∷ dir) name h = let later = up_to_slash-append dir name h in rw later

directory_in-slash :
    (text dir : Bytes) → up_to_slash text ≡ some dir → directory_in (some text) ≡ dir_is dir
unfolding directory_in
directory_in-slash text dir e = rw (directory_in, e)

-- `readlink` has found `link`, behind which the array still holds `rest` in front of a NUL: the
-- directory is what stands in front of the last `/` of both together. So it is the one of the program
-- when `rest` is empty, and may be another where the array was not cleared.
pub getexedir_lem :
    (link rest behind old dir name : Bytes)
    → length link < exe_path_max
    → drop (length link) old ≡ rest ++ 0 ∷ behind
    → NoNul (link ++ rest)
    → link ++ rest ≡ dir ++ b'/' ∷ name
    → IsName name
    → getexedir (some link) old ≡ dir_is (dir ++ b'/' ∷ [])
unfolding getexedir
getexedir_lem link rest behind old dir name fits held text splits last =
    let whole = take_all exe_path_max link (omega arith) in
    let short : leb exe_path_max (length link) ≡ false = ground arith in
    let read = text_of-append (link ++ rest) behind text in
    rw (whole, short, held, ← append_assoc link rest (0 ∷ behind), read, splits)
      (directory_in-slash (dir ++ b'/' ∷ name) (dir ++ b'/' ∷ [])
        (up_to_slash-append dir name last))
