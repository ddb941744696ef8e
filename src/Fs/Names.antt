-- ===== src/Fs/Names.antt =====
-- kernel/src/fs.rs: directory entries and their names. `name_str` reads a name up to its first zero
-- byte, and as a placeholder when that is not UTF-8, whose test `core::str::from_utf8` makes.
use jungey_os.Prelude.{
  ℕ, ◌-◌, Bool, true, false, ◌&&◌, Option, none, some, List, [], ◌∷◌, ◌++◌, leb, ltb, ◌==◌,
  if◌then◌else◌, length, replicate,
}

abbrev pub max_name : ℕ
max_name = 28

pub record FileEntry : Type 0 where
  pub name : List ℕ
  pub size : ℕ
  pub start : ℕ
  pub sectors : ℕ

-- The ranges of the bytes that follow the first byte of a longer sequence.
more_bytes : ℕ → Option (List (ℕ × ℕ))
more_bytes a =
    let tail : ℕ × ℕ = (128, 191) in
    if leb 194 a && leb a 223
    then some (tail ∷ [])
    else if a == 224
    then some ((160, 191) ∷ tail ∷ [])
    else if a == 237
    then some ((128, 159) ∷ tail ∷ [])
    else if leb 225 a && leb a 239
    then some (tail ∷ tail ∷ [])
    else if a == 240
    then some ((144, 191) ∷ tail ∷ tail ∷ [])
    else if leb 241 a && leb a 243
    then some (tail ∷ tail ∷ tail ∷ [])
    else if a == 244
    then some ((128, 143) ∷ tail ∷ tail ∷ [])
    else none

utf8_from : List (ℕ × ℕ) → List ℕ → Bool
unfolding more_bytes
utf8_from [] [] = true
utf8_from (r ∷ rs) [] = false
utf8_from ((lo, hi) ∷ rs) (a ∷ bs) = leb lo a && leb a hi && utf8_from rs bs
utf8_from [] (a ∷ bs) =
    if ltb a 128
    then utf8_from [] bs
    else elim (more_bytes a) [ none ↦ false | some rs ↦ utf8_from rs bs ]

unfoldable pub valid_utf8 : List ℕ → Bool
unfolding utf8_from
valid_utf8 bytes = utf8_from [] bytes

unfoldable pub until_zero : List ℕ → List ℕ
until_zero [] = []
until_zero (b ∷ bs) = if b == 0 then [] else b ∷ until_zero bs

-- "<invalid>"
abbrev pub invalid_name : List ℕ
invalid_name = 60 ∷ 105 ∷ 110 ∷ 118 ∷ 97 ∷ 108 ∷ 105 ∷ 100 ∷ 62 ∷ []

unfoldable pub name_str : FileEntry → List ℕ
name_str f = if valid_utf8 (until_zero f.name) then until_zero f.name else invalid_name

-- `[0; MAX_NAME]` with the name copied to its front
abbrev pub padded : List ℕ → List ℕ
padded name = name ++ replicate (max_name - length name) 0

unfoldable pub same_bytes : List ℕ → List ℕ → Bool
same_bytes [] [] = true
same_bytes (a ∷ xs) (b ∷ ys) = (a == b) && same_bytes xs ys
same_bytes _ _ = false
