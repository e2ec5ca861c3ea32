-- ===== src/Opcua/Security/TrustList.antt =====
-- src/opcua/security.cpp, `readFile` and `readTrustList`.
use safeedge.Common.{
  arith, ◌≤◌, ◌≡◌, ℕ, ltb, ◌==◌, if◌then◌else◌, List, [], ◌∷◌, ◌++◌, length, take, Bool, true,
  false, not, ◌&&◌, ◌||◌, ℤ, pos, negsuc,
}
use safeedge.Opcua.Security.{FilePath, Bytes}
use mathlib.Core.Option.{Option, none, some}

-- An open file: what `ftell` gives at its end, whether a buffer of that size can be had, and what it
-- holds when it is read.
pub record File : Type 0 where
  pub size : ℤ
  pub allocated : Bool
  pub content : Bytes

-- A directory entry: its path, and what `is_regular_file` gives with its error code.
pub record Entry : Type 0 where
  pub path : FilePath
  pub is_regular_file : Bool
  pub error : Bool

-- `fopen` of a path, and the entries of a directory or none if it cannot be iterated.
pub record FileSystem : Type 0 where
  pub open_file : FilePath → Option File
  pub entries : FilePath → Option (List Entry)

unfoldable pub is_empty : {A : Type 0} → List A → Bool
is_empty [] = true
is_empty (x ∷ xs) = false

-- `fread` of a buffer of `size` bytes.
read_all : ℤ → File → Bytes
read_all (negsuc n) file = []
read_all (pos size) file =
    if size == 0
    then []
    else if not file.allocated
    then []
    else let bytes = take size file.content in if length bytes == size then bytes else []

unfoldable pub read_file : FileSystem → FilePath → Bytes
unfolding is_empty read_all
read_file files path =
    if is_empty path
    then []
    else elim (files.open_file path) [ none ↦ [] | some file ↦ read_all file.size file ]

-- `path.extension() == ".der"`: the file name ends so, behind at least one more character.
abbrev dot_der : FilePath
dot_der = b'.' ∷ b'd' ∷ b'e' ∷ b'r' ∷ []

same_text : List ℕ → List ℕ → Bool
same_text [] [] = true
same_text [] (y ∷ ys) = false
same_text (x ∷ xs) [] = false
same_text (x ∷ xs) (y ∷ ys) = x == y && same_text xs ys

-- The text behind the last `/`.
file_name : List ℕ → List ℕ → List ℕ
file_name name [] = name
file_name name (x ∷ xs) = if x == b'/' then file_name [] xs else file_name (name ++ x ∷ []) xs

ends_in : List ℕ → List ℕ → Bool
unfolding same_text
ends_in [] suffix = same_text [] suffix
ends_in (x ∷ xs) suffix = same_text (x ∷ xs) suffix || ends_in xs suffix

unfoldable pub has_der_extension : FilePath → Bool
unfolding file_name ends_in
has_der_extension path = let name = file_name [] path in ltb 4 (length name) && ends_in name dot_der

-- The loop over the directory: the error code is the one of the last entry.
candidates : Bool → List Entry → List FilePath × Bool
candidates ec [] = ([], ec)
candidates ec (entry ∷ rest) =
    let (paths, last) = candidates entry.error rest in
    if entry.is_regular_file && has_der_extension entry.path
    then (entry.path ∷ paths, last)
    else (paths, last)

-- The order of paths, and `std::sort`.
path_leb : FilePath → FilePath → Bool
path_leb [] ys = true
path_leb (x ∷ xs) [] = false
path_leb (x ∷ xs) (y ∷ ys) = ltb x y || (x == y && path_leb xs ys)

insert_sorted : FilePath → List FilePath → List FilePath
insert_sorted p [] = p ∷ []
insert_sorted p (q ∷ qs) = if path_leb p q then p ∷ q ∷ qs else q ∷ insert_sorted p qs

sort_paths : List FilePath → List FilePath
unfolding path_leb insert_sorted
sort_paths [] = []
sort_paths (p ∷ ps) = insert_sorted p (sort_paths ps)

-- The loop over the sorted paths, which drops what cannot be read.
load_each : FileSystem → List FilePath → List Bytes
load_each files [] = []
load_each files (path ∷ paths) =
    let bytes = read_file files path in
    let rest = load_each files paths in if ltb 0 (length bytes) then bytes ∷ rest else rest

unfoldable pub read_trust_list : FileSystem → FilePath → List Bytes
unfolding is_empty candidates sort_paths load_each
read_trust_list files directory =
    if is_empty directory then [] else elim (files.entries directory) [
      | none ↦ []
      | some entries ↦
          let (paths, ec) = candidates false entries in
          if ec then [] else load_each files (sort_paths paths)
    ]

pub some_bytes : (trusted : List Bytes) → is_empty trusted ≡ false → 1 ≤ length trusted
unfolding is_empty
some_bytes [] e = cc
some_bytes (x ∷ xs) e = omega arith
