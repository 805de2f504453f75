-- ===== src/Platform/FilePath.antt =====
-- FilePath::JoinPaths and FilePath::DirPath of ycommon/platform/file_path.h and file_path.cpp.
pub mod Join
pub mod Directory
mod Tests
use yengine.Base.{
  ℕ, zero, suc, ◌+◌, ◌-◌, Bool, true, false, not, ◌&&◌, ◌||◌, List, [], ◌∷◌, ◌++◌, Option, none,
  some, leb, ltb, ◌==◌, if◌then◌else◌, length, get_or, take,
}

-- '/' and '\\'
abbrev pub slash : ℕ
slash = 47

abbrev pub backslash : ℕ
backslash = 92

-- IS_PATH_SEP and PATH_SEP, with WIN defined or not
abbrev pub is_path_sep : Bool → ℕ → Bool
is_path_sep win path_char = path_char == slash || (win && path_char == backslash)

abbrev pub path_sep : Bool → ℕ
path_sep win = if win then backslash else slash

-- Results are what is written to the front of dest, and *dest_len, none where false is returned.
abbrev pub Joined : Type 0
Joined = List ℕ × Option ℕ

-- The copy of `path`, with its terminating zero, behind what is written.
pub append_path : List ℕ → List ℕ → ℕ → Joined
append_path written path dest_size =
    if ltb dest_size (length written + (length path + 1))
    then (written, none)
    else (written ++ path ++ 0 ∷ [], some (length written + length path))

-- `dir` and `path` are their characters without the terminating zero, which stands behind those of
-- `path`.
pub join_paths : Bool → List ℕ → List ℕ → ℕ → Joined
join_paths win dir path dest_size =
    if is_path_sep win (get_or path 0 0)
    then (if leb dest_size (length path) then ([], none) else (path ++ 0 ∷ [], some (length path)))
    else (if leb dest_size (length dir) || ltb dest_size (length dir)
        then ([], none)
        else (if ltb 0 (length dir) && not (is_path_sep win (get_or dir (length dir - 1) 0))
            then (if length dir == dest_size
                then (dir, none)
                else append_path (dir ++ path_sep win ∷ []) path dest_size)
            else append_path dir path dest_size))

-- The loop of DirPath down from a position of `path`: the last separator, or 0.
pub last_sep : Bool → List ℕ → ℕ → ℕ
last_sep win path zero = zero
last_sep win path (suc i) =
    if is_path_sep win (get_or path (suc i) 0) then suc i else last_sep win path i

pub dir_len : Bool → List ℕ → ℕ
dir_len win path =
    let path_iter = last_sep win path (length path) in
    if path_iter == 0 && is_path_sep win (get_or path 0 0) then path_iter + 1 else path_iter

pub dir_path : Bool → List ℕ → ℕ → Joined
dir_path win path dest_size =
    let copy_len = dir_len win path in
    if ltb dest_size (copy_len + 1)
    then ([], none)
    else (take copy_len path ++ 0 ∷ [], some copy_len)
