-- ===== src/Platform/FilePath/Directory.antt =====
-- DirPath of what JoinPaths joins.
use yengine.Base.{
  ℕ, zero, suc, ◌+◌, ◌≡◌, refl, Bool, true, false, List, [], ◌∷◌, ◌++◌, none, some, arith, ltb,
  ne→==, if◌then◌else◌, length, get_or, length-append, append_assoc, get_or-append_left,
  get_or-append_right, take-append,
}
use yengine.Platform.FilePath.{is_path_sep, path_sep, last_sep, dir_len, dir_path}
use yengine.Platform.FilePath.Join.{is_open, joined}

path_sep-IsSep : (win : Bool) → is_path_sep win (path_sep win) ≡ true
path_sep-IsSep true = refl
path_sep-IsSep false = refl

module _ (win : Bool) (c : ℕ) (cs name : List ℕ)
    (free : (i : ℕ) → is_path_sep win (get_or name i 0) ≡ false) where
  abbrev path : List ℕ
  path = c ∷ cs ++ path_sep win ∷ [] ++ name

  path_at-sep : get_or path (suc (length cs)) 0 ≡ path_sep win
  path_at-sep =
      rw
        (get_or-append_left (c ∷ cs ++ path_sep win ∷ []) name (suc (length cs)) 0
          (omega (arith, length-append (c ∷ cs) (path_sep win ∷ []))))
        (get_or-append_right (c ∷ cs) (path_sep win ∷ []) 0 (suc (length cs)) 0 (omega arith))

  path_at-name : (k : ℕ) → get_or path (suc (suc (length cs) + k)) 0 ≡ get_or name k 0
  path_at-name k =
      get_or-append_right (c ∷ cs ++ path_sep win ∷ []) name k (suc (suc (length cs) + k)) 0
        (omega (arith, length-append (c ∷ cs) (path_sep win ∷ [])))

  last_sep-path : (k : ℕ) → last_sep win path (suc (length cs) + k) ≡ suc (length cs)
  unfolding last_sep
  last_sep-path zero =
      let at_start : suc (length cs) + 0 ≡ suc (length cs) = omega arith in
      rw (at_start, path_at-sep, path_sep-IsSep win) refl
  last_sep-path (suc k) =
      let next : suc (length cs) + suc k ≡ suc (suc (length cs) + k) = omega arith in
      rw (next, path_at-name k, free k) (last_sep-path k)

  dir_len-path : dir_len win path ≡ suc (length cs)
  unfolding dir_len
  dir_len-path =
      let size : length path ≡ suc (length cs) + suc (length name) = omega (
        arith,
        length-append (c ∷ cs ++ path_sep win ∷ []) name,
        length-append (c ∷ cs) (path_sep win ∷ []),
      ) in
      rw (size, last_sep-path (suc (length name)), ne→== (suc (length cs)) 0 (omega arith)) refl

  dir_path-path :
      (dest_size : ℕ)
      → dir_path win path dest_size ≡ (
          if ltb dest_size (suc (length cs) + 1)
          then ([], none)
          else (c ∷ cs ++ 0 ∷ [], some (suc (length cs))))
  unfolding dir_path
  dir_path-path dest_size =
      rw
        (
          dir_len-path,
          append_assoc cs (path_sep win ∷ []) name,
          take-append cs (path_sep win ∷ name),
        )
        refl

-- DirPath of what joins a directory, not empty and not ending in a separator, and a name without a
-- separator returns true exactly if the directory and its terminating zero fit the destination, and
-- then writes the directory and reports its length; where they do not fit, it writes nothing.
pub dir_path-join :
    (win : Bool) (dir name : List ℕ) (dest_size : ℕ)
    → is_open win dir ≡ true
    → ((i : ℕ) → is_path_sep win (get_or name i 0) ≡ false)
    → dir_path win (joined win dir name) dest_size
      ≡ (if ltb dest_size (length dir + 1) then ([], none) else (dir ++ 0 ∷ [], some (length dir)))
dir_path-join win [] name dest_size opened free = absurd (ground (arith, opened))
dir_path-join win (c ∷ cs) name dest_size opened free =
    rw (free 0, opened) (dir_path-path win c cs name free dest_size)
