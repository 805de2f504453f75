-- ===== src/Platform/FilePath/Join.antt =====
-- What JoinPaths writes, and when it fails.
use yengine.Base.{
  ℕ, ◌+◌, ◌-◌, ◌≤◌, ◌<◌, ◌≡◌, refl, sym, inl, inr, Bool, not, ◌&&◌, List, [], ◌∷◌, ◌++◌, none, some,
  arith, dec_lt, dec_le, lt→ltb, not_lt→ltb, le→leb, not_le→leb, ne→==, leb, ltb, ◌==◌,
  if◌then◌else◌, length, get_or, length-append, Bool-cases, append-nil,
}
use yengine.Platform.FilePath.{is_path_sep, path_sep, Joined, append_path, join_paths}

abbrev pub is_absolute : Bool → List ℕ → Bool
is_absolute win path = is_path_sep win (get_or path 0 0)

-- The directory does not end in a separator.
abbrev pub is_open : Bool → List ℕ → Bool
is_open win dir = ltb 0 (length dir) && not (is_path_sep win (get_or dir (length dir - 1) 0))

-- The joined path: an absolute path stands alone.
abbrev pub joined : Bool → List ℕ → List ℕ → List ℕ
joined win dir path =
    if is_absolute win path
    then path
    else (dir ++ (if is_open win dir then path_sep win ∷ [] else []) ++ path)

-- A result of joining to a whole path: it fails exactly if the path and its terminating zero do not fit
-- the destination; otherwise they are written, and the length of the path is reported. Nothing is
-- written behind the destination.
pub record IsJoined (whole : List ℕ) (dest_size : ℕ) (result : Joined) : Type 0 where
  pub reported : result.1 ≡ (if ltb (length whole) dest_size then some (length whole) else none)
  pub written : length whole < dest_size → result.0 ≡ whole ++ 0 ∷ []
  pub in_dest : length result.0 ≤ dest_size

fails :
    (whole out : List ℕ) (dest_size : ℕ)
    → dest_size ≤ length whole
    → length out ≤ dest_size
    → IsJoined whole dest_size (out, none)
fails whole out dest_size h l = record {
  reported = ground arith;
  written = λ fits. absurd (omega (arith, fits, h));
  in_dest = l;
}

succeeds :
    (whole out : List ℕ) (size dest_size : ℕ)
    → out ≡ whole ++ 0 ∷ []
    → size ≡ length whole
    → length whole < dest_size
    → IsJoined whole dest_size (out, some size)
succeeds whole out size dest_size e n h = record {
  reported = ground (arith, n);
  written = λ fits. e;
  in_dest = rw e (omega (arith, length-append whole (0 ∷ [])));
}

append_path-IsJoined :
    (written path : List ℕ) (dest_size : ℕ)
    → length written ≤ dest_size
    → IsJoined (written ++ path) dest_size (append_path written path dest_size)
unfolding append_path
append_path-IsJoined written path dest_size h =
    let whole = length-append written path in
    elim (dec_lt dest_size (length written + (length path + 1))) [
      | yes short ↦
          rw (lt→ltb _ _ short) (fails (written ++ path) written dest_size (omega (arith, whole)) h)
      | no fits ↦ rw (not_lt→ltb _ _ fits) (
          succeeds (written ++ path) (written ++ path ++ 0 ∷ []) (length written + length path)
            dest_size refl (sym whole) (omega (arith, whole)))
    ]

absolute-IsJoined :
    (path : List ℕ) (dest_size : ℕ)
    → IsJoined path dest_size
        (if leb dest_size (length path) then ([], none) else (path ++ 0 ∷ [], some (length path)))
absolute-IsJoined path dest_size = elim (dec_le dest_size (length path)) [
  | yes short ↦ rw (le→leb _ _ short) (fails path [] dest_size short (omega arith))
  | no fits ↦
      rw (not_le→leb _ _ fits)
        (succeeds path (path ++ 0 ∷ []) (length path) dest_size refl refl (omega arith))
]

-- A directory that leaves room for at least one character.
relative-IsJoined :
    (win : Bool) (dir path : List ℕ) (dest_size : ℕ)
    → length dir < dest_size
    → IsJoined (dir ++ (if is_open win dir then path_sep win ∷ [] else []) ++ path) dest_size (
        if is_open win dir
        then (if length dir == dest_size
            then (dir, none)
            else append_path (dir ++ path_sep win ∷ []) path dest_size)
        else append_path dir path dest_size)
relative-IsJoined win dir path dest_size h = elim (Bool-cases (is_open win dir)) [
  | inl opened ↦
      let sep = path_sep win ∷ [] in
      let size = length-append dir sep in
      rw (opened, ne→== (length dir) dest_size (omega arith))
        (append_path-IsJoined (dir ++ sep) path dest_size (omega (arith, size)))
  | inr closed ↦ rw (closed, append-nil) (append_path-IsJoined dir path dest_size (omega arith))
]

-- JoinPaths returns true exactly if the joined path, which is an absolute path by itself and else
-- the directory, a separator if it does not end in one, and the path, fits the destination with its
-- terminating zero; it then writes both and reports the length, and it never writes behind the
-- destination.
pub join_paths-joined :
    (win : Bool) (dir path : List ℕ) (dest_size : ℕ)
    → IsJoined (joined win dir path) dest_size (join_paths win dir path dest_size)
unfolding join_paths
join_paths-joined win dir path dest_size = elim (Bool-cases (is_absolute win path)) [
  | inl absolute ↦ rw absolute (absolute-IsJoined path dest_size)
  | inr relative ↦ rw relative (elim (dec_le dest_size (length dir)) [
    | yes short ↦
        let sep = if is_open win dir then path_sep win ∷ [] else [] in
        let long = length-append (dir ++ sep) path in
        rw (le→leb _ _ short) (
          fails (dir ++ sep ++ path) [] dest_size (omega (arith, long, length-append dir sep))
            (omega arith))
    | no fits ↦
        rw (not_le→leb _ _ fits, not_lt→ltb dest_size (length dir) (omega arith))
          (relative-IsJoined win dir path dest_size (omega arith))
  ])
]
