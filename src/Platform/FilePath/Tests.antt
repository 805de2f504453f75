-- ===== src/Platform/FilePath/Tests.antt =====
-- JoinPaths and DirPath of "a" and "bc", by their character codes.
use yengine.Base.{ℕ, get_or, zero, suc, ◌≡◌, refl, true, false, [], ◌∷◌, none, some}
use yengine.Platform.FilePath.{is_path_sep, append_path, join_paths, last_sep, dir_len, dir_path}
use yengine.Platform.FilePath.Directory.{dir_path-join}
use yengine.Platform.FilePath.Join.{joined, IsJoined, join_paths-joined}

program : Unit {0}
unfolding append_path join_paths last_sep dir_len dir_path
program = tt

join_run : join_paths false (97 ∷ []) (98 ∷ 99 ∷ []) 5 ≡ (97 ∷ 47 ∷ 98 ∷ 99 ∷ 0 ∷ [], some 4)
unfolding program
join_run = refl

join_short : join_paths false (97 ∷ []) (98 ∷ 99 ∷ []) 4 ≡ (97 ∷ 47 ∷ [], none)
unfolding program
join_short = refl

join_absolute : join_paths true (97 ∷ []) (92 ∷ 99 ∷ []) 5 ≡ (92 ∷ 99 ∷ 0 ∷ [], some 2)
unfolding program
join_absolute = refl

join_paths-joined_example :
    IsJoined (joined false (97 ∷ []) (98 ∷ 99 ∷ [])) 5 (join_paths false (97 ∷ []) (98 ∷ 99 ∷ []) 5)
join_paths-joined_example = join_paths-joined false (97 ∷ []) (98 ∷ 99 ∷ []) 5

dir_run : dir_path false (97 ∷ 47 ∷ 98 ∷ 99 ∷ []) 2 ≡ (97 ∷ 0 ∷ [], some 1)
unfolding program
dir_run = refl

dir_root : dir_path false (47 ∷ 98 ∷ []) 2 ≡ (47 ∷ 0 ∷ [], some 1)
unfolding program
dir_root = refl

dir_none : dir_path false (98 ∷ 99 ∷ []) 2 ≡ (0 ∷ [], some 0)
unfolding program
dir_none = refl

bc_no_sep : (i : ℕ) → is_path_sep false (get_or (98 ∷ 99 ∷ []) i 0) ≡ false
bc_no_sep zero = refl
bc_no_sep (suc zero) = refl
bc_no_sep (suc (suc i)) = refl

dir_path-join_example :
    dir_path false (joined false (97 ∷ []) (98 ∷ 99 ∷ [])) 2 ≡ (97 ∷ 0 ∷ [], some 1)
dir_path-join_example = dir_path-join false (97 ∷ []) (98 ∷ 99 ∷ []) 2 refl bc_no_sep
