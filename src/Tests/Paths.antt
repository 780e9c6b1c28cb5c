-- ===== src/Tests/Paths.antt =====
-- A path with its directory removed.
use Prim.Native.Char.{Char}
use Prim.Native.String.{String, ◌∷◌, ◌++◌}
use mrimgx_consolidate.Base.{◌≡◌, true, false, ◌⊎◌}
use mrimgx_consolidate.Write.Document.Paths.{is_separator, has_separator, bare_name, bare_name_lem}

abbrev some_path : String
some_path = "C:\\a/b.mrimgx"

bare_name_lem_example :
    (has_separator (bare_name some_path) ≡ false)
    × ((bare_name some_path ≡ some_path)
        ⊎ ((directory : String) × (c : Char) × (some_path ≡ directory ++ (c ∷ bare_name some_path))
            × (is_separator c ≡ true)))
bare_name_lem_example = bare_name_lem some_path
