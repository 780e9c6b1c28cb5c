-- ===== src/Write/Document/Paths.antt =====
-- `bare_name` (src/write.rs): a path without its directory.
use Prim.Native.Char.{Char, code}
use Prim.Native.String.append
use Prim.Native.String.{String, [], ◌∷◌, ◌++◌}
use mrimgx_consolidate.Base.{
  ◌≡◌, refl, ap, ◌∙◌, sym, Bool, true, false, ◌||◌, ◌==◌, if◌then◌else◌, Bool-cases, inl, inr, ◌⊎◌,
}

-- The two separators are the characters 92 and 47.
abbrev pub is_separator : Char → Bool
is_separator c = code c == 92 || code c == 47

unfoldable pub has_separator : String → Bool
has_separator [] = false
has_separator (c ∷ cs) = is_separator c || has_separator cs

-- What stands behind the last separator.
unfoldable pub bare_name : String → String
bare_name [] = []
bare_name (c ∷ cs) =
    let rest = bare_name cs in
    if has_separator cs then rest else (if is_separator c then cs else c ∷ cs)

IsBare : String → String → Type 0
IsBare path name =
    (has_separator name ≡ false)
    × ((name ≡ path)
        ⊎ ((directory : String) × (c : Char) × (path ≡ directory ++ (c ∷ name))
            × (is_separator c ≡ true)))

-- One more character in front of a path with a separator.
IsBare-cons :
    (c : Char) (cs name : String) → has_separator cs ≡ true → IsBare cs name → IsBare (c ∷ cs) name
unfolding IsBare
IsBare-cons c cs name some (none, inl same) = cc (some, none, ap has_separator same)
IsBare-cons c cs name some (none, inr (directory, d, e, sep)) = (
  none,
  inr (c ∷ directory, d, ap (λ t. c ∷ t) e ∙ sym (append.cons c directory (d ∷ name)), sep),
)

bare_name-cons :
    (c : Char) (cs : String) → IsBare cs (bare_name cs) → IsBare (c ∷ cs) (bare_name (c ∷ cs))
unfolding bare_name
bare_name-cons c cs h = elim (Bool-cases (has_separator cs)) [
  | inl some ↦ rw some (IsBare-cons c cs (bare_name cs) some h)
  | inr none ↦ elim (Bool-cases (is_separator c)) [
    | inl sep ↦
        rw (none, sep) (unfold IsBare in (none, inr ([], c, sym (append.nil (c ∷ cs)), sep)))
    | inr plain ↦
        rw (none, plain) (unfold IsBare has_separator in (rw (plain, none) refl, inl refl))
  ]
]

-- The bare name holds no separator; it is the whole path, or what stands behind one of its
-- separators.
pub bare_name_lem :
    (path : String)
    → (has_separator (bare_name path) ≡ false)
      × ((bare_name path ≡ path)
          ⊎ ((directory : String) × (c : Char) × (path ≡ directory ++ (c ∷ bare_name path))
              × (is_separator c ≡ true)))
unfolding IsBare has_separator bare_name
bare_name_lem [] = (refl, inl refl)
bare_name_lem (c ∷ cs) = bare_name-cons c cs (bare_name_lem cs)
