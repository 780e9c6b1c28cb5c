-- ===== src/Tests/Documents.antt =====
-- A concrete type of documents, with all that the program uses of serde_json.
use Prim.Native.String.{String}
use text.Mathlib.Text.{◌==◌ as str_eq}
use text.Mathlib.TextEquality.{eq_iff}
use mrimgx_consolidate.Base.{
  ==_iff, sym, ℕ, ◌^◌, ◌<◌, ◌≡◌, refl, ap, Bool, true, false, ◌&&◌, List, [], ◌∷◌, Option, none,
  some, ltb, lt→ltb, ◌==◌, if◌then◌else◌, Result, ok, err, ok-injective, json_syntax, Bool-cases,
  inl, inr,
}
use mrimgx_consolidate.Base.Int.{ℤ, pos}
use mrimgx_consolidate.Base.Bytes.{Bytes, bytes_eq}
use mrimgx_consolidate.Json.{Documents, canonical}
use mrimgx_consolidate.Json.Editing.{Editing}

-- A scalar, a chain of the fields of an object, or a chain of the items of an array.
pub data Tree : Type 0 where
  nothing no_fields no_items : Tree
  number : ℕ → Tree
  flag : Bool → Tree
  words : String → Tree
  field : String → Tree → Tree → Tree
  item : Tree → Tree → Tree

abbrev pub tree_get : Tree → String → Option Tree
tree_get (field key value rest) k = if str_eq key k then some value else tree_get rest k
tree_get _ k = none

abbrev pub tree_is_object : Tree → Bool
tree_is_object no_fields = true
tree_is_object (field key value rest) = true
tree_is_object _ = false

abbrev pub tree_str : Tree → Option String
tree_str (words s) = some s
tree_str _ = none

abbrev pub tree_u64 : Tree → Option ℕ
tree_u64 (number n) = if ltb n (2 ^ 64) then some n else none
tree_u64 _ = none

abbrev pub tree_i64 : Tree → Option ℤ
tree_i64 (number n) = if ltb n (2 ^ 63) then some (pos n) else none
tree_i64 _ = none

abbrev pub tree_bool : Tree → Option Bool
tree_bool (flag b) = some b
tree_bool _ = none

abbrev pub cons_to : Tree → Option (List Tree) → Option (List Tree)
cons_to v none = none
cons_to v (some vs) = some (v ∷ vs)

abbrev pub tree_array : Tree → Option (List Tree)
tree_array no_items = some []
tree_array (item v rest) = cons_to v (tree_array rest)
tree_array _ = none

abbrev pub flag_eq : Bool → Bool → Bool
flag_eq true true = true
flag_eq false false = true
flag_eq _ _ = false

abbrev pub tree_eq : Tree → Tree → Bool
tree_eq nothing nothing = true
tree_eq no_fields no_fields = true
tree_eq no_items no_items = true
tree_eq (number n) (number m) = n == m
tree_eq (flag b) (flag c) = flag_eq b c
tree_eq (words s) (words t) = str_eq s t
tree_eq (field k v r) (field l w q) = str_eq k l && (tree_eq v w && tree_eq r q)
tree_eq (item v r) (item w q) = tree_eq v w && tree_eq r q
tree_eq _ _ = false

-- Two documents are printed, each as one byte.
abbrev pub tree_pretty : Tree → Tree → Tree → Result Bytes
tree_pretty before after v =
    if tree_eq v before
    then ok (1 ∷ [])
    else (if tree_eq v after then ok (2 ∷ []) else err json_syntax)

abbrev pub tree_from_slice : Tree → Tree → Bytes → Result Tree
tree_from_slice before after raw =
    if bytes_eq raw (1 ∷ 10 ∷ [])
    then ok before
    else (if bytes_eq raw (2 ∷ 10 ∷ []) then ok after else err json_syntax)

abbrev pub trees : Tree → Tree → Documents
trees before after = record {
  Value = Tree;
  null = nothing;
  from_slice = tree_from_slice before after;
  pretty = tree_pretty before after;
  get = tree_get;
  is_object = tree_is_object;
  as_str = tree_str;
  as_u64 = tree_u64;
  as_i64 = tree_i64;
  as_bool = tree_bool;
  as_array = tree_array;
  value_eq = tree_eq;
}

abbrev pub tree_insert : Tree → String → Tree → Tree
tree_insert (field key value rest) k v =
    let more = tree_insert rest k v in
    if str_eq key k then field key v rest else field key value more
tree_insert _ k v = field k v no_fields

abbrev pub tree_items : List Tree → Tree
tree_items [] = no_items
tree_items (v ∷ vs) = item v (tree_items vs)

replaced :
    (k j : String) (v value rest : Tree)
    → (if str_eq k j then some v else tree_get rest j)
      ≡ (if str_eq k j then some v else (if str_eq k j then some value else tree_get rest j))
replaced k j v value rest = elim (Bool-cases (str_eq k j)) [
  | inl same ↦ rw same refl
  | inr other ↦ rw other refl
]

kept :
    (key k j : String) (v value rest : Tree)
    → str_eq key k ≡ false
    → (if str_eq key j then some value else (if str_eq k j then some v else tree_get rest j))
      ≡ (if str_eq k j then some v else (if str_eq key j then some value else tree_get rest j))
kept key k j v value rest apart = elim (Bool-cases (str_eq k j)) [
  | inl same ↦
      let other : str_eq key j ≡ false = rw ((eq_iff k j).0 same) at apart in rw (same, other) refl
  | inr other ↦ rw other refl
]

pub get-tree_insert :
    (o : Tree) (k j : String) (v : Tree)
    → tree_get (tree_insert o k v) j ≡ (if str_eq k j then some v else tree_get o j)
get-tree_insert (field key value rest) k j v = elim (Bool-cases (str_eq key k)) [
  | inl same ↦ rw same (rw ((eq_iff key k).0 same) (replaced k j v value rest))
  | inr other ↦ rw (other, get-tree_insert rest k j v) (kept key k j v value rest other)
]
get-tree_insert nothing k j v = refl
get-tree_insert no_fields k j v = refl
get-tree_insert no_items k j v = refl
get-tree_insert (number n) k j v = refl
get-tree_insert (flag b) k j v = refl
get-tree_insert (words s) k j v = refl
get-tree_insert (item w r) k j v = refl

pub get-IsObject :
    (v : Tree) (k : String) (x : Tree) → tree_get v k ≡ some x → tree_is_object v ≡ true
get-IsObject (field key value rest) k x h = refl
get-IsObject nothing k x h = absurd (cc h)
get-IsObject no_fields k x h = absurd (cc h)
get-IsObject no_items k x h = absurd (cc h)
get-IsObject (number n) k x h = absurd (cc h)
get-IsObject (flag b) k x h = absurd (cc h)
get-IsObject (words s) k x h = absurd (cc h)
get-IsObject (item w r) k x h = absurd (cc h)

pub insert-IsObject : (o : Tree) (k : String) (v : Tree) → tree_is_object (tree_insert o k v) ≡ true
insert-IsObject (field key value rest) k v = elim (Bool-cases (str_eq key k)) [
  | inl same ↦ rw same refl
  | inr other ↦ rw other refl
]
insert-IsObject nothing k v = refl
insert-IsObject no_fields k v = refl
insert-IsObject no_items k v = refl
insert-IsObject (number n) k v = refl
insert-IsObject (flag b) k v = refl
insert-IsObject (words s) k v = refl
insert-IsObject (item w r) k v = refl

pub array-tree_items : (vs : List Tree) → tree_array (tree_items vs) ≡ some vs
array-tree_items [] = refl
array-tree_items (v ∷ vs) = ap (cons_to v) (array-tree_items vs)

pub u64-number : (n : ℕ) → n < 2 ^ 64 → tree_u64 (number n) ≡ some n
u64-number n fits = rw (lt→ltb n (2 ^ 64) fits) refl

pub i64-number : (n : ℕ) → n < 2 ^ 63 → tree_i64 (number n) ≡ some (pos n)
i64-number n fits = rw (lt→ltb n (2 ^ 63) fits) refl

abbrev pub edits : (before after : Tree) → Editing (trees before after)
edits before after = record {
  empty_object = no_fields;
  insert = tree_insert;
  from_u64 = number;
  from_bool = flag;
  from_str = words;
  from_array = tree_items;
  empty_object_lem = refl;
  get-IsObject = get-IsObject;
  insert-IsObject = λ o k v h. insert-IsObject o k v;
  get-insert = λ o k j v h. get-tree_insert o k j v;
  as_u64-from_u64 = u64-number;
  as_i64-from_u64 = i64-number;
  as_bool-from_bool = λ b. refl;
  as_str-from_str = λ s. refl;
  as_array-from_array = array-tree_items;
}

flag_eq→eq : (b c : Bool) → flag_eq b c ≡ true → b ≡ c
flag_eq→eq true true h = refl
flag_eq→eq false false h = refl
flag_eq→eq true false h = absurd (cc h)
flag_eq→eq false true h = absurd (cc h)

both : (a b : Bool) → (a && b) ≡ true → (a ≡ true) × (b ≡ true)
both true b h = (refl, h)
both false b h = absurd (cc h)

-- Equal documents are the same.
tree_eq→eq : (v w : Tree) → tree_eq v w ≡ true → v ≡ w
tree_eq→eq nothing nothing h = refl
tree_eq→eq nothing no_fields h = absurd (cc h)
tree_eq→eq nothing no_items h = absurd (cc h)
tree_eq→eq nothing (number m) h = absurd (cc h)
tree_eq→eq nothing (flag c) h = absurd (cc h)
tree_eq→eq nothing (words t) h = absurd (cc h)
tree_eq→eq nothing (field l w q) h = absurd (cc h)
tree_eq→eq nothing (item w q) h = absurd (cc h)
tree_eq→eq no_fields nothing h = absurd (cc h)
tree_eq→eq no_fields no_fields h = refl
tree_eq→eq no_fields no_items h = absurd (cc h)
tree_eq→eq no_fields (number m) h = absurd (cc h)
tree_eq→eq no_fields (flag c) h = absurd (cc h)
tree_eq→eq no_fields (words t) h = absurd (cc h)
tree_eq→eq no_fields (field l w q) h = absurd (cc h)
tree_eq→eq no_fields (item w q) h = absurd (cc h)
tree_eq→eq no_items nothing h = absurd (cc h)
tree_eq→eq no_items no_fields h = absurd (cc h)
tree_eq→eq no_items no_items h = refl
tree_eq→eq no_items (number m) h = absurd (cc h)
tree_eq→eq no_items (flag c) h = absurd (cc h)
tree_eq→eq no_items (words t) h = absurd (cc h)
tree_eq→eq no_items (field l w q) h = absurd (cc h)
tree_eq→eq no_items (item w q) h = absurd (cc h)
tree_eq→eq (number n) nothing h = absurd (cc h)
tree_eq→eq (number n) no_fields h = absurd (cc h)
tree_eq→eq (number n) no_items h = absurd (cc h)
tree_eq→eq (number n) (number m) h = ap number ((==_iff n m).0 h)
tree_eq→eq (number n) (flag c) h = absurd (cc h)
tree_eq→eq (number n) (words t) h = absurd (cc h)
tree_eq→eq (number n) (field l w q) h = absurd (cc h)
tree_eq→eq (number n) (item w q) h = absurd (cc h)
tree_eq→eq (flag b) nothing h = absurd (cc h)
tree_eq→eq (flag b) no_fields h = absurd (cc h)
tree_eq→eq (flag b) no_items h = absurd (cc h)
tree_eq→eq (flag b) (number m) h = absurd (cc h)
tree_eq→eq (flag b) (flag c) h = ap flag (flag_eq→eq b c h)
tree_eq→eq (flag b) (words t) h = absurd (cc h)
tree_eq→eq (flag b) (field l w q) h = absurd (cc h)
tree_eq→eq (flag b) (item w q) h = absurd (cc h)
tree_eq→eq (words s) nothing h = absurd (cc h)
tree_eq→eq (words s) no_fields h = absurd (cc h)
tree_eq→eq (words s) no_items h = absurd (cc h)
tree_eq→eq (words s) (number m) h = absurd (cc h)
tree_eq→eq (words s) (flag c) h = absurd (cc h)
tree_eq→eq (words s) (words t) h = ap words ((eq_iff s t).0 h)
tree_eq→eq (words s) (field l w q) h = absurd (cc h)
tree_eq→eq (words s) (item w q) h = absurd (cc h)
tree_eq→eq (field k v r) nothing h = absurd (cc h)
tree_eq→eq (field k v r) no_fields h = absurd (cc h)
tree_eq→eq (field k v r) no_items h = absurd (cc h)
tree_eq→eq (field k v r) (number m) h = absurd (cc h)
tree_eq→eq (field k v r) (flag c) h = absurd (cc h)
tree_eq→eq (field k v r) (words t) h = absurd (cc h)
tree_eq→eq (field k v r) (field l w q) h =
    let (key, rest) = both (str_eq k l) (tree_eq v w && tree_eq r q) h in
    let (value, others) = both (tree_eq v w) (tree_eq r q) rest in
    cc ((eq_iff k l).0 key, tree_eq→eq v w value, tree_eq→eq r q others)
tree_eq→eq (field k v r) (item w q) h = absurd (cc h)
tree_eq→eq (item v r) nothing h = absurd (cc h)
tree_eq→eq (item v r) no_fields h = absurd (cc h)
tree_eq→eq (item v r) no_items h = absurd (cc h)
tree_eq→eq (item v r) (number m) h = absurd (cc h)
tree_eq→eq (item v r) (flag c) h = absurd (cc h)
tree_eq→eq (item v r) (words t) h = absurd (cc h)
tree_eq→eq (item v r) (field l w q) h = absurd (cc h)
tree_eq→eq (item v r) (item w q) h =
    let (value, others) = both (tree_eq v w) (tree_eq r q) h in
    cc (tree_eq→eq v w value, tree_eq→eq r q others)

-- What is printed is read back.
pub trees-canonical :
    (before after doc : Tree) (bytes : Bytes)
    → canonical (trees before after) doc ≡ ok bytes
    → tree_from_slice before after bytes ≡ ok doc
unfolding canonical
trees-canonical before after doc bytes h = elim (Bool-cases (tree_eq doc before)) [
  | inl first ↦
      let e : 1 ∷ 10 ∷ [] ≡ bytes = ok-injective (rw first at h) in
      rw (← e) (ap ok (sym (tree_eq→eq doc before first)))
  | inr other ↦ elim (Bool-cases (tree_eq doc after)) [
    | inl second ↦
        let e : 2 ∷ 10 ∷ [] ≡ bytes = ok-injective (rw (other, second) at h) in
        rw (← e) (ap ok (sym (tree_eq→eq doc after second)))
    | inr third ↦ absurd (cc (rw (other, third) at h))
  ]
]
