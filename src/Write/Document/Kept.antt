-- ===== src/Write/Document/Kept.antt =====
-- `patch_document` (src/write.rs) keeps the numbers of disks and partitions that the document
-- declares.
use Prim.Native.String.{String}
use mrimgx_consolidate.Base.{
  ℕ, suc, ◌≡◌, ◌∙◌, refl, sym, ap, subst, List, [], ◌∷◌, some-eq, length, ◌==◌, Result, ok, or_err,
  >>=-eq_ok, ensure-eq_ok, or_err-eq_ok, ok-injective, no_disks_array, no_partitions_array,
  no_definition, disk_count_differs,
}
use mrimgx_consolidate.Base.Bytes.{Bytes}
use mrimgx_consolidate.Json.{Documents, and_then, as_object}
use mrimgx_consolidate.Json.Editing.{Editing}
use mrimgx_consolidate.Reader.{BackupFile, shape}
use mrimgx_consolidate.Set.{BackupSet, base}
use mrimgx_consolidate.Plan.{MergeKind, synthetic_full, incremental_merge, MergePlan}
use mrimgx_consolidate.Write.Document.{
  object_mut, replace, header_values, set_backup_type, patch_header, patch_each, patch_partition,
  patch_disk, patch_partitions, patch_definition, patch_auxiliary_data, disk_sizes, set_disk_size,
  set_disk_sizes, patch_disk_sizes, patch_sizes_of,
}
use mrimgx_consolidate.Write.Document.Whole.{IsPatched}
use mrimgx_consolidate.Write.Document.Shape.{
  HasPartitions-insert, HasShape-insert, HasShape-disks, HasShape-shape, shape-HasShape,
  get_array-eq_ok, HasPartitions, AllHave, HasShape,
}

module _ (J : Documents) (E : Editing J) (md5 : Bytes → Bytes)
    (decode_all : Bytes → Result Bytes) where
  open J use {Value, get, is_object, as_array}
  open E use {
    insert, from_str, from_array, insert-IsObject, get-IsObject, get-insert, as_array-from_array,
  }

  length-patch_each :
      (change : Value → Result Value) (vs vs' : List Value)
      → patch_each J E change vs ≡ ok vs'
      → length vs' ≡ length vs
  unfolding patch_each
  length-patch_each change [] vs' h = ap length (sym (ok-injective h))
  length-patch_each change (v ∷ vs) vs' h =
      let (v', now, h1) = >>=-eq_ok (change v) _ h in
      let (rest, later, h2) = >>=-eq_ok (patch_each J E change vs) _ h1 in
      ap length (sym (ok-injective h2)) ∙ ap suc (length-patch_each change vs rest later)

  patch_disk-HasPartitions :
      (plan : MergePlan) (output_name : String) (disk disk' : Value) (n : ℕ)
      → HasPartitions J E md5 decode_all disk n
      → patch_disk J E plan output_name disk ≡ ok disk'
      → HasPartitions J E md5 decode_all disk' n
  unfolding patch_disk
  patch_disk-HasPartitions plan output_name disk disk' n (x, parts, here, array, size) h =
      let (parts1, e, h1) =
        >>=-eq_ok (or_err (and_then (get disk "partitions") as_array) no_partitions_array) _ h in
      let (x1, here1, array1) =
        get_array-eq_ok J E md5 decode_all disk "partitions" parts1
          (or_err-eq_ok (and_then (get disk "partitions") as_array) no_partitions_array e) in
      let (parts', patched, h2) =
        >>=-eq_ok (patch_each J E (patch_partition J E plan output_name) parts1) _ h1 in
      let same_x : x1 ≡ x = some-eq (sym here1 ∙ here) in
      let same : parts1 ≡ parts = some-eq (sym array1 ∙ (ap as_array same_x ∙ array)) in
      subst (λ d. HasPartitions J E md5 decode_all d n) (ok-injective h2)
        (
          from_array parts',
          parts',
          get-insert disk "partitions" "partitions" (from_array parts')
              (get-IsObject disk "partitions" x here),
          as_array-from_array parts',
          length-patch_each (patch_partition J E plan output_name) parts1 parts' patched
              ∙ (ap length same ∙ size),
        )

  patch_each-AllHave :
      (plan : MergePlan) (output_name : String) (ds ds' : List Value) (ns : List ℕ)
      → AllHave J E md5 decode_all ds ns
      → patch_each J E (patch_disk J E plan output_name) ds ≡ ok ds'
      → AllHave J E md5 decode_all ds' ns
  unfolding patch_each
  patch_each-AllHave plan output_name [] ds' [] all h =
      subst (λ l. AllHave J E md5 decode_all l []) (ok-injective h) tt
  patch_each-AllHave plan output_name [] ds' (n ∷ ns) all h = absurd all
  patch_each-AllHave plan output_name (d ∷ ds) ds' [] all h = absurd all
  patch_each-AllHave plan output_name (d ∷ ds) ds' (n ∷ ns) (one, all) h =
      let (d', now, h1) = >>=-eq_ok (patch_disk J E plan output_name d) _ h in
      let (rest, later, h2) =
        >>=-eq_ok (patch_each J E (patch_disk J E plan output_name) ds) _ h1 in
      subst (λ l. AllHave J E md5 decode_all l (n ∷ ns)) (ok-injective h2)
        (
          patch_disk-HasPartitions plan output_name d d' n one now,
          patch_each-AllHave plan output_name ds rest ns all later,
        )

  pub patch_partitions-HasShape :
      (plan : MergePlan) (output_name : String) (doc doc' : Value) (ns : List ℕ)
      → HasShape J E md5 decode_all doc ns
      → patch_partitions J E doc plan output_name ≡ ok doc'
      → HasShape J E md5 decode_all doc' ns
  unfolding patch_partitions
  patch_partitions-HasShape plan output_name doc doc' ns (x, disks, here, array, all) h =
      let (disks1, e, h1) =
        >>=-eq_ok (or_err (and_then (get doc "disks") as_array) no_disks_array) _ h in
      let (x1, here1, array1) =
        get_array-eq_ok J E md5 decode_all doc "disks" disks1
          (or_err-eq_ok (and_then (get doc "disks") as_array) no_disks_array e) in
      let same_x : x1 ≡ x = some-eq (sym here1 ∙ here) in
      let same : disks ≡ disks1 = some-eq (sym array ∙ (ap as_array (sym same_x) ∙ array1)) in
      let (disks', patched, h2) =
        >>=-eq_ok (patch_each J E (patch_disk J E plan output_name) disks1) _ h1 in
      subst (λ d. HasShape J E md5 decode_all d ns) (ok-injective h2)
        (HasShape-disks J E md5 decode_all doc x disks' ns here (
          patch_each-AllHave plan output_name disks1 disks' ns
            (subst (λ l. AllHave J E md5 decode_all l ns) same all) patched))

  set_disk_sizes-AllHave :
      (ds sizes ds' : List Value) (ns : List ℕ)
      → AllHave J E md5 decode_all ds ns
      → set_disk_sizes J E ds sizes ≡ ok ds'
      → AllHave J E md5 decode_all ds' ns
  unfolding set_disk_sizes set_disk_size
  set_disk_sizes-AllHave [] sizes ds' ns all h =
      subst (λ l. AllHave J E md5 decode_all l ns) (ok-injective h) all
  set_disk_sizes-AllHave (d ∷ ds) [] ds' ns all h =
      subst (λ l. AllHave J E md5 decode_all l ns) (ok-injective h) all
  set_disk_sizes-AllHave (d ∷ ds) (size ∷ sizes) ds' [] all h = absurd all
  set_disk_sizes-AllHave (d ∷ ds) (size ∷ sizes) ds' (n ∷ ns) (one, all) h =
      let (d', now, h1) = >>=-eq_ok (set_disk_size J E d size) _ h in
      let (geometry, e, h2) = >>=-eq_ok (object_mut J E d "_geometry") _ now in
      let (rest, later, h3) = >>=-eq_ok (set_disk_sizes J E ds sizes) _ h1 in
      subst (λ l. AllHave J E md5 decode_all l (n ∷ ns)) (ok-injective h3)
        (
          subst (λ q. HasPartitions J E md5 decode_all q n) (ok-injective h2)
              (HasPartitions-insert J E md5 decode_all d "_geometry"
                (insert geometry "disk_size" size) n refl one),
          set_disk_sizes-AllHave ds sizes rest ns all later,
        )

  pub patch_disk_sizes-HasShape :
      (doc base_doc doc' : Value) (ns : List ℕ)
      → HasShape J E md5 decode_all doc ns
      → patch_disk_sizes J E doc base_doc ≡ ok doc'
      → HasShape J E md5 decode_all doc' ns
  unfolding patch_disk_sizes
  patch_disk_sizes-HasShape doc base_doc doc' ns (x, disks, here, array, all) h =
      let (base_disks, e, h1) =
        >>=-eq_ok (or_err (and_then (get base_doc "disks") as_array) no_disks_array) _ h in
      let (sizes, e1, h2) = >>=-eq_ok (disk_sizes J E base_disks) _ h1 in
      let (disks1, e2, h3) =
        >>=-eq_ok (or_err (and_then (get doc "disks") as_array) no_disks_array) _ h2 in
      let (x1, here1, array1) =
        get_array-eq_ok J E md5 decode_all doc "disks" disks1
          (or_err-eq_ok (and_then (get doc "disks") as_array) no_disks_array e2) in
      let same_x : x1 ≡ x = some-eq (sym here1 ∙ here) in
      let same : disks ≡ disks1 = some-eq (sym array ∙ (ap as_array (sym same_x) ∙ array1)) in
      let (as_many, h4) = ensure-eq_ok (length disks1 == length sizes) disk_count_differs _ h3 in
      let (disks', e3, h5) = >>=-eq_ok (set_disk_sizes J E disks1 sizes) _ h4 in
      subst (λ d. HasShape J E md5 decode_all d ns) (ok-injective h5)
        (HasShape-disks J E md5 decode_all doc x disks' ns here (
          set_disk_sizes-AllHave disks1 sizes disks' ns
            (subst (λ l. AllHave J E md5 decode_all l ns) same all) e3))

  patch_sizes_of-HasShape :
      (kind : MergeKind) (s : BackupSet Value) (doc doc' : Value) (ns : List ℕ)
      → HasShape J E md5 decode_all doc ns
      → patch_sizes_of J E kind s doc ≡ ok doc'
      → HasShape J E md5 decode_all doc' ns
  unfolding patch_sizes_of
  patch_sizes_of-HasShape synthetic_full s doc doc' ns all h =
      let (full_file, e, h1) = >>=-eq_ok (base s) _ h in
      patch_disk_sizes-HasShape doc full_file.json doc' ns all h1
  patch_sizes_of-HasShape incremental_merge s doc doc' ns all h =
      subst (λ d. HasShape J E md5 decode_all d ns) (ok-injective h) all

  patch_header-HasShape :
      (plan : MergePlan) (index_file_position : ℕ) (doc doc' : Value) (ns : List ℕ)
      → HasShape J E md5 decode_all doc ns
      → patch_header J E doc plan index_file_position ≡ ok doc'
      → HasShape J E md5 decode_all doc' ns
  unfolding patch_header
  patch_header-HasShape plan index_file_position doc doc' ns all h =
      let (o, e, h1) = >>=-eq_ok (object_mut J E doc "_header") _ h in
      subst (λ d. HasShape J E md5 decode_all d ns) (ok-injective h1)
        (HasShape-insert J E md5 decode_all doc "_header"
          (set_backup_type J E plan.kind (header_values J E plan index_file_position o)) ns refl
          all)

  patch_auxiliary_data-HasShape :
      (plan : MergePlan) (output_name : String) (doc doc' : Value) (ns : List ℕ)
      → HasShape J E md5 decode_all doc ns
      → patch_auxiliary_data J E doc plan output_name ≡ ok doc'
      → HasShape J E md5 decode_all doc' ns
  unfolding patch_auxiliary_data
  patch_auxiliary_data-HasShape plan output_name doc doc' ns all h =
      let (aux, e, h1) = >>=-eq_ok (object_mut J E doc "_auxiliary_data") _ h in
      let changed = replace J E aux "destination" (from_str output_name) in
      let (definition, e', h2) =
        >>=-eq_ok (or_err (and_then (get changed "backup_definition") (as_object J)) no_definition)
          _ h1 in
      subst (λ d. HasShape J E md5 decode_all d ns) (ok-injective h2)
        (HasShape-insert J E md5 decode_all doc "_auxiliary_data"
          (insert changed "backup_definition" (patch_definition J E plan output_name definition)) ns
          refl all)

  -- The patched document declares the disks and partitions of the To file's.
  pub IsPatched-shape :
      (s : BackupSet Value) (plan : MergePlan) (index_file_position : ℕ) (output_name : String)
      (to : BackupFile Value) (bytes : Bytes) (ns : List ℕ)
      → shape J md5 decode_all to.json ≡ ok ns
      → (d : IsPatched J E s plan index_file_position output_name to bytes)
      → shape J md5 decode_all d.doc4 ≡ ok ns
  IsPatched-shape s plan index_file_position output_name to bytes ns declared d =
      let h1 =
        patch_header-HasShape plan index_file_position to.json d.doc1 ns
          (shape-HasShape J E md5 decode_all to.json ns declared) d.header in
      let h2 = patch_partitions-HasShape plan output_name d.doc1 d.doc2 ns h1 d.partitions in
      let h3 = patch_auxiliary_data-HasShape plan output_name d.doc2 d.doc3 ns h2 d.auxiliary in
      HasShape-shape J E md5 decode_all d.doc4 ns
        (patch_sizes_of-HasShape plan.kind s d.doc3 d.doc4 ns h3 d.sizes)
