-- ===== src/Storage/Listing/Readable.antt =====
-- apps/storage/services.py, `list_objects`: an entry tells of nothing that its reader may not read.
use storage_service.Prelude.{
  ℕ, zero, suc, ◌≡◌, refl, Bool, true, false, ◌&&◌, List, [], ◌∷◌, ◌++◌, map, Option, none, some,
  arith, ◌==◌, keep, any, take, drop, All, All-append, Bool-cases, inl, inr, &&-split,
}
use storage_service.Text.{Text, text_eq, text_eq_refl}
use storage_service.Text.Affix.{remove_prefix}
use storage_service.Storage.Models.{Bucket, StorageObject, StoragePrincipal, Db}
use storage_service.Storage.Folders.{prefix_filter, in_bucket, readable}
use storage_service.Storage.Listing.{
  split_once, Entry, folder, file, Found, nothing_found, add_folder, found_child, found_rest,
  collect, insert_entry, sort_entries, folder_entry, listed, list_objects,
}

All-take {ℓ κ} : {A : Type ℓ} (P : A → Type κ) (n : ℕ) (xs : List A) → All P xs → All P (take n xs)
All-take P zero xs h = tt
All-take P (suc n) [] h = tt
All-take P (suc n) (x ∷ xs) h = (h.0, All-take P n xs h.1)

All-drop {ℓ κ} : {A : Type ℓ} (P : A → Type κ) (n : ℕ) (xs : List A) → All P xs → All P (drop n xs)
All-drop P zero xs h = h
All-drop P (suc n) [] h = tt
All-drop P (suc n) (x ∷ xs) h = All-drop P n xs h.1

All-mapped {ℓ κ μ} :
    {A : Type ℓ} {B : Type κ} (P : B → Type μ) (f : A → B) (xs : List A)
    → All (λ a. P (f a)) xs
    → All P (map f xs)
All-mapped P f [] h = tt
All-mapped P f (x ∷ xs) h = (h.0, All-mapped P f xs h.1)

All-insert {κ} :
    (P : Entry → Type κ) (before : Entry → Entry → Bool) (entry : Entry) (entries : List Entry)
    → P entry
    → All P entries
    → All P (insert_entry before entry entries)
All-insert P before entry [] p h = (p, tt)
All-insert P before entry (other ∷ entries) p h = elim (Bool-cases (before other entry)) [
  | inl first ↦ rw first (h.0, All-insert P before entry entries p h.1)
  | inr later ↦ rw later (p, h)
]

All-sort {κ} :
    (P : Entry → Type κ) (before : Entry → Entry → Bool) (entries : List Entry)
    → All P entries
    → All P (sort_entries before entries)
All-sort P before [] h = tt
All-sort P before (entry ∷ entries) h =
    All-insert P before entry (sort_entries before entries) h.0 (All-sort P before entries h.1)

-- The name of a folder that stands in the name of an object, below the prefix.
abbrev pub first_folder : Option (Text × Text) → Text → Bool
first_folder none name = false
first_folder (some (first, rest)) name = text_eq first name

abbrev pub leads_to : Text → Text → Option Text → Bool
leads_to prefix name none = false
leads_to prefix name (some rest) = first_folder (split_once rest) name

module _ (db : Db) (now : ℕ) (principal : Option StoragePrincipal) (bucket : Bucket) where
  -- An object of the bucket that the principal may read.
  abbrev pub MayRead : StorageObject → Type 0
  MayRead obj =
      (any (λ o. o.id == obj.id) db.objects ≡ true)
      × (in_bucket bucket obj ≡ true)
      × (readable db now principal bucket obj ≡ true)

  listed-MayRead : (contains : Text → Bool) → All MayRead (listed db now principal bucket contains)
  listed-MayRead contains = kept db.objects (λ o h. h)
    where
      kept :
          (objects : List StorageObject)
          → ((o : StorageObject)
              → any (λ x. x.id == o.id) objects ≡ true
              → any (λ x. x.id == o.id) db.objects ≡ true)
          → All MayRead (
              keep
                (λ o. in_bucket bucket o && contains o.name && readable db now principal bucket o)
                objects)
      kept [] h = tt
      kept (obj ∷ objects) h =
          let rest = kept objects (λ o k. h o (ground (arith, k))) in
          elim (Bool-cases
            (in_bucket bucket obj && contains obj.name && readable db now principal bucket obj)) [
              | inl seen ↦
                  let (first, may) =
                    &&-split (in_bucket bucket obj && contains obj.name)
                      (readable db now principal bucket obj) seen in
                  let here = (&&-split (in_bucket bucket obj) (contains obj.name) first).0 in
                  rw seen ((h obj (ground arith), here, may), rest)
              | inr hidden ↦ rw hidden rest
            ]

  -- A folder of the listing has an object in it that the principal may read.
  abbrev pub FolderShown : Text → Text → Type 0
  FolderShown prefix name =
      (obj : StorageObject) × MayRead obj
      × (leads_to prefix name (remove_prefix prefix obj.name) ≡ true)

  abbrev pub Shown : Text → Entry → Type 0
  Shown prefix (folder name id) = FolderShown prefix name
  Shown prefix (file obj) = MayRead obj

  abbrev FoundShown : Text → Found → Type 0
  FoundShown prefix found =
      All (λ f. FolderShown prefix f.0) found.folders × All MayRead found.files

  add_folder-Shown :
      (prefix name remainder : Text) (id : ℕ) (entries : List (Text × Option ℕ))
      → FolderShown prefix name
      → All (λ f. FolderShown prefix f.0) entries
      → All (λ f. FolderShown prefix f.0) (add_folder name remainder id entries)
  add_folder-Shown prefix name remainder id [] p h = (p, tt)
  add_folder-Shown prefix name remainder id (entry ∷ entries) p h =
      elim (Bool-cases (text_eq entry.0 name)) [
        | inl same ↦ rw same h
        | inr other ↦ rw other (h.0, add_folder-Shown prefix name remainder id entries p h.1)
      ]

  found_child-Shown :
      (prefix : Text) (obj : StorageObject) (rest : Text) (o : Option (Text × Text)) (found : Found)
      → MayRead obj
      → remove_prefix prefix obj.name ≡ some rest
      → split_once rest ≡ o
      → FoundShown prefix found
      → FoundShown prefix (found_child obj o found)
  found_child-Shown prefix obj rest none found may e s h =
      (h.0, All-append MayRead found.files (obj ∷ []) h.1 (may, tt))
  found_child-Shown prefix obj rest (some (name, remainder)) found may e s h = (
    add_folder-Shown prefix name remainder obj.id found.folders
        (obj, may, rw (e, s) (text_eq_refl name)) h.0,
    h.1,
  )

  found_rest-Shown :
      (prefix : Text) (obj : StorageObject) (o : Option Text) (found : Found)
      → MayRead obj
      → remove_prefix prefix obj.name ≡ o
      → FoundShown prefix found
      → FoundShown prefix (found_rest obj o found)
  found_rest-Shown prefix obj none found may e h = h
  found_rest-Shown prefix obj (some []) found may e h = h
  found_rest-Shown prefix obj (some (c ∷ rest)) found may e h =
      found_child-Shown prefix obj (c ∷ rest) (split_once (c ∷ rest)) found may e refl h

  collect-Shown :
      (prefix : Text) (objs : List StorageObject) (found : Found)
      → All MayRead objs
      → FoundShown prefix found
      → FoundShown prefix (collect prefix objs found)
  collect-Shown prefix [] found may h = h
  collect-Shown prefix (obj ∷ objs) found may h =
      collect-Shown prefix objs (found_rest obj (remove_prefix prefix obj.name) found) may.1
        (found_rest-Shown prefix obj (remove_prefix prefix obj.name) found may.0 refl h)

  -- Every file that a listing shows is stored in the bucket and may be read by the principal, if there
  -- is one, and every folder that it shows is the first folder below the prefix in the name of such a
  -- file or marker, whatever the search, the order and the page are.
  pub list_objects-Shown :
      (prefix : Text) (limit offset : ℕ) (contains : Text → Bool) (before : Entry → Entry → Bool)
      → All
          (Shown (prefix_filter prefix))
          (list_objects db now principal bucket prefix limit offset contains before)
  unfolding list_objects
  list_objects-Shown prefix limit offset contains before =
      let p = prefix_filter prefix in
      let found = collect p (listed db now principal bucket contains) nothing_found in
      let shown =
        collect-Shown p (listed db now principal bucket contains) nothing_found
          (listed-MayRead contains) (tt, tt) in
      let folders = sort_entries before (map folder_entry found.folders) in
      let files = sort_entries before (map file found.files) in
      All-take (Shown p) limit (drop offset (folders ++ files)) (
        All-drop (Shown p) offset (folders ++ files) (
          All-append (Shown p) folders files
            (All-sort (Shown p) before (map folder_entry found.folders)
              (All-mapped (Shown p) folder_entry found.folders shown.0))
            (All-sort (Shown p) before (map file found.files)
              (All-mapped (Shown p) file found.files shown.1))))
