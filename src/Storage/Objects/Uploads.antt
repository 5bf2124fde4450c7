-- ===== src/Storage/Objects/Uploads.antt =====
-- `upload_object`: the usage counter of a company against the sizes of its objects.
use storage_service.Prelude.{ℕ, refl, Bool, not, ◌||◌, List, Option, none, some, is_some, length}
use storage_service.Prelude.Outcome.{
  Ensures, Ensures-bind, Ensures-check, Ensures-pure, Ensures-fail, Ensures-gets, atomic-Ensures,
  ◌>>=◌, ◌>>◌, check,
}
use storage_service.Text.{Text, codes}
use storage_service.Storage.Models.{Bucket, StorageObject, Db}
use storage_service.Storage.Errors.{Call, storage_error, value_error}
use storage_service.Storage.Paths
use storage_service.Storage.Paths.{PathResult, safe_object_path}
use storage_service.Storage.Defaults.{}
use storage_service.Storage.Resolve.{safe_path}
use storage_service.Storage.Objects.{
  Platform, Blob, upload_object, read_upload_bytes, upload_limit, existing_object,
  with_cache_control, admit, write_object, size_of,
}
use storage_service.Storage.Mime.{mime_allowed, normalize_mime_type}
use storage_service.Storage.Objects.Balance.{Balanced}
use storage_service.Storage.Objects.Stores.{Keyed, Ready, found-Fits, admitted, overwrites, stores}

module _ (platform : Platform) (bucket : Bucket) where
  -- The steps of `upload_object`, each with all that follows it.
  module _ (fresh : ℕ → ℕ) (now : ℕ) (content : Blob) (owner_id : Option ℕ)
      (content_type : Option Text) (upsert : Bool) (metadata : List (Text × Text)) where
    abbrev written : Text → Text → Option StorageObject → Blob → Call StorageObject
    written name mime existing bytes =
        write_object platform fresh now bucket name bytes owner_id mime metadata existing

    abbrev weighed : Text → Text → Option StorageObject → Blob → Call StorageObject
    weighed name mime existing bytes =
        admit platform bucket.company_id owner_id (length bytes) (size_of existing)
        >> written name mime existing bytes

    abbrev loaded : Text → Text → Option StorageObject → Call StorageObject
    loaded name mime existing =
        read_upload_bytes content (upload_limit platform.max_upload_bytes bucket.file_size_limit)
        >>= weighed name mime existing

    abbrev looked_up : Text → Text → Option StorageObject → Call StorageObject
    looked_up name mime existing =
        check (not (is_some existing) || upsert)
          (storage_error 400 (codes "resource_already_exists")) tt
        >> loaded name mime existing

    abbrev typed : Text → Text → Call StorageObject
    typed name mime = existing_object bucket name >>= looked_up name mime

    abbrev named : Text → Call StorageObject
    named name =
        let mime = normalize_mime_type platform.lower platform.guess_mime_type content_type name in
        check (mime_allowed platform.lower mime bucket.allowed_mime_types)
          (storage_error 415 (codes "invalid_mime_type")) tt
        >> typed name mime

    abbrev Start : Db → Type 0
    Start db = Balanced platform bucket.company_id db × Keyed platform bucket db

    abbrev End : StorageObject → Db → Type 0
    End obj = Balanced platform bucket.company_id

    written-Balanced :
        (name mime : Text) (existing : Option StorageObject) (bytes : Blob)
        → Ensures (Ready platform bucket existing) (written name mime existing bytes) End
    written-Balanced name mime none bytes = stores platform bucket fresh now _ bytes refl
    written-Balanced name mime (some o) bytes =
        overwrites platform bucket o bytes owner_id mime metadata

    looked_up-Balanced :
        (name mime : Text) (existing : Option StorageObject)
        → Ensures (Ready platform bucket existing) (looked_up name mime existing) End
    looked_up-Balanced name mime existing =
        Ensures-bind (Ready platform bucket existing) (λ _. Ready platform bucket existing) End _
          (λ _. loaded name mime existing) (Ensures-check (Ready platform bucket existing) _ _ tt)
          (λ _.
            Ensures-bind (Ready platform bucket existing) (λ _. Ready platform bucket existing) End
              _ (weighed name mime existing) (Ensures-check (Ready platform bucket existing) _ _ _)
              (λ bytes.
                Ensures-bind (Ready platform bucket existing) (λ _. Ready platform bucket existing)
                  End _ (λ _. written name mime existing bytes)
                  (admitted platform bucket existing owner_id (length bytes) (size_of existing))
                  (λ _. written-Balanced name mime existing bytes)))

    named-Balanced : (name : Text) → Ensures Start (named name) End
    named-Balanced name =
        let mime = normalize_mime_type platform.lower platform.guess_mime_type content_type name in
        Ensures-bind Start (λ _. Start) End _ (λ _. typed name mime) (Ensures-check Start _ _ tt)
          (λ _.
            Ensures-bind Start (Ready platform bucket) End _ (looked_up name mime)
              (Ensures-gets Start (Ready platform bucket) _
                (λ s h. (h.0, found-Fits platform bucket name s h.1)))
              (looked_up-Balanced name mime))

    path-Ensures : (r : PathResult) → Ensures Start (safe_path r) (λ _. Start)
    path-Ensures (Paths.ok name) = Ensures-pure Start name
    path-Ensures (Paths.err e) = Ensures-fail Start (λ _. Start) (value_error e)

  -- Where the objects of a bucket have unique keys and the company of the bucket: an upload, also
  -- one that overwrites platform bucket an object and one that fails, keeps the counter of the bucket's company
  -- equal to the sum of the sizes of its objects.
  pub upload_object-Balanced :
      (fresh : ℕ → ℕ) (now : ℕ) (path : Text) (content : Blob) (owner_id : Option ℕ)
      (content_type : Option Text) (upsert : Bool) (metadata : List (Text × Text))
      (cache_control : Option Text) (db : Db)
      → Keyed platform bucket db
      → Balanced platform bucket.company_id db
      → Balanced platform bucket.company_id
          (upload_object platform fresh now bucket path content owner_id content_type upsert
            metadata cache_control db).1
  unfolding upload_object
  upload_object-Balanced fresh now path content owner_id content_type upsert metadata cache_control
        db keyed balanced =
      let meta = with_cache_control metadata cache_control in
      atomic-Ensures (λ d. Balanced platform bucket.company_id d × Keyed platform bucket d)
        (Balanced platform bucket.company_id)
        (safe_path (safe_object_path path)
          >>= named fresh now content owner_id content_type upsert meta)
        (Ensures-bind _ (λ _ d. Balanced platform bucket.company_id d × Keyed platform bucket d) _ _
          _
          (path-Ensures fresh now content owner_id content_type upsert meta (safe_object_path path))
          (named-Balanced fresh now content owner_id content_type upsert meta))
        (λ s h. h.0) db (balanced, keyed)
