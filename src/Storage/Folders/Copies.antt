-- ===== src/Storage/Folders/Copies.antt =====
-- `copy_object`: the usage counter of a company against the sizes of its objects.
use storage_service.Prelude.{ℕ, refl, Option, none, ◌==◌}
use storage_service.Prelude.Outcome.{
  check, ◌>>=◌, ◌>>◌, Ensures-bind, Ensures-check, atomic-Ensures,
}
use storage_service.Text.{Text, codes}
use storage_service.Storage.Models.{Bucket, StorageObject, Db}
use storage_service.Storage.Errors.{Call, storage_error}
use storage_service.Storage.Objects.{Platform, admit, store_object}
use storage_service.Storage.Objects.Balance.{Balanced}
use storage_service.Storage.Objects.Stores.{Ready, admitted, stores}
use storage_service.Storage.Folders.{found_object, check_free, copy_of, copy_object}
use storage_service.Storage.Folders.Keeps.{
  Keeps, found-Keeps, check_free-Keeps, bind-Keeps, paths-Keeps,
}

-- A copy leaves the counter of its company equal to the sum of the sizes of the company's objects,
-- also where it fails.
pub copy_object-Balanced :
    (platform : Platform) (fresh : ℕ → ℕ) (now : ℕ) (bucket : Bucket) (source_path : Text)
    (dest : Bucket) (dest_path : Text) (owner_id : Option ℕ) (db : Db)
    → Balanced platform dest.company_id db
    → Balanced platform dest.company_id
        (copy_object platform fresh now bucket source_path dest dest_path owner_id db).1
unfolding copy_object
copy_object-Balanced platform fresh now bucket source_path dest dest_path owner_id =
    atomic-Ensures (Balanced platform c) (Balanced platform c) _
      (paths-Keeps platform c source_path dest_path
        (λ source name.
          found_object bucket source >>= λ src. check_free dest name >> copied src name)
        (λ source name.
          bind-Keeps platform c (found_object bucket source)
            (λ src. check_free dest name >> copied src name)
            (found-Keeps (Balanced platform c) bucket source)
            (λ src.
              bind-Keeps platform c (check_free dest name) (λ _. copied src name)
                (check_free-Keeps (Balanced platform c) dest name) (λ _. copied-Keeps src name))))
      (λ s h. h)
  where
    c : ℕ
    c = dest.company_id

    weighed : StorageObject → Text → Call StorageObject
    weighed src name =
        admit platform c owner_id src.size 0
        >> store_object platform fresh now dest (copy_of platform (fresh 0) dest name owner_id src)
            (platform.open_blob src.storage_key)

    copied : StorageObject → Text → Call StorageObject
    copied src name =
        check (bucket.company_id == dest.company_id) (storage_error 403 (codes "forbidden")) tt
        >> weighed src name

    copied-Keeps :
        (src : StorageObject) (name : Text) → Keeps (Balanced platform c) (copied src name)
    copied-Keeps src name =
        bind-Keeps platform c
          (check (bucket.company_id == dest.company_id) (storage_error 403 (codes "forbidden")) tt)
          (λ _. weighed src name) (Ensures-check (Balanced platform c) _ _ tt)
          (λ _ s t a balanced e.
            Ensures-bind (Ready platform dest none) (λ _. Ready platform dest none)
              (λ _. Balanced platform c) (admit platform c owner_id src.size 0)
              (λ _.
                store_object platform fresh now dest
                  (copy_of platform (fresh 0) dest name owner_id src)
                  (platform.open_blob src.storage_key))
              (admitted platform dest none owner_id src.size 0)
              (λ _.
                stores platform dest fresh now (copy_of platform (fresh 0) dest name owner_id src)
                  (platform.open_blob src.storage_key) refl)
              s t a (balanced, tt) e)
