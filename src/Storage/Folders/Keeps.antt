-- ===== src/Storage/Folders/Keeps.antt =====
-- The usage counter of a company through the calls of `copy_object` that change nothing.
use storage_service.Prelude.{ℕ, not, Option, none, some}
use storage_service.Prelude.Outcome.{
  gets, check, ◌>>=◌, Ensures, Ensures-bind, Ensures-check, Ensures-pure, Ensures-fail,
  Ensures-gets,
}
use storage_service.Text.{Text, codes}
use storage_service.Storage.Models.{Bucket, Db}
use storage_service.Storage.Errors.{Call, storage_error, value_error}
use storage_service.Storage.Paths
use storage_service.Storage.Paths.{PathResult, safe_object_path}
use storage_service.Storage.Resolve.{safe_path, or_not_found}
use storage_service.Storage.Objects.{Platform, existing_object}
use storage_service.Storage.Objects.Balance.{Balanced}
use storage_service.Storage.Folders.{found_object, check_free, exists_named}

-- A call that keeps P.
abbrev pub Keeps : {A : Type 0} → (Db → Type 0) → Call A → Type 0
Keeps P m = Ensures P m (λ _. P)

module _ (P : Db → Type 0) where
  pub path-Keeps : (r : PathResult) → Keeps P (safe_path r)
  path-Keeps (Paths.ok name) = Ensures-pure P name
  path-Keeps (Paths.err e) = Ensures-fail P (λ _. P) (value_error e)

  pub or_not_found-Keeps : {A : Type 0} (code : Text) (o : Option A) → Keeps P (or_not_found code o)
  or_not_found-Keeps code none = Ensures-fail P (λ _. P) (storage_error 404 code)
  or_not_found-Keeps code (some a) = Ensures-pure P a

  pub gets-Keeps : {A : Type 0} (f : Db → A) → Keeps P (gets f)
  gets-Keeps f = Ensures-gets P (λ _. P) f (λ s p. p)

  pub found-Keeps : (bucket : Bucket) (name : Text) → Keeps P (found_object bucket name)
  found-Keeps bucket name =
      Ensures-bind P (λ _. P) (λ _. P) (existing_object bucket name)
        (or_not_found (codes "object_not_found")) (gets-Keeps _)
        (or_not_found-Keeps (codes "object_not_found"))

  pub check_free-Keeps : (bucket : Bucket) (name : Text) → Keeps P (check_free bucket name)
  check_free-Keeps bucket name =
      Ensures-bind P (λ _. P) (λ _. P) (gets (λ db. exists_named db bucket name))
        (λ taken. check (not taken) (storage_error 400 (codes "resource_already_exists")) tt)
        (gets-Keeps _) (λ taken. Ensures-check P _ _ tt)

module _ (platform : Platform) (c : ℕ) where
  -- A bind of calls that keep the balance.
  pub bind-Keeps :
      {A B : Type 0} (m : Call A) (f : A → Call B)
      → Keeps (Balanced platform c) m
      → ((a : A) → Keeps (Balanced platform c) (f a))
      → Keeps (Balanced platform c) (m >>= f)
  bind-Keeps m f hm hf =
      Ensures-bind (Balanced platform c) (λ _. Balanced platform c) (λ _. Balanced platform c) m f
        hm hf

  -- Two paths of a request, and what it does with them.
  pub paths-Keeps :
      {A : Type 0} (source dest : Text) (f : Text → Text → Call A)
      → ((src dst : Text) → Keeps (Balanced platform c) (f src dst))
      → Keeps (Balanced platform c) (
          safe_path (safe_object_path source) >>= λ src.
          safe_path (safe_object_path dest) >>= λ dst. f src dst)
  paths-Keeps source dest f h =
      bind-Keeps (safe_path (safe_object_path source))
        (λ src. safe_path (safe_object_path dest) >>= λ dst. f src dst)
        (path-Keeps (Balanced platform c) (safe_object_path source))
        (λ src.
          bind-Keeps (safe_path (safe_object_path dest)) (f src)
            (path-Keeps (Balanced platform c) (safe_object_path dest)) (h src))
