-- ===== src/Actions/Redaction/Clean.antt =====
-- apps/actions/secret_redaction.py: what redaction leaves, and what it leaves alone.
use storage_service.Prelude.{
  ℕ, ◌≡◌, refl, ap, false, Option, none, some, if◌then◌else◌, inl, inr, Bool-cases,
}
use storage_service.Text.{Text}
use storage_service.Json.{
  Json, null, bool, number, text, array, object, Items, nil, cons, Fields, end, field,
}
use storage_service.Actions.Redaction.{
  sensitive_key, sensitive_string, and_item, and_field, without_secrets, items_without_secrets,
  fields_without_secrets, or_blank, redact_secrets,
}

module _ (lower : Text → Text) (fold : ℕ → ℕ) where
  -- No key of a dictionary in the value is sensitive, and no text in it.
  unfoldable mutual
    pub Clean : Json → Type 0
    Clean null = Unit
    Clean (bool b) = Unit
    Clean (number n) = Unit
    Clean (text s) = sensitive_string fold s ≡ false
    Clean (array items) = CleanItems items
    Clean (object fields) = CleanFields fields

    pub CleanItems : Items → Type 0
    CleanItems nil = Unit
    CleanItems (cons item rest) = Clean item × CleanItems rest

    pub CleanFields : Fields → Type 0
    CleanFields end = Unit
    CleanFields (field key item rest) =
        (sensitive_key lower key ≡ false) × Clean item × CleanFields rest

  abbrev CleanOption : Option Json → Type 0
  CleanOption none = Unit
  CleanOption (some value) = Clean value

  text-Clean : (s : Text) → CleanOption (if sensitive_string fold s then none else some (text s))
  unfolding Clean
  text-Clean s = elim (Bool-cases (sensitive_string fold s)) [
    | inl secret ↦ rw secret tt
    | inr plain ↦ rw plain plain
  ]

  and_item-Clean :
      (o : Option Json) (items : Items)
      → CleanOption o
      → CleanItems items
      → CleanItems (and_item o items)
  unfolding Clean
  and_item-Clean none items h k = k
  and_item-Clean (some item) items h k = (h, k)

  and_field-Clean :
      (key : Text) (o : Option Json) (fields : Fields)
      → CleanOption o
      → CleanFields fields
      → CleanFields (if sensitive_key lower key then fields else and_field key o fields)
  unfolding Clean
  and_field-Clean key none fields h k = elim (Bool-cases (sensitive_key lower key)) [
    | inl secret ↦ rw secret k
    | inr plain ↦ rw plain k
  ]
  and_field-Clean key (some item) fields h k = elim (Bool-cases (sensitive_key lower key)) [
    | inl secret ↦ rw secret k
    | inr plain ↦ rw plain (plain, h, k)
  ]

  mutual
    unfolding Clean without_secrets

    without_secrets-Clean : (value : Json) → CleanOption (without_secrets lower fold value)
    without_secrets-Clean null = tt
    without_secrets-Clean (bool b) = tt
    without_secrets-Clean (number n) = tt
    without_secrets-Clean (text s) = text-Clean s
    without_secrets-Clean (array items) = items_without_secrets-Clean items
    without_secrets-Clean (object fields) = fields_without_secrets-Clean fields

    items_without_secrets-Clean :
        (items : Items) → CleanItems (items_without_secrets lower fold items)
    items_without_secrets-Clean nil = tt
    items_without_secrets-Clean (cons item rest) =
        and_item-Clean (without_secrets lower fold item) (items_without_secrets lower fold rest)
          (without_secrets-Clean item) (items_without_secrets-Clean rest)

    fields_without_secrets-Clean :
        (fields : Fields) → CleanFields (fields_without_secrets lower fold fields)
    fields_without_secrets-Clean end = tt
    fields_without_secrets-Clean (field key item rest) =
        and_field-Clean key (without_secrets lower fold item)
          (fields_without_secrets lower fold rest) (without_secrets-Clean item)
          (fields_without_secrets-Clean rest)

  or_blank-Clean : (value : Json) (o : Option Json) → CleanOption o → Clean (or_blank value o)
  unfolding Clean sensitive_string
  or_blank-Clean value (some cleaned) h = h
  or_blank-Clean (object fields) none h = tt
  or_blank-Clean (array items) none h = tt
  or_blank-Clean null none h = refl
  or_blank-Clean (bool b) none h = refl
  or_blank-Clean (number n) none h = refl
  or_blank-Clean (text s) none h = refl

  mutual
    unfolding Clean without_secrets

    Clean-without_secrets :
        (value : Json) → Clean value → without_secrets lower fold value ≡ some value
    Clean-without_secrets null h = refl
    Clean-without_secrets (bool b) h = refl
    Clean-without_secrets (number n) h = refl
    Clean-without_secrets (text s) h = rw h refl
    Clean-without_secrets (array items) h = ap (λ i. some (array i)) (Clean-items items h)
    Clean-without_secrets (object fields) h = ap (λ i. some (object i)) (Clean-fields fields h)

    Clean-items :
        (items : Items) → CleanItems items → items_without_secrets lower fold items ≡ items
    Clean-items nil h = refl
    Clean-items (cons item rest) h = rw (Clean-without_secrets item h.0, Clean-items rest h.1) refl

    Clean-fields :
        (fields : Fields) → CleanFields fields → fields_without_secrets lower fold fields ≡ fields
    Clean-fields end h = refl
    Clean-fields (field key item rest) h =
        rw (h.0, Clean-without_secrets item h.1, Clean-fields rest h.2) refl

  -- A redacted value has no sensitive key in any of its dictionaries and no sensitive text, at any
  -- depth.
  pub redact_secrets-Clean : (value : Json) → Clean (redact_secrets lower fold value)
  unfolding redact_secrets
  redact_secrets-Clean value =
      or_blank-Clean value (without_secrets lower fold value) (without_secrets-Clean value)

  redact_secrets_id : (value : Json) → Clean value → redact_secrets lower fold value ≡ value
  unfolding redact_secrets
  redact_secrets_id value clean = rw (Clean-without_secrets value clean) refl

  -- Redacting twice is redacting once.
  redact_secrets_idem :
      (value : Json)
      → redact_secrets lower fold (redact_secrets lower fold value)
        ≡ redact_secrets lower fold value
  redact_secrets_idem value =
      redact_secrets_id (redact_secrets lower fold value) (redact_secrets-Clean value)
