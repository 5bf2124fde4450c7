-- ===== src/Actions/Redaction.antt =====
-- apps/actions/secret_redaction.py. `lower` is `str.lower`, and `fold` is what the regular
-- expressions of Python compare letters by where they ignore case.
pub mod Clean
use storage_service.Prelude.{
  ℕ, Bool, true, false, not, ◌&&◌, ◌||◌, List, [], ◌∷◌, Option, none, some, leb, ◌==◌,
  if◌then◌else◌, any, map,
}
use storage_service.Text.{Text, codes, text_eq}
use storage_service.Text.Trim.{strip}
use storage_service.Text.Affix.{starts_with, ends_with}
use storage_service.Text.Replace.{replace, contains}
use storage_service.Json.{
  Json, null, bool, number, text, array, object, Items, nil, cons, Fields, end, field,
}

abbrev pub sensitive_keys : List Text
sensitive_keys =
    codes "magic_link"
    ∷ codes "magic_link_url"
    ∷ codes "token"
    ∷ codes "raw_token"
    ∷ codes "access_token"
    ∷ codes "refresh_token"
    ∷ codes "id_token"
    ∷ codes "setup_token"
    ∷ codes "sign_in_url"
    ∷ codes "sign_in_link"
    ∷ codes "signin_url"
    ∷ codes "signin_link"
    ∷ codes "password"
    ∷ codes "passwd"
    ∷ codes "pwd"
    ∷ codes "secret"
    ∷ codes "client_secret"
    ∷ codes "api_key"
    ∷ codes "apikey"
    ∷ codes "authorization"
    ∷ codes "authorization_header"
    ∷ codes "credential"
    ∷ codes "credentials"
    ∷ codes "private_key"
    ∷ codes "signing_secret"
    ∷ codes "signed_url"
    ∷ codes "signedurl"
    ∷ codes "presigned_url"
    ∷ codes "presignedurl"
    ∷ codes "share_token"
    ∷ codes "share_url"
    ∷ []

abbrev pub sensitive_endings : List Text
sensitive_endings =
    codes "_token" ∷ codes "_tokens" ∷ codes "_secret" ∷ codes "_password" ∷ codes "_api_key" ∷ []

unfoldable pub sensitive_key : (Text → Text) → Text → Bool
sensitive_key lower key =
    let name = replace (codes "-") (codes "_") (lower (strip key)) in
    any (text_eq name) sensitive_keys || any (λ ending. ends_with name ending) sensitive_endings

-- Literal parts of the pattern, all in small letters: each stands for the text and for the same
-- text in other letters, after `fold`.
abbrev pub literals : List Text
literals =
    codes "magic-link"
    ∷ codes "magic_link"
    ∷ codes "/share/link/"
    ∷ codes "x-amz-algorithm"
    ∷ codes "x-amz-credential"
    ∷ codes "x-amz-signature"
    ∷ codes "x-amz-security-token"
    ∷ codes "awsaccesskeyid="
    ∷ []

abbrev pub credential_words : List Text
credential_words =
    codes "token="
    ∷ codes "secret="
    ∷ codes "password="
    ∷ codes "apikey="
    ∷ codes "api_key="
    ∷ codes "api-key="
    ∷ codes "signature="
    ∷ codes "sig="
    ∷ []

abbrev pub starts_with_any : List Text → Text → Bool
starts_with_any words s = any (λ word. starts_with s word) words

-- `[a-z0-9_.-]`.
abbrev pub is_name_char : ℕ → Bool
is_name_char c =
    (leb 97 c && leb c 122) || (leb 48 c && leb c 57) || (c == 95) || (c == 46) || (c == 45)

-- `[a-z0-9_.-]*(?:token|...)=`.
abbrev pub starts_credential : Text → Bool
starts_credential [] = false
starts_credential (c ∷ s) =
    starts_with_any credential_words (c ∷ s) || (is_name_char c && starts_credential s)

-- `[?&#]` and what follows it.
abbrev pub is_query_mark : ℕ → Bool
is_query_mark c = (c == 63) || (c == 38) || (c == 35)

abbrev pub starts_query : Text → Bool
starts_query [] = false
starts_query (c ∷ s) = is_query_mark c && starts_credential s

-- `(?:[/?#]|$)`, where `$` also holds before a last line feed.
abbrev pub at_path_end : Text → Bool
at_path_end [] = true
at_path_end (c ∷ []) = (c == 47) || (c == 63) || (c == 35) || (c == 10)
at_path_end (c ∷ d ∷ s) = (c == 47) || (c == 63) || (c == 35)

abbrev pub drop_prefix : Text → Text → Option Text
drop_prefix = storage_service.Text.Affix.remove_prefix

abbrev pub ends_after : Option Text → Bool
ends_after none = false
ends_after (some rest) = at_path_end rest

-- `/sign-?in(?:[/?#]|$)`.
abbrev pub starts_sign_in : Text → Bool
starts_sign_in s =
    ends_after (drop_prefix (codes "/signin") s) || ends_after (drop_prefix (codes "/sign-in") s)

-- `_SIGN_IN_URL.search`, on the folded text.
abbrev pub search_sign_in : Text → Bool
search_sign_in [] = false
search_sign_in (c ∷ s) =
    starts_with_any literals (c ∷ s)
    || starts_sign_in (c ∷ s)
    || starts_query (c ∷ s)
    || search_sign_in s

unfoldable pub sensitive_string : (ℕ → ℕ) → Text → Bool
sensitive_string fold value =
    if not (contains (codes "://") value) then false else search_sign_in (map fold value)

-- `if kept is _DROP: continue`; none is `_DROP`.
abbrev pub and_item : Option Json → Items → Items
and_item none items = items
and_item (some item) items = cons item items

abbrev pub and_field : Text → Option Json → Fields → Fields
and_field key none fields = fields
and_field key (some item) fields = field key item fields

-- `_without_secrets`.
module _ (lower : Text → Text) (fold : ℕ → ℕ) where
  unfoldable mutual
    pub without_secrets : Json → Option Json
    without_secrets null = some null
    without_secrets (bool b) = some (bool b)
    without_secrets (number n) = some (number n)
    without_secrets (text s) = if sensitive_string fold s then none else some (text s)
    without_secrets (array items) = some (array (items_without_secrets items))
    without_secrets (object fields) = some (object (fields_without_secrets fields))

    pub items_without_secrets : Items → Items
    items_without_secrets nil = nil
    items_without_secrets (cons item rest) =
        and_item (without_secrets item) (items_without_secrets rest)

    pub fields_without_secrets : Fields → Fields
    fields_without_secrets end = end
    fields_without_secrets (field key item rest) =
        let later = fields_without_secrets rest in
        let kept = without_secrets item in
        if sensitive_key lower key then later else and_field key kept later

abbrev pub or_blank : Json → Option Json → Json
or_blank (object fields) none = object end
or_blank (array items) none = array nil
or_blank value none = text []
or_blank value (some cleaned) = cleaned

unfoldable pub redact_secrets : (Text → Text) → (ℕ → ℕ) → Json → Json
redact_secrets lower fold value = or_blank value (without_secrets lower fold value)
