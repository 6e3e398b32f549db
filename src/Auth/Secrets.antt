-- ===== src/Auth/Secrets.antt =====
-- No secret field of a payload is stored, however deep it is.
use mini_coder.Common.{◌≡◌, refl, Bool, true, false, String}
use mini_coder.Auth.Redaction.{
  Json, null, bool, num, str, arr, obj, Items, nil, cons, Fields, end, field, is_secret_field,
  default_replacement, redact_entry, redact_object, redact_items, redact_fields,
}

-- A text under a secret name is the replacement.
abbrev CleanEntry : Bool → Json → Type 0
CleanEntry true (str s) = s ≡ default_replacement
CleanEntry _ value = Unit

unfoldable mutual
  pub Clean : Json → Type 0
  Clean (arr items) = CleanItems items
  Clean (obj fields) = CleanFields fields
  Clean _ = Unit

  pub CleanItems : Items → Type 0
  CleanItems nil = Unit
  CleanItems (cons v vs) = Clean v × CleanItems vs

  pub CleanFields : Fields → Type 0
  CleanFields end = Unit
  CleanFields (field key v fs) = CleanEntry (is_secret_field key) v × Clean v × CleanFields fs

module _ (redact : String → String) where
  clean_entry :
      (secret : Bool) (v : Json)
      → CleanEntry secret (redact_entry secret v (redact_object redact v))
  unfolding redact_object
  clean_entry true null = tt
  clean_entry true (bool b) = tt
  clean_entry true (num n) = tt
  clean_entry true (str s) = refl
  clean_entry true (arr items) = tt
  clean_entry true (obj fields) = tt
  clean_entry false null = tt
  clean_entry false (bool b) = tt
  clean_entry false (num n) = tt
  clean_entry false (str s) = tt
  clean_entry false (arr items) = tt
  clean_entry false (obj fields) = tt

  entry-Clean : (secret : Bool) (v other : Json) → Clean other → Clean (redact_entry secret v other)
  unfolding Clean
  entry-Clean true (str s) other h = tt
  entry-Clean true null other h = h
  entry-Clean true (bool b) other h = h
  entry-Clean true (num n) other h = h
  entry-Clean true (arr items) other h = h
  entry-Clean true (obj fields) other h = h
  entry-Clean false v other h = h

  mutual
    unfolding Clean redact_object

    pub redact_object-Clean : (v : Json) → Clean (redact_object redact v)
    redact_object-Clean null = tt
    redact_object-Clean (bool b) = tt
    redact_object-Clean (num n) = tt
    redact_object-Clean (str s) = tt
    redact_object-Clean (arr items) = items-Clean items
    redact_object-Clean (obj fields) = fields-Clean fields

    items-Clean : (items : Items) → CleanItems (redact_items redact items)
    items-Clean nil = tt
    items-Clean (cons v vs) = (redact_object-Clean v, items-Clean vs)

    fields-Clean : (fields : Fields) → CleanFields (redact_fields redact fields)
    fields-Clean end = tt
    fields-Clean (field key v fs) = (
      clean_entry (is_secret_field key) v,
      entry-Clean (is_secret_field key) v (redact_object redact v) (redact_object-Clean v),
      fields-Clean fs,
    )
