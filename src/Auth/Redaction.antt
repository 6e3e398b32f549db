-- ===== src/Auth/Redaction.antt =====
-- packages/core/src/auth/redaction.ts: secrets are cut out of a payload before it is stored.
-- The regular expressions of `SecretRedactor.redact` are a function on texts, a parameter here.
use Prim.Native.Char.{code}
use mini_coder.Common.{
  ℕ, ◌+◌, Bool, true, false, ◌&&◌, List, [], ◌∷◌, String, nat_eq, leb, any, if◌then◌else◌,
}

mutual
  pub data Json : Type 0 where
    null : Json
    bool : Bool → Json
    num : ℕ → Json
    str : String → Json
    arr : Items → Json
    obj : Fields → Json

  pub data Items : Type 0 where
    nil : Items
    cons : Json → Items → Items

  pub data Fields : Type 0 where
    end : Fields
    field : String → Json → Fields → Fields

-- The code points of a text.
abbrev pub codes : String → List ℕ
codes (String.◌∷◌ first rest) = code first ∷ codes rest
codes String.[] = []

-- `toLowerCase` on the letters that can end up in ASCII: A to Z, and the Kelvin sign.
abbrev lower : ℕ → ℕ
lower c = if leb b'A' c && leb c b'Z' then c + 32 else if nat_eq c 8490 then b'k' else c

abbrev pub same_text : List ℕ → List ℕ → Bool
same_text [] [] = true
same_text (a ∷ as') (b ∷ bs) = nat_eq a b && same_text as' bs
same_text _ _ = false

abbrev pub lower_all : List ℕ → List ℕ
lower_all [] = []
lower_all (c ∷ cs) = lower c ∷ lower_all cs

abbrev secret_field_names : List String
secret_field_names =
    "token" ∷ "apikey" ∷ "api_key" ∷ "password" ∷ "secret" ∷ "credential" ∷ "privatekey"
    ∷ "private_key" ∷ "accesskey" ∷ "access_key" ∷ "accesstoken" ∷ "access_token" ∷ "refreshtoken"
    ∷ "refresh_token" ∷ "clientsecret" ∷ "client_secret" ∷ "webhooksecret" ∷ "webhook_secret"
    ∷ "signingsecret" ∷ "signing_secret" ∷ "authorization" ∷ []

-- `SECRET_FIELD_NAMES.has(key.toLowerCase())`.
unfoldable pub is_secret_field : String → Bool
is_secret_field key =
    any (λ name. same_text (codes name) (lower_all (codes key))) secret_field_names

abbrev pub default_replacement : String
default_replacement = "[REDACTED]"

-- The value of one entry of an object, given the redacted value of the other case.
abbrev pub redact_entry : Bool → Json → Json → Json
redact_entry true (str s) other = str default_replacement
redact_entry _ value other = other

module _ (redact : String → String) where
  unfoldable mutual
    pub redact_object : Json → Json
    redact_object null = null
    redact_object (bool b) = bool b
    redact_object (num n) = num n
    redact_object (str s) = str (redact s)
    redact_object (arr items) = arr (redact_items items)
    redact_object (obj fields) = obj (redact_fields fields)

    pub redact_items : Items → Items
    redact_items nil = nil
    redact_items (cons v vs) = cons (redact_object v) (redact_items vs)

    pub redact_fields : Fields → Fields
    redact_fields end = end
    redact_fields (field key v fs) =
        field key (redact_entry (is_secret_field key) v (redact_object v)) (redact_fields fs)
