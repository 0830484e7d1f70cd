-- ===== src/DaemonLog/Redaction.antt =====
-- src/daemon_log.rs: `redact_value`. The redaction of texts and `to_lowercase` are arguments.
use uxc.Base.{String, Bool, true, false, ◌≡◌, refl, ap, ◌||◌, List, [], ◌∷◌, if◌then◌else◌, is_some}
use uxc.Base.Text.{codes, find_text}
use uxc.Json.{
  Value, null, bool, number, string, array, object, Items, nil, cons, Fields, end, field,
}

abbrev sensitive_keys : List String
sensitive_keys =
    "api_key" ∷ "apikey" ∷ "api-key" ∷ "token" ∷ "access_token" ∷ "accesstoken" ∷ "access-token"
    ∷ "secret" ∷ "secret_key" ∷ "secretkey" ∷ "password" ∷ "passwd" ∷ "authorization" ∷ "auth"
    ∷ "bearer" ∷ "credential" ∷ "credentials" ∷ "private_key" ∷ "privatekey" ∷ []

-- `key_lower.contains(sk)`, for any of them
abbrev contains_any : List String → String → Bool
contains_any [] key = false
contains_any (sk ∷ sks) key = is_some (find_text (codes sk) (codes key)) || contains_any sks key

module _ (to_lowercase : String → String) where
  unfoldable pub is_sensitive : String → Bool
  is_sensitive key = contains_any sensitive_keys (to_lowercase key)

module _ (to_lowercase redact_sensitive : String → String) {F : Type 0} where
  unfoldable mutual
    pub redact_value : Value F → Value F
    redact_value (object fs) = object (redact_fields fs)
    redact_value (array xs) = array (redact_items xs)
    redact_value (string s) = string (redact_sensitive s)
    redact_value null = null
    redact_value (bool b) = bool b
    redact_value (number n) = number n

    pub redact_items : Items F → Items F
    redact_items nil = nil
    redact_items (cons v xs) = cons (redact_value v) (redact_items xs)

    pub redact_fields : Fields F → Fields F
    redact_fields end = end
    redact_fields (field key val fs) =
        let redacted = redact_value val in
        field key (if is_sensitive to_lowercase key then string "***" else redacted)
          (redact_fields fs)

  -- Values that differ only under sensitive keys, and in texts that are redacted alike.
  mutual
    pub data Alike : Value F → Value F → Type 0 where
      same : {v : Value F} → Alike v v
      texts : {s t : String} → redact_sensitive s ≡ redact_sensitive t → Alike (string s) (string t)
      arrays : {xs ys : Items F} → AlikeItems xs ys → Alike (array xs) (array ys)
      objects : {fs gs : Fields F} → AlikeFields fs gs → Alike (object fs) (object gs)

    pub data AlikeItems : Items F → Items F → Type 0 where
      no_items : AlikeItems nil nil
      item :
          {v w : Value F} {xs ys : Items F}
          → Alike v w
          → AlikeItems xs ys
          → AlikeItems (cons v xs) (cons w ys)

    pub data AlikeFields : Fields F → Fields F → Type 0 where
      no_fields : AlikeFields end end
      open_field :
          {key : String} {v w : Value F} {fs gs : Fields F}
          → Alike v w
          → AlikeFields fs gs
          → AlikeFields (field key v fs) (field key w gs)
      sensitive_field :
          {key : String} {v w : Value F} {fs gs : Fields F}
          → is_sensitive to_lowercase key ≡ true
          → AlikeFields fs gs
          → AlikeFields (field key v fs) (field key w gs)

  mutual
    unfolding redact_value

    redact_value-Alike : {v w : Value F} → Alike v w → redact_value v ≡ redact_value w
    redact_value-Alike same = refl
    redact_value-Alike (texts e) = ap string e
    redact_value-Alike (arrays h) = ap array (redact_items-Alike h)
    redact_value-Alike (objects h) = ap object (redact_fields-Alike h)

    redact_items-Alike : {xs ys : Items F} → AlikeItems xs ys → redact_items xs ≡ redact_items ys
    redact_items-Alike no_items = refl
    redact_items-Alike (item h t) = rw (redact_value-Alike h, redact_items-Alike t) refl

    redact_fields-Alike :
        {fs gs : Fields F} → AlikeFields fs gs → redact_fields fs ≡ redact_fields gs
    redact_fields-Alike no_fields = refl
    redact_fields-Alike (open_field h t) = rw (redact_value-Alike h, redact_fields-Alike t) refl
    redact_fields-Alike (sensitive_field e t) = rw (e, redact_fields-Alike t) refl

  -- What stands under a sensitive key has no influence on what is logged of a value.
  pub redact_value_hides : (v w : Value F) → Alike v w → redact_value v ≡ redact_value w
  redact_value_hides v w h = redact_value-Alike h
