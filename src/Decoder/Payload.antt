-- ===== src/Decoder/Payload.antt =====
-- `jsonValue`: decoded arguments hold `bigint`s, which JSON does not.
use parallel_usdp_hyperevm_i.Prelude.{ℕ, Bool, true, false, ◌&&◌, ◌≡◌, refl}
use parallel_usdp_hyperevm_i.Prelude.Int.{ℤ}
use parallel_usdp_hyperevm_i.Prelude.Text.{Text}

-- `decimal n` is the text of `n.toString()`; `other` is any value that is kept as it is, by a
-- number that tells it from the rest.
mutual
  pub data JsValue : Type 0 where
    big : ℤ → JsValue
    decimal : ℤ → JsValue
    other : ℕ → JsValue
    arr : Items → JsValue
    obj : Entries → JsValue

  pub data Items : Type 0 where
    nil : Items
    cons : JsValue → Items → Items

  pub data Entries : Type 0 where
    end : Entries
    entry : Text → JsValue → Entries → Entries

unfoldable mutual
  pub json_value : JsValue → JsValue
  json_value (big n) = decimal n
  json_value (decimal n) = decimal n
  json_value (other n) = other n
  json_value (arr items) = arr (json_items items)
  json_value (obj entries) = obj (json_entries entries)

  pub json_items : Items → Items
  json_items nil = nil
  json_items (cons value rest) = cons (json_value value) (json_items rest)

  pub json_entries : Entries → Entries
  json_entries end = end
  json_entries (entry key value rest) = entry key (json_value value) (json_entries rest)

-- Whether a value can be written as JSON: it holds no `bigint` at any depth.
unfoldable mutual
  pub is_json : JsValue → Bool
  is_json (big n) = false
  is_json (decimal n) = true
  is_json (other n) = true
  is_json (arr items) = is_json_items items
  is_json (obj entries) = is_json_entries entries

  pub is_json_items : Items → Bool
  is_json_items nil = true
  is_json_items (cons value rest) = is_json value && is_json_items rest

  pub is_json_entries : Entries → Bool
  is_json_entries end = true
  is_json_entries (entry key value rest) = is_json value && is_json_entries rest

mutual
  unfolding json_value is_json

  pub json_value-is_json : (value : JsValue) → is_json (json_value value) ≡ true
  json_value-is_json (big n) = refl
  json_value-is_json (decimal n) = refl
  json_value-is_json (other n) = refl
  json_value-is_json (arr items) = json_items-is_json items
  json_value-is_json (obj entries) = json_entries-is_json entries

  json_items-is_json : (items : Items) → is_json_items (json_items items) ≡ true
  json_items-is_json nil = refl
  json_items-is_json (cons value rest) = rw (json_value-is_json value) (json_items-is_json rest)

  json_entries-is_json : (entries : Entries) → is_json_entries (json_entries entries) ≡ true
  json_entries-is_json end = refl
  json_entries-is_json (entry key value rest) =
      rw (json_value-is_json value) (json_entries-is_json rest)
