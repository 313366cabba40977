-- ===== src/Idempotency/Canonical.antt =====
-- `canonicalize` and `hash` of server/src/common/idempotency.service.ts. `before` is whether `localeCompare` puts a name not after
-- another, and `sha256` is the hash of the text that `JSON.stringify` makes of a value.
use study_room_sdk.Base.{ℕ, Bool, if◌then◌else◌}
use study_room_sdk.Domain.{Text}

-- A value of JSON; the fields of an object in their order.
mutual
  pub data Json : Type 0 where
    null : Json
    boolean : Bool → Json
    number : ℕ → Json
    string : Text → Json
    array : Items → Json
    object : Fields → Json

  pub data Items : Type 0 where
    no_items : Items
    item : Json → Items → Items

  pub data Fields : Type 0 where
    no_fields : Fields
    field : Text → Json → Fields → Fields

module _ (before : Text → Text → Bool) where
  -- `sort` of the entries, one at a time: before the first entry that it may stand before.
  unfoldable pub insert_field : Text → Json → Fields → Fields
  insert_field k a no_fields = field k a no_fields
  insert_field k a (field l b fs) =
      let rest = insert_field k a fs in
      if before k l then field k a (field l b fs) else field l b rest

  -- `canonicalize`
  unfoldable mutual
    unfolding insert_field

    pub canonicalize : Json → Json
    canonicalize null = null
    canonicalize (boolean b) = boolean b
    canonicalize (number n) = number n
    canonicalize (string t) = string t
    canonicalize (array xs) = array (canonicalize_items xs)
    canonicalize (object fs) = object (canonicalize_fields fs)

    pub canonicalize_items : Items → Items
    canonicalize_items no_items = no_items
    canonicalize_items (item a xs) = item (canonicalize a) (canonicalize_items xs)

    pub canonicalize_fields : Fields → Fields
    canonicalize_fields no_fields = no_fields
    canonicalize_fields (field k a fs) = insert_field k (canonicalize a) (canonicalize_fields fs)

  -- `hash`
  unfoldable pub hash : (Json → ℕ) → Json → ℕ
  hash sha256 request = sha256 (canonicalize request)
