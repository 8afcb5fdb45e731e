-- ===== src/Json.antt =====
-- JSON values, as the HTTP layer hands them to the code, and what the code asks of them.
use leadto_sales_re.Base.{
  ℕ, String, Bool, true, false, not, List, [], ◌∷◌, str_eq, ◌==◌, if◌then◌else◌,
}

mutual
  pub data Json : Type 0 where
    null : Json
    bool : Bool → Json
    num : ℕ → Json
    str : String → Json
    arr : Items → Json
    obj : Fields → Json

  pub data Items : Type 0 where
    nil : Items
    cons : Json → Items → Items

  pub data Fields : Type 0 where
    end : Fields
    field : String → Json → Fields → Fields

-- `d.get(key)` of a dictionary; `null` stands for `None`.
unfoldable pub get_field : String → Fields → Json
get_field key end = null
get_field key (field k v fs) = if str_eq k key then v else get_field key fs

-- `bool(v)`
unfoldable pub truthy : Json → Bool
truthy null = false
truthy (bool b) = b
truthy (num n) = not (n == 0)
truthy (str s) = not (str_eq s "")
truthy (arr nil) = false
truthy (arr (cons x xs)) = true
truthy (obj end) = false
truthy (obj (field k v fs)) = true

-- `v == text`
unfoldable pub is_text : Json → String → Bool
is_text (str s) t = str_eq s t
is_text null t = false
is_text (bool b) t = false
is_text (num n) t = false
is_text (arr xs) t = false
is_text (obj fs) t = false

-- `_dig` of webhook_router.py, one key: a value that is no dictionary gives `None`.
unfoldable pub dig : Json → String → Json
dig (obj fs) key = get_field key fs
dig null key = null
dig (bool b) key = null
dig (num n) key = null
dig (str s) key = null
dig (arr xs) key = null

-- `key in d` of a dictionary.
unfoldable pub has_field : String → Fields → Bool
has_field key end = false
has_field key (field k v fs) = if str_eq k key then true else has_field key fs

abbrev pub elements : Items → List Json
elements nil = []
elements (cons x xs) = x ∷ elements xs
