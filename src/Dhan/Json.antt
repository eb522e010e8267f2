-- ===== src/Dhan/Json.antt =====
-- The values of a parsed JSON body, and what nautilus_india/dhan/errors.py asks of them: `get`,
-- `in`, truth and `str()`. A parsed object holds each key once.
use Prim.Native.String.{◌++◌ as str_append}
use nautilus_trader_india.Prelude.{
  ℕ, String, Bool, true, false, not, Option, none, some, List, [], ◌∷◌, is_some, str_eq, ◌==◌,
  if◌then◌else◌,
}

-- A number, as the decimal that `str()` prints: the sign, the digits and the decimal places.
pub record Number : Type 0 where
  pub negative : Bool
  pub coefficient : ℕ
  pub places : ℕ

mutual
  pub data Json : Type 0 where
    null : Json
    bool : Bool → Json
    num : Number → Json
    text : String → Json
    arr : Items → Json
    obj : Fields → Json

  pub data Items : Type 0 where
    nil : Items
    cons : Json → Items → Items

  pub data Fields : Type 0 where
    end : Fields
    field : String → Json → Fields → Fields

-- `str()` and `repr()` of Python, at the values that are no texts.
pub record Rendering : Type 0 where
  pub str_of : Json → String
  pub repr_of : Json → String

-- `body.get(key)`
unfoldable pub get : String → Fields → Option Json
get k end = none
get k (field j v fs) = if str_eq j k then some v else get k fs

-- `key in body`
abbrev pub has : String → Fields → Bool
has k fs = is_some (get k fs)

-- `bool(value)`
unfoldable pub truthy : Json → Bool
truthy null = false
truthy (bool b) = b
truthy (num n) = not (n.coefficient == 0)
truthy (text s) = not (str_eq s "")
truthy (arr nil) = false
truthy (arr (cons v vs)) = true
truthy (obj end) = false
truthy (obj (field k v fs)) = true

-- `str(value)`
unfoldable pub py_str : Rendering → Json → String
py_str py (text s) = s
py_str py v = py.str_of v

-- `str(body.get(key) or default)`
unfoldable pub str_or : Rendering → Option Json → String → String
unfolding truthy py_str
str_or py none default = default
str_or py (some v) default = if truthy v then py_str py v else default

-- `separator.join(texts)`
unfoldable pub join : String → List String → String
join separator [] = ""
join separator (s ∷ []) = s
join separator (s ∷ t ∷ ts) = str_append s (str_append separator (join separator (t ∷ ts)))
