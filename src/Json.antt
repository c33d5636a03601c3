-- ===== src/Json.antt =====
-- JSON values as Python holds them, and the conversions that the connector applies to them.
use sgraph_omega_connector.Base.{zero, suc, Bool, true, false, List, [], ◌∷◌, Option, some, none}
use sgraph_omega_connector.Base.Int.{ℤ, pos, negsuc}
use sgraph_omega_connector.Text.{Text, Unicode, codes, truthy, str_ℤ, int_of}

-- A float, by what the connector can see of it: the integer that it truncates to (none for a NaN or
-- an infinity), whether it counts as true, and its text.
pub record Float : Type 0 where
  pub truncated : Option ℤ
  pub nonzero : Bool
  pub shown : Text

mutual
  pub data Json : Type 0 where
    null : Json
    boolean : Bool → Json
    integer : ℤ → Json
    float : Float → Json
    text : Text → Json
    array : Items → Json
    object : Fields → Json

  pub data Items : Type 0 where
    nil : Items
    cons : Json → Items → Items

  pub data Fields : Type 0 where
    end : Fields
    field : Text → Json → Fields → Fields

abbrev pub items : Items → List Json
items nil = []
items (cons j js) = j ∷ items js

abbrev pub fields : Fields → List (Text × Json)
fields end = []
fields (field k j fs) = (k, j) ∷ fields fs

-- `bool(j)`
unfoldable pub is_truthy : Json → Bool
is_truthy null = false
is_truthy (boolean b) = b
is_truthy (integer (pos zero)) = false
is_truthy (integer (pos (suc n))) = true
is_truthy (integer (negsuc n)) = true
is_truthy (float f) = f.nonzero
is_truthy (text s) = truthy s
is_truthy (array nil) = false
is_truthy (array (cons _ _)) = true
is_truthy (object end) = false
is_truthy (object (field _ _ _)) = true

-- `str(j)`; the text of a list or a dictionary is the argument `repr`.
unfoldable pub str_json : (Json → Text) → Json → Text
str_json repr null = codes "None"
str_json repr (boolean true) = codes "True"
str_json repr (boolean false) = codes "False"
str_json repr (integer z) = str_ℤ z
str_json repr (float f) = f.shown
str_json repr (text s) = s
str_json repr (array js) = repr (array js)
str_json repr (object fs) = repr (object fs)

-- `int(j)`; `none` is TypeError, ValueError or OverflowError.
unfoldable pub int_json : Unicode → Json → Option ℤ
int_json u null = none
int_json u (boolean true) = some (pos 1)
int_json u (boolean false) = some (pos 0)
int_json u (integer z) = some z
int_json u (float f) = f.truncated
int_json u (text s) = int_of u s
int_json u (array _) = none
int_json u (object _) = none
