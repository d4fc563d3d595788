-- ===== src/Json.antt =====
-- JavaScript values as the program handles them: what JSON.parse yields, `undefined` for a property
-- that is missing, truthiness, `a || b`, property reads and writes, and `${value}` in a template.
-- Numbers are natural numbers; fractions and negative numbers are not modelled.
use event_driven_kafka.Base.{
  ℕ, zero, suc, ◌/◌, ◌%◌, ◌+◌, String, ◌<>◌, slice, Bool, true, false, not, List, [], ◌∷◌, ◌==◌,
  ◌=?◌, any, if◌then◌else◌,
}

mutual
  pub data Json : Type 0 where
    undefined : Json
    null : Json
    bool : Bool → Json
    num : ℕ → Json
    str : String → Json
    arr : Items → Json
    obj : Fields → Json

  pub data Items : Type 0 where
    nil : Items
    cons : Json → Items → Items

  pub data Fields : Type 0 where
    end : Fields
    field : String → Json → Fields → Fields

-- `!!v`
abbrev pub truthy : Json → Bool
truthy undefined = false
truthy null = false
truthy (bool b) = b
truthy (num n) = not (n =? 0)
truthy (str s) = not (s == "")
truthy (arr xs) = true
truthy (obj fs) = true

-- `a || b`
infixr 30 ◌or◌
abbrev pub ◌or◌ : Json → Json → Json
a or b = if truthy a then a else b

-- `record[k]` on an object, `undefined` where there is no such property.
abbrev pub get : String → Fields → Json
get k end = undefined
get k (field j v fs) = if j == k then v else get k fs

-- `value.k`; the program reads properties of values that are not objects too.
abbrev pub prop : String → Json → Json
prop k (obj fs) = get k fs
prop k _ = undefined

-- `record[k] = v`
abbrev pub set : String → Json → Fields → Fields
set k v end = field k v end
set k v (field j w fs) = if j == k then field j v fs else field j w (set k v fs)

-- `const { k1, k2, ...rest } = record`: the rest.
abbrev pub omit : List String → Fields → Fields
omit ks end = end
omit ks (field j v fs) =
    let rest = omit ks fs in if any (λ k. j == k) ks then rest else field j v rest

abbrev pub is_array : Json → Bool
is_array (arr xs) = true
is_array _ = false

-- Decimal digits; the value itself is fuel enough.
digits : ℕ → ℕ → String
digits zero n = slice "0123456789" (n % 10) (n % 10 + 1)
digits (suc fuel) n =
    let last = slice "0123456789" (n % 10) (n % 10 + 1) in
    let rest = digits fuel (n / 10) <> last in if n / 10 =? 0 then last else rest

-- `${value}`; an array joins its elements with commas, and shows null and undefined as nothing.
mutual
  pub text_of : Json → String
  text_of undefined = "undefined"
  text_of null = "null"
  text_of (bool true) = "true"
  text_of (bool false) = "false"
  text_of (num n) = digits n n
  text_of (str s) = s
  text_of (arr xs) = text_of_items xs
  text_of (obj fs) = "[object Object]"

  pub text_of_element : Json → String
  text_of_element undefined = ""
  text_of_element null = ""
  text_of_element (bool true) = "true"
  text_of_element (bool false) = "false"
  text_of_element (num n) = digits n n
  text_of_element (str s) = s
  text_of_element (arr xs) = text_of_items xs
  text_of_element (obj fs) = "[object Object]"

  pub text_of_items : Items → String
  text_of_items nil = ""
  text_of_items (cons x nil) = text_of_element x
  text_of_items (cons x (cons y ys)) = text_of_element x <> "," <> text_of_items (cons y ys)

-- What JSON.stringify followed by JSON.parse gives: undefined properties are dropped, and an
-- undefined array element becomes null.
unfoldable mutual
  pub wire : Json → Json
  wire undefined = undefined
  wire null = null
  wire (bool b) = bool b
  wire (num n) = num n
  wire (str s) = str s
  wire (arr xs) = arr (wire_items xs)
  wire (obj fs) = obj (wire_fields fs)

  pub wire_element : Json → Json
  wire_element undefined = null
  wire_element null = null
  wire_element (bool b) = bool b
  wire_element (num n) = num n
  wire_element (str s) = str s
  wire_element (arr xs) = arr (wire_items xs)
  wire_element (obj fs) = obj (wire_fields fs)

  pub wire_items : Items → Items
  wire_items nil = nil
  wire_items (cons x xs) = cons (wire_element x) (wire_items xs)

  pub wire_fields : Fields → Fields
  wire_fields end = end
  wire_fields (field k undefined fs) = wire_fields fs
  wire_fields (field k null fs) = field k null (wire_fields fs)
  wire_fields (field k (bool b) fs) = field k (bool b) (wire_fields fs)
  wire_fields (field k (num n) fs) = field k (num n) (wire_fields fs)
  wire_fields (field k (str s) fs) = field k (str s) (wire_fields fs)
  wire_fields (field k (arr xs) fs) = field k (arr (wire_items xs)) (wire_fields fs)
  wire_fields (field k (obj gs) fs) = field k (obj (wire_fields gs)) (wire_fields fs)

-- Array literals of texts.
abbrev pub strings : List String → Items
strings [] = nil
strings (s ∷ ss) = cons (str s) (strings ss)
