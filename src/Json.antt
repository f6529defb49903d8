-- ===== src/Json.antt =====
-- The JavaScript values of type `unknown` that the protocol code inspects: the values of JSON.
-- `undefined` is `none` of `Option Json`. An object is the list of its own properties.
use terminus_web.Prelude.{
  ℕ, Bool, true, false, List, [], ◌∷◌, Option, none, some, not, ◌&&◌, Text, text_eq, includes, all,
  any, if◌then◌else◌, Result, schema_error, ok,
}

-- A number that is a non-negative integer (with -0 as 0), or any other: a negative integer, a
-- fraction, NaN or an infinity. Every test of the program refuses all of the latter alike.
pub data Number : Type 0 where
  nat : ℕ → Number
  other : Number

mutual
  pub data Json : Type 0 where
    null : Json
    bool : Bool → Json
    num : Number → Json
    str : Text → Json
    arr : Items → Json
    obj : Fields → Json

  pub data Items : Type 0 where
    nil : Items
    cons : Json → Items → Items

  pub data Fields : Type 0 where
    end : Fields
    field : Text → Json → Fields → Fields

-- The elements of an array.
unfoldable pub elements : Items → List Json
elements nil = []
elements (cons v vs) = v ∷ elements vs

-- `Object.keys(value)`
unfoldable pub keys : Fields → List Text
keys end = []
keys (field k v fs) = k ∷ keys fs

-- `value[key]`, `none` for `undefined`.
unfoldable pub get : Text → Fields → Option Json
get k end = none
get k (field j v fs) = if text_eq j k then some v else get k fs

-- `Object.hasOwn(value, key)`
unfoldable pub has_own : Fields → Text → Bool
unfolding get text_eq
has_own fs k = elim (get k fs) [ none ↦ false | some v ↦ true ]

-- `isRecord`: a non-null object that is no array.
unfoldable pub is_record : Option Json → Result Fields
is_record (some (obj fs)) = ok fs
is_record _ = schema_error

-- `assertExactKeys(value, required, optional)`
unfoldable pub has_exact_keys : Fields → List Text → List Text → Bool
unfolding has_own keys includes
has_exact_keys fs required optional =
    all (has_own fs) required
    && not (any (λ k. not (includes required k) && not (includes optional k)) (keys fs))
