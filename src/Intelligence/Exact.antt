-- ===== src/Intelligence/Exact.antt =====
-- validate.ts: an accepted answer has the fields of its shape and no others.
use terminus_web.Prelude.{
  suc, ◌≡◌, refl, sym, ap, ◌∙◌, ◌↔◌, ◌⊎◌, inl, inr, true, false, not, List, [], ◌∷◌, some, Text,
  text_eq, text_eq_self, text_eq_iff, includes, length, all, ◌==◌, ==_iff, and-eq-true, Bool-cases,
  Option-cases, if◌then◌else◌, arith,
}
use terminus_web.Json.{Json, obj, Fields, end, field, keys, get}
use terminus_web.Codec.Values.{are_distinct}
use terminus_web.Intelligence.Answers.{
  Check, Shape, check_field, object, Method, shape_of, valid_result, session_current,
  privacy_update, guest_delete, account_register, account_login, account_logout, command_record,
  history_list, history_delete, analytics_delete, data_export, recommendations_get,
  recommendation_click, terminal_record, usage_get, billing_get, admin_overview,
}

abbrev pub names : Shape → List Text
names [] = []
names ((k, check) ∷ shape) = k ∷ names shape

-- The list without the first occurrence of the text.
abbrev remove : Text → List Text → List Text
remove t [] = []
remove t (k ∷ ks) = if text_eq k t then ks else k ∷ remove t ks

length-remove :
    (t : Text) (ks : List Text) → includes ks t ≡ true → length ks ≡ suc (length (remove t ks))
unfolding includes
length-remove t [] h = cc
length-remove t (k ∷ ks) h = ground (arith, length-remove t ks)

includes-remove :
    (t s : Text) (ks : List Text)
    → text_eq t s ≡ false
    → includes ks s ≡ true
    → includes (remove t ks) s ≡ true
unfolding includes
includes-remove t s [] d h = cc
includes-remove t s (k ∷ ks) d h = elim (Bool-cases (text_eq k t)) [
  | inl e ↦ let same = (text_eq_iff k t).0 e in rw e (rw (same, d) at h)
  | inr e ↦ ground (arith, includes-remove t s ks)
]

of_includes-remove :
    (t s : Text) (ks : List Text)
    → includes ks s ≡ true
    → (text_eq t s ≡ true) ⊎ (includes (remove t ks) s ≡ true)
unfolding includes
of_includes-remove t s [] h = cc
of_includes-remove t s (k ∷ ks) h = elim (Bool-cases (text_eq k t)) [
  | inl e ↦ let same = (text_eq_iff k t).0 e in ground (arith)
  | inr e ↦ ground (arith, of_includes-remove t s ks)
]

all-remove :
    (t : Text) (ks ns : List Text)
    → includes ns t ≡ false
    → all (includes ks) ns ≡ true
    → all (includes (remove t ks)) ns ≡ true
unfolding includes
all-remove t ks [] d h = refl
all-remove t ks (n ∷ ns) d h =
    let (here, rest) = and-eq-true (includes ks n) (all (includes ks) ns) h in
    elim (Bool-cases (text_eq t n)) [
      | inl e ↦ let same = (text_eq_iff t n).0 e in cc (rw (same, text_eq_self n) at d)
      | inr e ↦ elim (Bool-cases (text_eq n t)) [
        | inl e' ↦ cc (rw e' at d)
        | inr e' ↦ rw (includes-remove t n ks e here) (all-remove t ks ns (rw e' at d) rest)
      ]
    ]

-- Different texts that are all in a list of their number are the whole list.
pigeonhole :
    (ns ks : List Text)
    → are_distinct ns ≡ true
    → all (includes ks) ns ≡ true
    → length ks ≡ length ns
    → (k : Text) → includes ks k ≡ true
    → includes ns k ≡ true
unfolding are_distinct includes
pigeonhole [] [] d h e k i = i
pigeonhole [] (x ∷ ks) d h e k i = absurd (omega arith)
pigeonhole (n ∷ ns) ks d h e k i =
    let (fresh, distinct) = and-eq-true (not (includes ns n)) (are_distinct ns) d in
    let (here, rest) = and-eq-true (includes ks n) (all (includes ks) ns) h in
    elim (Bool-cases (text_eq n k)) [
      | inl same ↦ rw same
      | inr other ↦ elim (of_includes-remove n k ks i) [
        | inl same ↦ cc
        | inr there ↦ rw other (
            pigeonhole ns (remove n ks) distinct (all-remove n ks ns (ground arith) rest)
              (let fewer = length-remove n ks here in omega arith) k there)
      ]
    ]

get_own : (k : Text) (fs : Fields) {v : Json} → get k fs ≡ some v → includes (keys fs) k ≡ true
unfolding get keys includes
get_own k end h = cc
get_own k (field j v fs) h = elim (Bool-cases (text_eq j k)) [
  | inl e ↦ rw e
  | inr e ↦ rw e (get_own k fs (rw e at h))
]

check_field-own :
    (fs : Fields) (k : Text) (check : Check)
    → check_field fs (k, check) ≡ true
    → includes (keys fs) k ≡ true
unfolding check_field
check_field-own fs k check h = elim (Option-cases (get k fs)) [
  | inl e ↦ cc (rw (check_field, e) at h)
  | inr (v, e) ↦ get_own k fs e
]

checked_names :
    (fs : Fields) (shape : Shape)
    → all (check_field fs) shape ≡ true
    → all (includes (keys fs)) (names shape) ≡ true
checked_names fs [] h = refl
checked_names fs ((k, check) ∷ shape) h =
    let (here, rest) = and-eq-true (check_field fs (k, check)) (all (check_field fs) shape) h in
    rw (check_field-own fs k check here) (checked_names fs shape rest)

length-names : (shape : Shape) → length (names shape) ≡ length shape
length-names [] = refl
length-names ((k, check) ∷ shape) = ap suc (length-names shape)

all-includes :
    (ks ns : List Text) (k : Text)
    → all (includes ks) ns ≡ true
    → includes ns k ≡ true
    → includes ks k ≡ true
unfolding includes
all-includes ks [] k h i = cc
all-includes ks (n ∷ ns) k h i =
    let (here, rest) = and-eq-true (includes ks n) (all (includes ks) ns) h in
    elim (Bool-cases (text_eq n k)) [
      | inl e ↦ rw (← (text_eq_iff n k).0 e) here
      | inr e ↦ all-includes ks ns k rest (rw e at i)
    ]

-- The value is an object that has the fields of the shape and no others.
abbrev pub IsExact : Shape → Json → Type 0
IsExact shape v =
    (fs : Fields) × (v ≡ obj fs)
    × ((k : Text) → (includes (keys fs) k ≡ true) ↔ (includes (names shape) k ≡ true))

object-IsExact :
    (shape : Shape) (v : Json)
    → are_distinct (names shape) ≡ true
    → object shape v ≡ true
    → IsExact shape v
unfolding object
object-IsExact shape (obj fs) d h =
    let (same, fields) =
      and-eq-true (length (keys fs) == length shape) (all (check_field fs) shape) h in
    let own = checked_names fs shape fields in
    let size = (==_iff (length (keys fs)) (length shape)).0 same ∙ sym (length-names shape) in
    (
      fs,
      refl,
      λ k. (
        pigeonhole (names shape) (keys fs) d own size k,
        all-includes (keys fs) (names shape) k own,
      ),
    )
object-IsExact shape _ d h = cc

distinct_names : (method : Method) → are_distinct (names (shape_of method)) ≡ true
unfolding are_distinct shape_of includes text_eq
distinct_names session_current = refl
distinct_names privacy_update = refl
distinct_names guest_delete = refl
distinct_names account_register = refl
distinct_names account_login = refl
distinct_names account_logout = refl
distinct_names command_record = refl
distinct_names history_list = refl
distinct_names history_delete = refl
distinct_names analytics_delete = refl
distinct_names data_export = refl
distinct_names recommendations_get = refl
distinct_names recommendation_click = refl
distinct_names terminal_record = refl
distinct_names usage_get = refl
distinct_names billing_get = refl
distinct_names admin_overview = refl

-- An answer that is accepted for a method is an object with all fields of the method's shape and
-- no others: a service cannot hand over more than the page knows.
pub valid_result-IsExact :
    (method : Method) (v : Json) → valid_result method v ≡ true → IsExact (shape_of method) v
unfolding valid_result
valid_result-IsExact method v h = object-IsExact (shape_of method) v (distinct_names method) h
