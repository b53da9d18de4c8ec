-- ===== src/Tests/Encoding.antt =====
-- A small JSON library for the examples. A value is its own text: a tag, and for an object the number
-- of its members and, for each, key and value behind their lengths.
use kd.Base.{
  ℕ, zero, suc, ◌==◌, ◌≡◌, refl, sym, ap, Bool, false, Option, none, some, List, [], ◌∷◌, ◌++◌,
  Text, lit, str_eq, lookup, if◌then◌else◌, ℤ, pos, negsuc, Result, ok, raised, length, take, drop,
  take-append, drop-append,
}
use kd.Json.{JsonApi, JsonLaws}

abbrev pub string : Text → Text
string s = 1 ∷ s

abbrev pub number : ℤ → Text
number (pos n) = 2 ∷ n ∷ []
number (negsuc n) = 3 ∷ n ∷ []

abbrev pub members : List (Text × Text) → Text
members [] = []
members ((k, v) ∷ fs) = length k ∷ (k ++ length v ∷ (v ++ members fs))

abbrev pub object : List (Text × Text) → Text
object fs = 4 ∷ length fs ∷ members fs

abbrev split_value : Text → Text × Text
split_value [] = ([], [])
split_value (n ∷ t) = (take n t, drop n t)

-- The members of an object with `n` of them.
abbrev find_in : ℕ → Text → Text → Option Text
find_in zero t k = none
find_in (suc n) t k =
    let key = split_value t in
    let value = split_value key.1 in
    let rest = find_in n value.1 k in if str_eq key.0 k then some value.0 else rest

abbrev pub find : Text → Text → Option Text
find [] k = none
find (c ∷ []) k = none
find (c ∷ n ∷ t) k = if c == 4 then find_in n t k else none

abbrev has_tag : ℕ → Text → Bool
has_tag tag [] = false
has_tag tag (c ∷ t) = c == tag

abbrev get_text : Text → Result Text
get_text [] = raised (lit "type_error")
get_text (c ∷ s) = if c == 1 then ok s else raised (lit "type_error")

abbrev get_number : Text → Result ℤ
get_number [] = raised (lit "type_error")
get_number (c ∷ []) = raised (lit "type_error")
get_number (c ∷ n ∷ t) =
    if c == 2 then ok (pos n) else if c == 3 then ok (negsuc n) else raised (lit "type_error")

abbrev value_or {ℓ} : {A : Type ℓ} → (Text → Result A) → A → Option Text → Result A
value_or read d none = ok d
value_or read d (some v) = read v

abbrev pub toy_json : JsonApi
toy_json = record {
  Json = Text;
  parse = λ t. some t;
  dump = λ t. ok t;
  find = find;
  is_object = has_tag 4;
  is_string = has_tag 1;
  is_array = λ t. false;
  is_number_integer = has_tag 2;
  get_string = get_text;
  get_int = get_number;
  get_int64 = get_number;
  value_string = λ t k d. value_or get_text d (find t k);
  value_int = λ t k d. value_or get_number d (find t k);
  value_int64 = λ t k d. value_or get_number d (find t k);
  items = λ t. [];
  elements = λ t. [];
  object = object;
  array = λ ts. 5 ∷ [];
  string = string;
  number = number;
  boolean = λ b. if b then 6 ∷ [] else 7 ∷ [];
}

find-members :
    (fs : List (Text × Text)) (k : Text) → find_in (length fs) (members fs) k ≡ lookup k fs
unfolding lookup
find-members [] k = refl
find-members ((j, v) ∷ fs) k =
    rw
      (
        take-append j (length v ∷ (v ++ members fs)),
        drop-append j (length v ∷ (v ++ members fs)),
        take-append v (members fs),
        drop-append v (members fs),
        find-members fs k,
      )
      refl

get-number : (z : ℤ) → get_number (number z) ≡ ok z
get-number (pos n) = refl
get-number (negsuc n) = refl

pub toy_laws : JsonLaws toy_json
toy_laws = record {
  parse-dump = λ j t e. ap some (sym (cc e));
  value_string-object = λ fs k d s e. rw (find-members fs k, e) refl;
  value_int-object = λ fs k d z fits e. rw (find-members fs k, e) (get-number z);
  value_int64-object = λ fs k d z fits e. rw (find-members fs k, e) (get-number z);
}
