-- ===== src/Tests/Table.antt =====
-- A hash table as an association list: a concrete instance of the parameter.
use iyell.Base.{
  List, [], ◌∷◌, Option, none, some, ◌≡◌, refl, ap, arith, if◌then◌else◌, Bool-cases, inl, inr,
}
use iyell.CString.{Bytes, str_eq}
use iyell.CString.Split.{str_eq_iff}
use iyell.HashText.{HashTable}

abbrev pub Records : Type 0
Records = List (Bytes × List Bytes)

abbrev pub lookup : Records → Bytes → Option (List Bytes)
lookup [] j = none
lookup ((k, value) ∷ t) j = if str_eq k j then some value else lookup t j

abbrev pub remove : Records → Bytes → Records
remove [] key = []
remove ((k, value) ∷ t) key = if str_eq k key then remove t key else (k, value) ∷ remove t key

pub lookup-remove :
    (t : Records) (key j : Bytes)
    → lookup (remove t key) j ≡ (if str_eq key j then none else lookup t j)
lookup-remove [] key j = ground arith
lookup-remove ((k, value) ∷ t) key j =
    let rest = lookup-remove t key j in
    elim (Bool-cases (str_eq k key)) [
      | inl same ↦
          let e : str_eq k j ≡ str_eq key j = ap (λ x. str_eq x j) ((str_eq_iff k key).0 same) in
          ground (arith, same, rest, e)
      | inr other ↦ elim (Bool-cases (str_eq key j)) [
        | inl hit ↦
            let e : str_eq k key ≡ str_eq k j = ap (str_eq k) ((str_eq_iff key j).0 hit) in
            ground (arith, other, rest, e, hit)
        | inr miss ↦ ground (arith, other, rest, miss)
      ]
    ]

pub lookup-add :
    (t : Records) (key j : Bytes) (value : List Bytes) (t' : Records)
    → lookup t key ≡ none
    → some ((key, value) ∷ t) ≡ some t'
    → lookup t' j ≡ (if str_eq key j then some value else lookup t j)
lookup-add t key j value t' fresh e =
    let same : t' ≡ (key, value) ∷ t = cc in ap (λ r. lookup r j) same

instance abbrev pub list_table : HashTable Records
list_table = record {
  hash_new = λ n. [];
  hash_get = lookup;
  hash_add = λ t key value. some ((key, value) ∷ t);
  hash_remove = remove;
  records = λ t. t;
  get-new = λ n key. refl;
  get-add = lookup-add;
  get-remove = lookup-remove;
}
