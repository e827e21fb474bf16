-- ===== src/HashText/Refinement.antt =====
-- The string arrays of src/iyelld/hash+.c and what they stand for: data under keys, in the order of
-- their insertion.
use iyell.Base.{
  ℕ, true, false, Run, ok, fault, out_of_bounds, ◌>>=◌, List, [], ◌∷◌, ◌++◌, Option, none, some,
  ◌≡◌, refl, sym, ◌∙◌, ap, arith, if◌then◌else◌, length, Bool-cases, Option-cases, inl, inr,
  append-nil, append_assoc,
}
use iyell.CString.{Bytes, str_eq}
use iyell.CString.Split.{str_eq_iff}
use iyell.Conf.{hash_text_get_first, hash_text_count_data, first}
use iyell.HashText.{HashTable, hash_text_insert, hash_text_delete, add_to, insert_at}
use iyell.HashText.Insert.{data_of, get-hash_text_insert}

-- The pairs of a key and a datum, the oldest first.
abbrev pub Entries : Type 0
Entries = List (Bytes × Bytes)

-- The data of a key.
abbrev pub collect : Entries → Bytes → List Bytes
collect [] j = []
collect ((key, value) ∷ es) j = (if str_eq key j then value ∷ [] else []) ++ collect es j

-- The pairs of the other keys.
abbrev pub without : Entries → Bytes → Entries
without [] key = []
without ((k, value) ∷ es) key =
    let rest = without es key in if str_eq k key then rest else (k, value) ∷ rest

-- No data is no array.
abbrev pub array : List Bytes → Option (List Bytes)
array [] = none
array (v ∷ vs) = some (v ∷ vs)

-- What is done to a table, and to the pairs. A key without data cannot be deleted.
pub data Operation : Type 0 where
  insert : Bytes → Bytes → Operation
  delete : Bytes → Operation

unfoldable pub delete_from : Option (List Bytes) → Bytes → Entries → Run Entries
delete_from none key es = fault out_of_bounds
delete_from (some data') key es = ok (without es key)

unfoldable pub apply_all : List Operation → Entries → Run Entries
unfolding delete_from
apply_all [] es = ok es
apply_all (insert key value ∷ ops) es = apply_all ops (es ++ ((key, value) ∷ []))
apply_all (delete key ∷ ops) es = delete_from (array (collect es key)) key es >>= apply_all ops

collect-append : (es fs : Entries) (j : Bytes) → collect (es ++ fs) j ≡ collect es j ++ collect fs j
collect-append [] fs j = refl
collect-append ((key, value) ∷ es) fs j = rw (collect-append es fs j) (simp append_assoc)

collect-without :
    (es : Entries) (key j : Bytes)
    → collect (without es key) j ≡ (if str_eq key j then [] else collect es j)
collect-without [] key j = ground arith
collect-without ((k, value) ∷ es) key j =
    let rest = collect-without es key j in
    elim (Bool-cases (str_eq k key)) [
      | inl same ↦
          let e : str_eq k j ≡ str_eq key j = ap (λ x. str_eq x j) ((str_eq_iff k key).0 same) in
          rw same (rest ∙ rw e (ground arith))
      | inr other ↦ elim (Bool-cases (str_eq key j)) [
        | inl hit ↦
            let e : str_eq k j ≡ false = ap (str_eq k) (sym ((str_eq_iff key j).0 hit)) ∙ other in
            rw other rw e (rest ∙ rw hit (ground arith))
        | inr miss ↦ rw other rw rest rw miss (ground arith)
      ]
    ]

data_of-array : (l : List Bytes) → data_of (array l) ≡ l
unfolding data_of
data_of-array [] = refl
data_of-array (v ∷ l) = refl

array-last : (l : List Bytes) (v : Bytes) → array (l ++ (v ∷ [])) ≡ some (l ++ (v ∷ []))
array-last [] v = refl
array-last (w ∷ l) v = refl

count-array :
    (section : Bytes → Option (List Bytes)) (j : Bytes) (l : List Bytes)
    → section j ≡ array l
    → hash_text_count_data section j ≡ length l
unfolding hash_text_count_data
count-array section j [] e = rw (e, hash_text_count_data) refl
count-array section j (v ∷ l) e = rw (e, hash_text_count_data) refl

module _ {T : Type 0} ⦃h : HashTable T⦄ where
  open h use {hash_new, hash_get, hash_add, hash_remove, get-new, get-remove}

  -- Both functions of hash+.c, one operation after the other.
  unfoldable pub run : List Operation → T → Run T
  run [] t = ok t
  run (insert key value ∷ ops) t = run ops (hash_text_insert t key value).1
  run (delete key ∷ ops) t = hash_text_delete t key >>= run ops

  -- The table answers with the data of the pairs, for each key.
  abbrev pub Represents : T → Entries → Type 0
  Represents t es = (j : Bytes) → hash_get t j ≡ array (collect es j)

  -- What is got, first and counted is that of the pairs.
  abbrev pub Agrees : T → Entries → Type 0
  Agrees t es =
      (j : Bytes)
      → (hash_get t j ≡ array (collect es j))
        × (hash_text_get_first (hash_get t) j ≡ first (array (collect es j)))
        × (hash_text_count_data (hash_get t) j ≡ length (collect es j))

  -- Both runs end, in a table that agrees with the pairs, or both with the same fault.
  pub Same : Run T → Run Entries → Type 0
  Same (ok t) (ok es) = Agrees t es
  Same (fault f) (fault g) = f ≡ g
  Same (ok t) (fault g) = ⊥
  Same (fault f) (ok es) = ⊥

  add_to-succeeds :
      (t : T) (key : Bytes) (value : List Bytes)
      → ((t : T) (key : Bytes) (value : List Bytes) → (t' : T) × (hash_add t key value ≡ some t'))
      → add_to t key value ≡ (true, (add_to t key value).1)
  unfolding add_to
  add_to-succeeds t key value adds = let (t', added) = adds t key value in rw (added, add_to) refl

  insert-succeeds :
      (t : T) (key value : Bytes)
      → ((t : T) (key : Bytes) (value : List Bytes) → (t' : T) × (hash_add t key value ≡ some t'))
      → hash_text_insert t key value ≡ (true, (hash_text_insert t key value).1)
  unfolding hash_text_insert insert_at
  insert-succeeds t key value adds = elim (Option-cases (hash_get t key)) [
    | inl fresh ↦ rw (fresh, insert_at) (add_to-succeeds t key (value ∷ []) adds)
    | inr (old, found) ↦
        rw (found, insert_at) (add_to-succeeds (hash_remove t key) key (old ++ (value ∷ [])) adds)
  ]

  insert-Represents :
      (t t' : T) (es : Entries) (key value : Bytes)
      → hash_text_insert t key value ≡ (true, t')
      → Represents t es
      → Represents t' (es ++ ((key, value) ∷ []))
  insert-Represents t t' es key value inserted r j =
      get-hash_text_insert t key j value t' inserted
      ∙ rw (collect-append es ((key, value) ∷ []) j) (elim (Bool-cases (str_eq key j)) [
        | inl same ↦
            let e : key ≡ j = (str_eq_iff key j).0 same in
            rw same rw (r key) rw (data_of-array (collect es key)) rw e
              (sym (array-last (collect es j) value))
        | inr other ↦ rw other rw (append-nil (collect es j)) (r j)
      ])

  remove-Represents :
      (t : T) (es : Entries) (key : Bytes)
      → Represents t es
      → Represents (hash_remove t key) (without es key)
  remove-Represents t es key r j =
      get-remove t key j
      ∙ rw (collect-without es key j) (elim (Bool-cases (str_eq key j)) [
        | inl same ↦ rw same refl
        | inr other ↦ rw other (r j)
      ])

  agrees : (t : T) (es : Entries) → Represents t es → Agrees t es
  unfolding hash_text_get_first
  agrees t es r j = (r j, ap first (r j), count-array (hash_get t) j _ (r j))

  run-Same :
      (ops : List Operation) (t : T) (es : Entries)
      → ((t : T) (key : Bytes) (value : List Bytes) → (t' : T) × (hash_add t key value ≡ some t'))
      → Represents t es
      → Same (run ops t) (apply_all ops es)
  unfolding run apply_all hash_text_delete delete_from Same
  run-Same [] t es adds r = agrees t es r
  run-Same (insert key value ∷ ops) t es adds r =
      run-Same ops (hash_text_insert t key value).1 (es ++ ((key, value) ∷ [])) adds (
        insert-Represents t (hash_text_insert t key value).1 es key value
          (insert-succeeds t key value adds) r)
  run-Same (delete key ∷ ops) t es adds r = elim (Option-cases (hash_get t key)) [
    | inl missing ↦ rw (missing, hash_text_delete) rw (sym (r key) ∙ missing, delete_from) refl
    | inr (data', found) ↦
        rw (found, hash_text_delete) rw (sym (r key) ∙ found, delete_from)
          (run-Same ops (hash_remove t key) (without es key) adds (remove-Represents t es key r))
  ]

  -- Insertions and deletions on a new table do what they do on pairs of a key and a datum, whatever
  -- the hash table does, as long as it has room. Both end with the access out of bounds that deleting
  -- a key without data is, or both end well: a key then has the array of its data in the order of
  -- insertion, and none without data; the first datum and the number of data are those of the pairs.
  pub run-Refines :
      (ops : List Operation) (n : ℕ)
      → ((t : T) (key : Bytes) (value : List Bytes) → (t' : T) × (hash_add t key value ≡ some t'))
      → Same (run ops (hash_new n)) (apply_all ops [])
  run-Refines ops n adds = run-Same ops (hash_new n) [] adds (λ k. get-new n k)
