-- ===== src/HashText/Insert.antt =====
-- The insertion of a datum under a key, src/iyelld/hash+.c.
use iyell.Base.{
  true, List, [], ◌∷◌, ◌++◌, Option, none, some, ◌≡◌, ap, ◌∙◌, arith, if◌then◌else◌, Option-cases,
  inl, inr,
}
use iyell.CString.{Bytes, str_eq}
use iyell.CString.Split.{str_eq_refl}
use iyell.HashText.{HashTable, hash_text_insert, add_to, insert_at}

-- What was stored under the key, or nothing.
unfoldable pub data_of : Option (List Bytes) → List Bytes
data_of none = []
data_of (some l) = l

module _ {T : Type 0} ⦃h : HashTable T⦄ where
  open h use {hash_get, hash_add, hash_remove, get-add, get-remove}

  add_to-get :
      (mem : T) (key j : Bytes) (value : List Bytes) (mem' : T)
      → hash_get mem key ≡ none
      → add_to mem key value ≡ (true, mem')
      → hash_get mem' j ≡ (if str_eq key j then some value else hash_get mem j)
  unfolding add_to
  add_to-get mem key j value mem' fresh e = elim (Option-cases (hash_add mem key value)) [
    | inl refused ↦ absurd (ground arith)
    | inr (t, added) ↦
        let same : t ≡ mem' = ground arith in
        get-add mem key j value mem' fresh (added ∙ ap some same)
  ]

  -- An insertion that succeeds appends the datum to those of its key, and leaves the other keys.
  pub get-hash_text_insert :
      (mem : T) (key j new_data : Bytes) (mem' : T)
      → hash_text_insert mem key new_data ≡ (true, mem')
      → hash_get mem' j ≡ (
          if str_eq key j
          then some (data_of (hash_get mem key) ++ (new_data ∷ []))
          else hash_get mem j)
  unfolding hash_text_insert data_of
  get-hash_text_insert mem key j new_data mem' e = elim (Option-cases (hash_get mem key)) [
    | inl fresh ↦
        rw fresh (add_to-get mem key j (new_data ∷ []) mem' fresh (rw (fresh, insert_at) at e))
    | inr (old, found) ↦
        let gone : hash_get (hash_remove mem key) key ≡ none =
          get-remove mem key key ∙ rw (str_eq_refl key) in
        let added =
          add_to-get (hash_remove mem key) key j (old ++ (new_data ∷ [])) mem' gone
            (rw (found, insert_at) at e) in
        rw found (added ∙ rw (get-remove mem key j) (ground arith))
  ]
