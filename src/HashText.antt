-- ===== src/HashText.antt =====
-- src/iyelld/hash+.c: a hash table of string arrays, over the hash table of src/iyelld/hash.c. That
-- is a library which the program copies: a parameter, with what its header documents as laws.
pub mod Insert
pub mod Refinement
use iyell.Base.{
  ℕ, Bool, true, false, Run, ok, fault, out_of_bounds, List, [], ◌∷◌, ◌++◌, Option, none, some, ◌≡◌,
  ◌≢◌, if◌then◌else◌,
}
use iyell.CString.{Bytes, str_eq}
use iyell.Conf.{first}

pub record HashTable (T : Type 0) : Type 0 where
  pub hash_new : ℕ → T
  pub hash_get : T → Bytes → Option (List Bytes)
  -- `none` is an error; the table is then as it was.
  pub hash_add : T → Bytes → List Bytes → Option T
  pub hash_remove : T → Bytes → T
  -- The records that hold a key, in the order of the table.
  pub records : T → List (Bytes × List Bytes)
  pub get-new : (n : ℕ) (key : Bytes) → hash_get (hash_new n) key ≡ none
  pub get-add :
      (t : T) (key j : Bytes) (value : List Bytes) (t' : T)
      → hash_get t key ≡ none
      → hash_add t key value ≡ some t'
      → hash_get t' j ≡ (if str_eq key j then some value else hash_get t j)
  pub get-remove :
      (t : T) (key j : Bytes)
      → hash_get (hash_remove t key) j ≡ (if str_eq key j then none else hash_get t j)

module _ {T : Type 0} ⦃h : HashTable T⦄ where
  open h use {hash_get, hash_add, hash_remove}

  -- An error of `hash_add` is passed on, with what is left of the table.
  add_to : T → Bytes → List Bytes → Bool × T
  add_to mem key value = elim (hash_add mem key value) [
    | none ↦ (false, mem)
    | some mem' ↦ (true, mem')
  ]

  insert_at : Option (List Bytes) → T → Bytes → Bytes → Bool × T
  unfolding add_to
  insert_at none mem key new_data = add_to mem key (new_data ∷ [])
  insert_at (some hash_data) mem key new_data =
      add_to (hash_remove mem key) key (hash_data ++ (new_data ∷ []))

  -- 0 is `true`.
  unfoldable pub hash_text_insert : T → Bytes → Bytes → Bool × T
  unfolding insert_at
  hash_text_insert mem key new_data = insert_at (hash_get mem key) mem key new_data

  -- The first loop looks for the key's own record, and stops at it only: without one it reads past
  -- the end of the records.
  unfoldable pub hash_text_delete : T → Bytes → Run T
  hash_text_delete mem key = elim (hash_get mem key) [
    | none ↦ fault out_of_bounds
    | some data' ↦ ok (hash_remove mem key)
  ]
