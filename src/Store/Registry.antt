-- ===== src/Store/Registry.antt =====
-- The index of the API keys by hash: creation, deletion and rotation.
use llmgateway.Prelude.{
  ◌≡◌, ◌≢◌, ◌∙◌, none, some, String, str_eq, str_eq_self, str_eq_ne, arith, if◌then◌else◌,
}
use llmgateway.Prelude.Dict.{lookup, lookup-insert, lookup-delete}
use llmgateway.Store.Keys.{ApiKey}
use llmgateway.Store.Catalog.{
  Store, Pointer, write, stamped, api_key_by_raw, upsert_api_key, delete_api_key, rotate_api_key,
}

module _ (hash_key : String → String) where
  -- A key that is created or replaced with a raw text is found by that text.
  pub api_key_by_raw-upsert :
      (p : Pointer) (raw : String) (s : Store)
      → raw ≢ ""
      → hash_key raw ≢ ""
      → api_key_by_raw hash_key raw (upsert_api_key hash_key p raw s) ≡ some p
  unfolding api_key_by_raw upsert_api_key
  api_key_by_raw-upsert p raw s n h =
      let k : (stamped hash_key (s.heap p) raw).key_hash ≡ hash_key raw =
        unfold stamped in ground (arith, str_eq_ne raw "" n) in
      ground (
        arith,
        k,
        str_eq_ne (hash_key raw) "" h,
        lookup-insert (hash_key raw) (hash_key raw) p s.key_by_hash,
        str_eq_self (hash_key raw),
      )

  stamped-hash :
      (k : ApiKey) (raw : String) → raw ≢ "" → (stamped hash_key k raw).key_hash ≡ hash_key raw
  unfolding stamped
  stamped-hash k raw n = ground (arith, str_eq_ne raw "" n)

  stamped-id : (k : ApiKey) (raw : String) → k.id ≢ "" → (stamped hash_key k raw).id ≡ k.id
  unfolding stamped
  stamped-id k raw n = ground (arith, str_eq_ne k.id "" n)

  -- The index after an upsert with a raw text.
  upsert-index :
      (p : Pointer) (raw h : String) (s : Store)
      → raw ≢ ""
      → hash_key raw ≢ ""
      → lookup h (upsert_api_key hash_key p raw s).key_by_hash
        ≡ (if str_eq (hash_key raw) h then some p else lookup h s.key_by_hash)
  unfolding upsert_api_key
  upsert-index p raw h s n m =
      let e = stamped-hash (s.heap p) raw n in
      rw (e, str_eq_ne (hash_key raw) "" m) (lookup-insert (hash_key raw) h p s.key_by_hash)

  -- The index after a deletion: the hash of the key with this id is gone from it.
  delete-index :
      (id h : String) (p : Pointer) (s : Store)
      → lookup id s.api_keys ≡ some p
      → lookup h (delete_api_key id s).key_by_hash
        ≡ (if str_eq (s.heap p).key_hash h then none else lookup h s.key_by_hash)
  unfolding delete_api_key
  delete-index id h p s e =
      rw (e, delete_api_key) (lookup-delete (s.heap p).key_hash h s.key_by_hash)

  -- Rotating a key puts the old raw text out of use at once, and the new one in use for the same
  -- key. The new text and its hash are not empty, and the hash is not the old one.
  pub rotate_api_key-index :
      (p : Pointer) (raw : String) (s : Store)
      → lookup (s.heap p).id s.api_keys ≡ some p
      → raw ≢ ""
      → hash_key raw ≢ ""
      → hash_key raw ≢ (s.heap p).key_hash
      → (lookup (s.heap p).key_hash (rotate_api_key hash_key p raw s).key_by_hash ≡ none)
        × (api_key_by_raw hash_key raw (rotate_api_key hash_key p raw s) ≡ some p)
  unfolding rotate_api_key api_key_by_raw
  rotate_api_key-index p raw s e n m d =
      let h = (s.heap p).key_hash in
      let gone = delete-index (s.heap p).id h p s e in
      (
        upsert-index p raw h _ n m
            ∙ ground (arith, str_eq_ne (hash_key raw) h d, gone, str_eq_self h),
        upsert-index p raw (hash_key raw) _ n m ∙ ground (arith, str_eq_self (hash_key raw)),
      )

  upsert-id :
      (q : Pointer) (raw : String) (s : Store)
      → (s.heap q).id ≢ ""
      → lookup (s.heap q).id (upsert_api_key hash_key q raw s).api_keys ≡ some q
  unfolding upsert_api_key
  upsert-id q raw s n =
      let e = stamped-id (s.heap q) raw n in
      rw e (
        lookup-insert (s.heap q).id (s.heap q).id q s.api_keys
        ∙ ground (arith, str_eq_self (s.heap q).id))

  upsert-heap :
      (q : Pointer) (raw : String) (s : Store)
      → raw ≢ ""
      → ((upsert_api_key hash_key q raw s).heap q).key_hash ≡ hash_key raw
  unfolding upsert_api_key write
  upsert-heap q raw s n = let e = stamped-hash (s.heap q) raw n in ground (arith, e)

  -- A key that is replaced under its id by another one with another hash keeps working: its hash
  -- still leads to it after the replacement, and also after the id is deleted.
  pub upsert_api_key-stale :
      (p q : Pointer) (raw h : String) (s : Store)
      → lookup h s.key_by_hash ≡ some p
      → (s.heap q).id ≢ ""
      → raw ≢ ""
      → hash_key raw ≢ ""
      → hash_key raw ≢ h
      → let replaced = upsert_api_key hash_key q raw s in
        (lookup h replaced.key_by_hash ≡ some p)
        × (lookup h (delete_api_key (s.heap q).id replaced).key_by_hash ≡ some p)
  upsert_api_key-stale p q raw h s e i n m d =
      let r = upsert_api_key hash_key q raw s in
      let kept : lookup h r.key_by_hash ≡ some p =
        upsert-index q raw h s n m ∙ ground (arith, str_eq_ne (hash_key raw) h d, e) in
      let at = delete-index (s.heap q).id h q r (upsert-id q raw s i) in
      (kept, at ∙ ground (arith, upsert-heap q raw s n, str_eq_ne (hash_key raw) h d, kept))
