-- ===== src/Metadata/Kv.antt =====
-- The key-value commands of picomq/pico-metadata/src/apply.rs.
use streamstack.Prelude.{none, some}
use streamstack.OrdMap.{OrdMap}
use streamstack.OrdMap.Keys.{text_key}
use streamstack.Metadata.Types.{Bytes, MetadataResult, value, ok}
use streamstack.Metadata.State.{MetadataState, Outcome}

module _ ⦃im : OrdMap⦄ where
  open im use {get, insert, remove}

  unfoldable pub put_kv : Bytes → Bytes → MetadataState → Outcome MetadataState MetadataResult
  put_kv k v s = (ok (value (some v)), record s { kv = insert s.kv k v })

  unfoldable pub put_kv_if_absent :
      Bytes → Bytes → MetadataState → Outcome MetadataState MetadataResult
  put_kv_if_absent k v s = elim (get s.kv k) [
    | some existing ↦ (ok (value (some existing)), s)
    | none ↦ (ok (value (some v)), record s { kv = insert s.kv k v })
  ]

  unfoldable pub delete_kv : Bytes → MetadataState → Outcome MetadataState MetadataResult
  delete_kv k s = (ok (value (get s.kv k)), record s { kv = remove s.kv k })
