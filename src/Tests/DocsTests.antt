-- ===== src/Tests/DocsTests.antt =====
-- Two documents of a collection.
use mochi_yokan.Prelude.{◌≡◌, [], ◌∷◌, arith, ltb}
use mochi_yokan.KeyOrder.{default_mem_cmp}
use mochi_yokan.Docs.Keys.{key_from_id, Metadata, key_from_id-order}

key_from_id-order_example :
    default_mem_cmp (key_from_id (97 ∷ []) 3) (key_from_id (97 ∷ []) 256) ≡ ltb 3 256
key_from_id-order_example = key_from_id-order (97 ∷ []) 3 256 (omega arith) (omega arith)

abbrev five : Metadata
five = record { size = 5; last_id = 700 }
