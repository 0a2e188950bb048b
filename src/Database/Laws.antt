-- ===== src/Database/Laws.antt =====
-- The contract between a database and its clients, for calls that do not wait.
use mochi_yokan.Database.Spec.{
  updated, put_status, pairs, is_some, flags_from, size_of, packed_reply, among,
}
use mochi_yokan.Prelude.{
  ℕ, ◌≤◌, ◌≡◌, ◌↔◌, Bool, true, false, Option, none, List, map, length, if◌then◌else◌, done,
}
use mochi_yokan.Common.{Bytes, ok, last_valid_size, mode_wait, mode_consume, has}
use mochi_yokan.BitField.{BitField}
use mochi_yokan.BitField
use mochi_yokan.Memory.{cut, Fits}
use mochi_yokan.Database.{Database}

pub record Laws {S : Type 0} (d : Database S) : Type 1 where
  -- the value of each key
  pub view : S → Bytes → Option Bytes
  -- what every operation keeps
  pub IsValid : S → Type 0
  pub same_key : Bytes → Bytes → Bool
  pub same_key_iff : (a b : Bytes) → (same_key a b ≡ true) ↔ (a ≡ b)
  pub value_lengths_law :
      (mode : ℕ) (keys : Bytes) (ksizes vsizes : List ℕ) (s : S)
      → has mode mode_wait ≡ false
      → length ksizes ≡ length vsizes
      → Fits ksizes keys
      → d.value_lengths mode keys ksizes vsizes s
        ≡ done (ok, map (λ k. size_of (view s k)) (cut ksizes keys), s)
  pub exists_law :
      (mode : ℕ) (keys : Bytes) (ksizes : List ℕ) (f : BitField) (s : S)
      → has mode mode_wait ≡ false
      → BitField.IsValid f
      → length ksizes ≤ f.size
      → Fits ksizes keys
      → (f' : BitField) × (d.exists mode keys ksizes f s ≡ done (ok, f', s))
        × (flags_from f' 0 (length ksizes) ≡ map (λ k. is_some (view s k)) (cut ksizes keys))
        × (length f'.bytes ≡ length f.bytes)
  pub put_law :
      (mode : ℕ) (keys : Bytes) (ksizes : List ℕ) (vals : Bytes) (vsizes : List ℕ) (s : S)
      → length ksizes ≡ length vsizes
      → Fits ksizes keys
      → Fits vsizes vals
      → IsValid s
      → (s' : S) × (d.put mode keys ksizes vals vsizes s
          ≡ done (put_status mode ksizes keys (view s), s'))
        × ((j : Bytes)
            → view s' j
              ≡ updated same_key mode (pairs (cut ksizes keys) (cut vsizes vals)) j (view s j))
        × IsValid s'
  pub get_law :
      (mode : ℕ) (keys : Bytes) (ksizes : List ℕ) (vals : Bytes) (vsizes : List ℕ) (s : S)
      → has mode mode_wait ≡ false
      → has mode mode_consume ≡ false
      → length ksizes ≡ length vsizes
      → Fits ksizes keys
      → length vals ≤ last_valid_size
      → d.get mode true keys ksizes vals vsizes s
        ≡ done (ok, packed_reply vals 0 (length vals) (map (view s) (cut ksizes keys)), s)
  pub erase_law :
      (mode : ℕ) (keys : Bytes) (ksizes : List ℕ) (s : S)
      → has mode mode_wait ≡ false
      → Fits ksizes keys
      → IsValid s
      → (s' : S) × (d.erase mode keys ksizes s ≡ done (ok, s'))
        × ((j : Bytes)
            → view s' j ≡ (if among same_key (cut ksizes keys) j then none else view s j))
        × IsValid s'
