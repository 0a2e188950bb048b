-- ===== src/Tests/BitFieldTests.antt =====
-- The bit field of two bytes that `docErase` allots for nine documents.
use mochi_yokan.Prelude.{◌≡◌, refl, true, [], ◌∷◌}
use mochi_yokan.BitField.{BitField, test}

abbrev nine : BitField
nine = record { bytes = 0 ∷ 1 ∷ []; size = 9 }

ninth_bit : test nine 8 ≡ true
unfolding test
ninth_bit = refl
