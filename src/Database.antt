-- ===== src/Database.antt =====
-- `DatabaseInterface` of include/yokan/backend.hpp: the operations that a backend offers, and the
-- laws by which its clients use them.
pub mod Spec
pub mod Laws
pub mod Packed
use mochi_yokan.Prelude.{ℕ, Bool, List, Outcome}
use mochi_yokan.Common.{Bytes, Status}
use mochi_yokan.BitField.{BitField}
use mochi_yokan.Filter.{Filter}

-- What `get` leaves beside the status: the buffer, its size, and the sizes of the values.
pub record Reply : Type 0 where
  pub vals : Bytes
  pub vals_size : ℕ
  pub vsizes : List ℕ

-- A buffer and the size that a listing leaves it with.
abbrev pub Sized : Type 0
Sized = Bytes × ℕ

-- Each operation takes the mode first and the state last, in the order of its parameters.
pub record Database (S : Type 0) : Type 0 where
  pub supports_mode : ℕ → Bool
  pub exists : ℕ → Bytes → List ℕ → BitField → S → Outcome (Status × BitField × S)
  pub value_lengths : ℕ → Bytes → List ℕ → List ℕ → S → Outcome (Status × List ℕ × S)
  pub put : ℕ → Bytes → List ℕ → Bytes → List ℕ → S → Outcome (Status × S)
  pub get : ℕ → Bool → Bytes → List ℕ → Bytes → List ℕ → S → Outcome (Status × Reply × S)
  pub erase : ℕ → Bytes → List ℕ → S → Outcome (Status × S)
  pub list_keys :
      ℕ → Bool → Bytes → Filter → Bytes → List ℕ → S → Outcome (Status × List ℕ × Bytes × ℕ)
  pub list_key_values :
      ℕ
      → Bool
      → Bytes
      → Filter
      → Bytes
      → List ℕ
      → Bytes
      → List ℕ
      → S
      → Outcome (Status × List ℕ × List ℕ × Sized × Sized)
