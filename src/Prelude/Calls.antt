-- ===== src/Prelude/Calls.antt =====
-- What a call can do: return, wait for ever, or read or write outside of a buffer.

pub data Outcome {ℓ} (A : Type ℓ) : Type ℓ where
  -- the call returns
  done : A → Outcome A
  -- the call waits for a key that nobody announces
  blocked : Outcome A
  -- the call accesses memory outside of the buffer that it was given
  fault : Outcome A

infixl 5 ◌>>=◌
abbrev pub ◌>>=◌ {ℓ κ} : {A : Type ℓ} {B : Type κ} → Outcome A → (A → Outcome B) → Outcome B
done a >>= f = f a
blocked >>= f = blocked
fault >>= f = fault
