-- ===== src/Memory/Defs.antt =====
-- A memory is the list of its bytes; an access that leaves it is a fault.
use mochi_yokan.Prelude.{
  ℕ, ◌+◌, List, [], ◌∷◌, ◌++◌, ltb, length, take, drop, wrap, if◌then◌else◌, Outcome, done, fault,
  ◌>>=◌,
}
use mochi_yokan.Common.{Bytes, size_too_small}

-- The bytes at `mem.data + offset`, as code that copies or compares so many of them reads them. A view
-- of them, `UserMem{ mem.data + offset, size }`, is made without a look at them.
unfoldable pub slice : Bytes → ℕ → ℕ → Outcome Bytes
slice mem offset size =
    if ltb (length mem) (offset + size) then fault else done (take size (drop offset mem))

-- `std::memcpy(mem.data + offset, src, size)`
unfoldable pub write : Bytes → ℕ → Bytes → Outcome Bytes
write mem offset src =
    if ltb (length mem) (offset + length src)
    then fault
    else done (take offset mem ++ (src ++ drop (offset + length src) mem))

-- `valCopy`: the size that it returns, and the memory after it.
unfoldable pub val_copy : Bytes → ℕ → ℕ → Bytes → Outcome (ℕ × Bytes)
unfolding write
val_copy mem offset max_dst_size val =
    if ltb max_dst_size (length val)
    then done (size_too_small, mem)
    else do mem' ← write mem offset val; done (length val, mem')

-- `std::accumulate` of sizes in a size_t.
unfoldable pub total : List ℕ → ℕ → ℕ
total [] acc = acc
total (s ∷ ss) acc = total ss (wrap (acc + s))
