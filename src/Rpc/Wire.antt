-- ===== src/Rpc/Wire.antt =====
-- The answers that carry data: `hg_proc_uint64_list` and `hg_proc_raw_data` of src/common/types.h, as
-- they decode into the memory of a caller, and the calls around them.
use mochi_yokan.Prelude.{
  ℕ, ◌≤◌, ◌≡◌, refl, ◌∙◌, not, ◌&&◌, Option, none, some, List, ◌++◌, ltb, length, drop,
  if◌then◌else◌, le→ltb, append-nil, drop_all, sym, arith, Outcome, done, ◌>>=◌,
}
use mochi_yokan.Common.{Bytes}
use mochi_yokan.Rpc.Codes.{Return, err_from_mercury}
use mochi_yokan.Rpc.Call.{Arrival, Network}
use mochi_yokan.Rpc.Sound.{IsSound}

-- Items that are received into memory for at least as many; none is HG_NOMEM.
unfoldable pub decode_items {ℓ} : {A : Type ℓ} → List A → List A → Option (List A)
decode_items items memory =
    if ltb (length memory) (length items) then none else some (items ++ drop (length items) memory)

-- The answer of a call that carries its values inline: the sizes, and the bytes.
abbrev pub Values : Type 0
Values = List ℕ × Bytes

-- The memory for them, where the pointer to the bytes may be null: what is received is then put
-- elsewhere, and lost.
abbrev pub Room : Type 0
Room = List ℕ × Option Bytes

-- The output is decoded in the order of its fields.
unfoldable pub decode_values : Values → Room → Option Room
decode_values (sizes, vals) (sizes_memory, none) = elim (decode_items sizes sizes_memory) [
  | none ↦ none
  | some sizes' ↦ some (sizes', none)
]
decode_values (sizes, vals) (sizes_memory, some vals_memory) =
    elim (decode_items sizes sizes_memory) [
      | none ↦ none
      | some sizes' ↦ elim (decode_items vals vals_memory) [
        | none ↦ none
        | some vals' ↦ some (sizes', some vals')
      ]
    ]

-- `margo_create`, `margo_provider_forward`, `margo_get_output` and `margo_free_output` around a handler
-- that answers with an output, which is decoded into the memory of the caller.
unfoldable pub forward_out {ℓ κ μ} :
    {M : Type ℓ} {O : Type κ} {S : Type μ}
    → Network
    → (O → M → Option M)
    → (S → Outcome (Return × (O × S)))
    → M
    → S
    → Outcome (Return × (M × S))
forward_out net decoded handler m s =
    if not (net.created && net.handled) then done (err_from_mercury, (m, s)) else do
      (ret, (out, s')) ← handler s
      let received = if net.forwarded && net.output_decoded then decoded out m else none
      elim received [
        | none ↦ done (err_from_mercury, (m, s'))
        | some m' ↦ done ((if net.output_freed then ret else err_from_mercury), (m', s'))
      ]

pub decode_items_within {ℓ} :
    {A : Type ℓ} (items memory : List A)
    → length items ≤ length memory
    → decode_items items memory ≡ some (items ++ drop (length items) memory)
unfolding decode_items
decode_items_within items memory h = rw (le→ltb (length memory) (length items) h) refl

-- As many items as there is room for replace what was there.
pub decode_items_same {ℓ} :
    {A : Type ℓ} (items memory : List A)
    → length items ≡ length memory
    → decode_items items memory ≡ some items
decode_items_same items memory e =
    decode_items_within items memory (omega arith)
    ∙ rw (drop_all (length items) memory (sym e), append-nil) refl

-- A call on which nothing goes wrong brings what the handler answers.
pub received {ℓ κ μ} :
    {M : Type ℓ} {O : Type κ} {S : Type μ} (net : Network) (a : Arrival)
    (decoded : O → M → Option M) (handler : S → Outcome (Return × (O × S))) (m m' : M) (s s' : S)
    (ret : Return) (out : O)
    → IsSound net a
    → handler s ≡ done (ret, (out, s'))
    → decoded out m ≡ some m'
    → forward_out net decoded handler m s ≡ done (ret, (m', s'))
unfolding forward_out
received net a decoded handler m m' s s' ret out sound h e =
    rw
      (
        forward_out, sound.created, sound.handled, h, sound.forwarded, sound.output_decoded, e,
        sound.output_freed,
      )
      refl
