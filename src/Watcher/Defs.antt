-- ===== src/Watcher/Defs.antt =====
-- The operations of the watcher, each under its mutex. `waitKey` sleeps on a condition with the mutex
-- released: a call that comes to sleep is one to be made again when the entry has changed.
use mochi_yokan.Prelude.{ℕ, zero, suc, ◌&&◌, Option, none, some, List, [], ◌∷◌, ◌==◌, if◌then◌else◌}
use mochi_yokan.Common.{Bytes}
use mochi_yokan.KeyOrder.{lex}
use mochi_yokan.Docs.Store.{same_bytes}
use mochi_yokan.MapDb.State.{WaitStatus, key_present, timeout, logic_error}

-- An entry of the multimap: a key as the view that it is, by its address and its bytes.
pub record Entry : Type 0 where
  pub address : ℕ
  pub key : Bytes
  -- none is `Pending`
  pub status : Option WaitStatus

-- `m_expected_keys`, in the order of iteration: by the keys, as `std::string_view` compares them.
abbrev pub Expected : Type 0
Expected = List Entry

abbrev pub fresh : ℕ → Bytes → Entry
fresh address key = record { address = address; key = key; status = none }

-- A multimap puts a new entry behind those that have its key.
unfoldable pub add_key : ℕ → Bytes → Expected → Expected
add_key address key [] = fresh address key ∷ []
add_key address key (e ∷ es) =
    if lex key e.key then fresh address key ∷ e ∷ es else e ∷ add_key address key es

-- The entries from `equal_range(key).first` on.
unfoldable pub range_first : Bytes → Expected → Expected
range_first key [] = []
range_first key (e ∷ es) = if lex e.key key then range_first key es else e ∷ es

unfoldable pub notify_key : Bytes → Expected → Expected
notify_key key [] = []
notify_key key (e ∷ es) =
    let rest = notify_key key es in
    if same_bytes e.key key then record e { status = some key_present } ∷ rest else e ∷ rest

-- The first loop of the destructor.
unfoldable pub time_out_all : Expected → Expected
time_out_all [] = []
time_out_all (e ∷ es) = record e { status = some timeout } ∷ time_out_all es

-- The search of `waitKey` from an iterator on, for at most so many rounds of its loop: the iterator
-- that it ends with, by the entries from there on. The loop does not advance the iterator. It stands at
-- `range.second` where its entry has another key or where there is none.
unfoldable pub search : ℕ → ℕ → Bytes → Expected → Option Expected
search zero address key it = none
search (suc rounds) address key [] = some []
search (suc rounds) address key (e ∷ es) =
    let again = search rounds address key (e ∷ es) in
    if same_bytes e.key key
    then (if e.address == address then some (e ∷ es) else again)
    else some (e ∷ es)

-- `m_expected_keys.erase(it)`, for the entry of that address and key.
unfoldable pub remove : ℕ → Bytes → Expected → Expected
remove address key [] = []
remove address key (e ∷ es) =
    let rest = e ∷ remove address key es in
    if same_bytes e.key key && (e.address == address) then es else rest

pub data Waited : Type 0 where
  returned : WaitStatus → Expected → Waited
  -- on the condition of the entry
  sleeping : Waited
  -- in the search, which has not ended
  spinning : Waited

unfoldable pub wait_key : ℕ → ℕ → Bytes → Expected → Waited
unfolding range_first search remove
wait_key rounds address key es = elim (search rounds address key (range_first key es)) [
  | none ↦ spinning
  | some [] ↦ returned logic_error es
  | some (e ∷ it) ↦ elim e.status [
    | none ↦ sleeping
    | some status ↦ returned status (remove e.address e.key es)
  ]
]
