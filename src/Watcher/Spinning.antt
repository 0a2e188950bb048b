-- ===== src/Watcher/Spinning.antt =====
-- The search of `waitKey`: when it ends, and with which entry.
use mochi_yokan.Prelude.{
  ℕ, zero, suc, ◌≡◌, refl, ◌↔◌, ap, Bool, true, false, not, none, some, [], ◌∷◌, ◌++◌, ◌==◌,
  ==_refl, arith, Bool-cases, Option-cases, inl, inr, if◌then◌else◌,
}
use mochi_yokan.Common.{Bytes}
use mochi_yokan.KeyOrder.{lex}
use mochi_yokan.Docs.Store.{same_bytes}
use mochi_yokan.Docs.Store.Durable.{same_bytes_refl, same_bytes-eq}
use mochi_yokan.Watcher.Defs.{
  Entry, Expected, range_first, search, Waited, returned, sleeping, spinning, wait_key, remove,
}
use mochi_yokan.MapDb.State.{WaitStatus}

-- Whether the iterator is at an entry for the key that is the one of another address.
abbrev pub at_other : ℕ → Bytes → Expected → Bool
at_other address key [] = false
at_other address key (e ∷ es) = if same_bytes e.key key then not (e.address == address) else false

search_spins :
    (rounds address : ℕ) (key : Bytes) (it : Expected)
    → at_other address key it ≡ true
    → search rounds address key it ≡ none
unfolding search
search_spins zero address key it h = refl
search_spins (suc rounds) address key [] h = absurd (ground arith)
search_spins (suc rounds) address key (e ∷ es) h =
    ground (arith, search_spins rounds address key (e ∷ es))

-- Else the first round ends it, where it is.
search_ends :
    (rounds address : ℕ) (key : Bytes) (it : Expected)
    → at_other address key it ≡ false
    → search (suc rounds) address key it ≡ some it
unfolding search
search_ends rounds address key [] h = refl
search_ends rounds address key (e ∷ es) h = ground arith

abbrev is_spinning : Waited → Bool
is_spinning (returned status es) = false
is_spinning sleeping = false
is_spinning spinning = true

outcome_ends :
    (address : ℕ) (key : Bytes) (es it : Expected)
    → search 1 address key (range_first key es) ≡ some it
    → is_spinning (wait_key 1 address key es) ≡ false
unfolding wait_key
outcome_ends address key es [] h = rw (wait_key, h)
outcome_ends address key es (e ∷ it) h = elim (Option-cases e.status) [
  | inl p ↦ rw (wait_key, h, p)
  | inr p ↦ rw (wait_key, h, p.1)
]

-- `waitKey` spins, however many rounds its loop is given, if and only if the first entry for the key
-- is one of another waiter.
pub wait_key-spins_iff :
    (address : ℕ) (key : Bytes) (es : Expected)
    → ((rounds : ℕ) → wait_key rounds address key es ≡ spinning)
      ↔ (at_other address key (range_first key es) ≡ true)
unfolding wait_key
wait_key-spins_iff address key es =
    (forth, λ h rounds. rw (wait_key, search_spins rounds address key (range_first key es) h))
  where
    forth :
        ((rounds : ℕ) → wait_key rounds address key es ≡ spinning)
        → at_other address key (range_first key es) ≡ true
    forth h = elim (Bool-cases (at_other address key (range_first key es))) [
      | inl e ↦ e
      | inr e ↦
          let ends = search_ends 0 address key (range_first key es) e in
          absurd (ground (arith, outcome_ends address key es _ ends, ap is_spinning (h 1)))
    ]

-- All entries are for keys before the given one.
abbrev pub AllBefore : Bytes → Expected → Type 0
AllBefore key [] = Unit
AllBefore key (x ∷ xs) = (lex x.key key ≡ true) × AllBefore key xs

range_first-behind :
    (key : Bytes) (xs it : Expected) (e : Entry)
    → AllBefore key xs
    → lex e.key key ≡ false
    → range_first key (xs ++ e ∷ it) ≡ e ∷ it
unfolding range_first
range_first-behind key [] it e a h = rw h
range_first-behind key (x ∷ xs) it e a h = rw (a.0) (range_first-behind key xs it e a.1 h)

-- An entry behind the place of a key is for another key than those before that place.
apart : (key x e : Bytes) → lex x key ≡ true → lex e key ≡ false → same_bytes x e ≡ false
apart key x e h l = elim (Bool-cases (same_bytes x e)) [
  | inl s ↦ absurd (ground (arith, ap (λ k. lex k key) (same_bytes-eq x e s)))
  | inr s ↦ s
]

remove-behind :
    (key : Bytes) (xs it : Expected) (e : Entry)
    → AllBefore key xs
    → lex e.key key ≡ false
    → remove e.address e.key (xs ++ e ∷ it) ≡ xs ++ it
unfolding remove
remove-behind key [] it e a h = rw (same_bytes_refl e.key, ==_refl e.address)
remove-behind key (x ∷ xs) it e a h =
    rw (apart key x.key e.key a.0 h) (ap (◌∷◌ x) (remove-behind key xs it e a.1 h))

-- A wait for a key of which there is no entry, where entries for lesser keys are in front and the
-- first behind its place is a settled one for another key: it returns the status of that entry, in
-- place of an error, and takes that entry, which is another waiter's, away. All others stay.
pub wait_key-steals :
    (rounds address : ℕ) (key : Bytes) (before it : Expected) (e : Entry) (status : WaitStatus)
    → AllBefore key before
    → lex e.key key ≡ false
    → same_bytes e.key key ≡ false
    → e.status ≡ some status
    → wait_key (suc rounds) address key (before ++ e ∷ it) ≡ returned status (before ++ it)
unfolding wait_key
wait_key-steals rounds address key before it e status lesser behind other settled =
    rw
      (
        wait_key,
        range_first-behind key before it e lesser behind,
        search_ends rounds address key (e ∷ it) (rw other),
        settled,
        remove-behind key before it e lesser behind,
      )
      refl
