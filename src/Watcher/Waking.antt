-- ===== src/Watcher/Waking.antt =====
-- What a waiter is woken by.
use mochi_yokan.Prelude.{
  ℕ, suc, ◌≡◌, refl, sym, ap, map, ◌∙◌, Bool, true, false, some, [], ◌∷◌, arith, Bool-cases, inl,
  inr, if◌then◌else◌, ==_refl,
}
use mochi_yokan.Common.{Bytes}
use mochi_yokan.OrderedMap.{same}
use mochi_yokan.KeyOrder.{lex, lex-IsStrictWeak, eq_of_same-lex}
use mochi_yokan.Docs.Store.{same_bytes}
use mochi_yokan.Docs.Store.Durable.{same_bytes_refl}
use mochi_yokan.MapDb.State.{WaitStatus, key_present, timeout}
use mochi_yokan.Watcher.Defs.{
  Entry, Expected, fresh, add_key, range_first, notify_key, time_out_all, search, remove, returned,
  sleeping, wait_key,
}

-- Whether somebody waits for a key.
unfoldable pub is_expected : Bytes → Expected → Bool
is_expected key [] = false
is_expected key (e ∷ es) = if same_bytes e.key key then true else is_expected key es

abbrev pub settle : WaitStatus → Entry → Entry
settle status e = record e { status = some status }

-- Of two keys that differ, one comes before the other.
before : (a b : Bytes) → same_bytes a b ≡ false → lex b a ≡ false → lex a b ≡ true
unfolding same
before a b apart h = elim (Bool-cases (lex a b)) [
  | inl e ↦ e
  | inr e ↦ absurd (
      ground
        (arith, ap (λ c. same_bytes a c) (eq_of_same-lex a b (rw (same, e, h))), same_bytes_refl a))
]

-- An entry that is put in, with its status, where `add_key` puts it.
abbrev put_in : Entry → Expected → Expected
put_in e [] = e ∷ []
put_in e (f ∷ es) = if lex e.key f.key then e ∷ f ∷ es else f ∷ put_in e es

add_key-eq-put_in :
    (address : ℕ) (key : Bytes) (es : Expected)
    → add_key address key es ≡ put_in (fresh address key) es
unfolding add_key
add_key-eq-put_in address key [] = refl
add_key-eq-put_in address key (e ∷ es) = rw (add_key-eq-put_in address key es)

-- Where nobody else waits for the key, its range starts with the entry.
range_first-put_in :
    (e : Entry) (es : Expected)
    → is_expected e.key es ≡ false
    → (it : Expected) × (range_first e.key (put_in e es) ≡ e ∷ it)
unfolding range_first is_expected
range_first-put_in e [] h = ([], rw (lex-IsStrictWeak.irrefl e.key))
range_first-put_in e (f ∷ es) h = elim (Bool-cases (same_bytes f.key e.key)) [
  | inl p ↦ absurd (ground arith)
  | inr p ↦ elim (Bool-cases (lex e.key f.key)) [
    | inl q ↦ (f ∷ es, rw (q, lex-IsStrictWeak.irrefl e.key))
    | inr q ↦
        let (it, first) = range_first-put_in e es (ground arith) in
        (it, rw (q, before f.key e.key p q) first)
  ]
]

remove-put_in :
    (e : Entry) (es : Expected)
    → is_expected e.key es ≡ false
    → remove e.address e.key (put_in e es) ≡ es
unfolding remove is_expected
remove-put_in e [] h = rw (same_bytes_refl e.key, ==_refl e.address)
remove-put_in e (f ∷ es) h = elim (Bool-cases (same_bytes f.key e.key)) [
  | inl p ↦ absurd (ground arith)
  | inr p ↦ elim (Bool-cases (lex e.key f.key)) [
    | inl q ↦ rw (q, same_bytes_refl e.key, ==_refl e.address)
    | inr q ↦ rw (q, p) (ap (λ fs. f ∷ fs) (remove-put_in e es (ground arith)))
  ]
]

notify_absent : (key : Bytes) (es : Expected) → is_expected key es ≡ false → notify_key key es ≡ es
unfolding notify_key is_expected
notify_absent key [] h = refl
notify_absent key (e ∷ es) h = elim (Bool-cases (same_bytes e.key key)) [
  | inl p ↦ absurd (ground arith)
  | inr p ↦ rw p (ap (λ fs. e ∷ fs) (notify_absent key es (ground arith)))
]

notify_key-put_in :
    (e : Entry) (es : Expected)
    → is_expected e.key es ≡ false
    → notify_key e.key (put_in e es) ≡ put_in (settle key_present e) es
unfolding notify_key is_expected
notify_key-put_in e [] h = rw (same_bytes_refl e.key)
notify_key-put_in e (f ∷ es) h = elim (Bool-cases (same_bytes f.key e.key)) [
  | inl p ↦ absurd (ground arith)
  | inr p ↦ elim (Bool-cases (lex e.key f.key)) [
    | inl q ↦
        rw (q, same_bytes_refl e.key, p)
          (ap (λ fs. settle key_present e ∷ f ∷ fs) (notify_absent e.key es (ground arith)))
    | inr q ↦ rw (q, p) (ap (λ fs. f ∷ fs) (notify_key-put_in e es (ground arith)))
  ]
]

time_out_all-put_in :
    (e : Entry) (es : Expected)
    → time_out_all (put_in e es) ≡ put_in (settle timeout e) (time_out_all es)
unfolding time_out_all
time_out_all-put_in e [] = refl
time_out_all-put_in e (f ∷ es) = elim (Bool-cases (lex e.key f.key)) [
  | inl q ↦ rw q
  | inr q ↦ rw q (ap (λ fs. settle timeout f ∷ fs) (time_out_all-put_in e es))
]

is_expected-time_out_all :
    (key : Bytes) (es : Expected) → is_expected key (time_out_all es) ≡ is_expected key es
unfolding is_expected time_out_all
is_expected-time_out_all key [] = refl
is_expected-time_out_all key (e ∷ es) = rw (is_expected-time_out_all key es)

time_out_all-eq-map : (es : Expected) → time_out_all es ≡ map (settle timeout) es
unfolding time_out_all
time_out_all-eq-map [] = refl
time_out_all-eq-map (e ∷ es) = ap (λ fs. settle timeout e ∷ fs) (time_out_all-eq-map es)

-- The only waiter for its key finds its entry in one round.
wait_key-put_in :
    (rounds address : ℕ) (key : Bytes) (es : Expected)
    → is_expected key es ≡ false
    → (wait_key (suc rounds) address key (put_in (fresh address key) es) ≡ sleeping)
      × ((s : WaitStatus)
          → wait_key (suc rounds) address key (put_in (settle s (fresh address key)) es)
            ≡ returned s es)
unfolding wait_key search
wait_key-put_in rounds address key es h = (
  (let (it, first) = range_first-put_in (fresh address key) es h in
      rw (wait_key, first, search, same_bytes_refl key, ==_refl address)),
  (λ s.
      let (it, first) = range_first-put_in (settle s (fresh address key)) es h in
      rw (
        wait_key,
        first,
        search,
        same_bytes_refl key,
        ==_refl address,
        remove-put_in (settle s (fresh address key)) es h,
      )),
)

-- A waiter that is the only one for its key sleeps until a notification. Behind a notification for the
-- key it returns that the key is there, in one round of the search, and takes its entry with it: what
-- is left are the entries of the others, as they were. Behind the end of the watcher it returns that it
-- timed out, and leaves the entries of the others, in their order, each marked as timed out.
pub wait_key-notify_key :
    (rounds address : ℕ) (key : Bytes) (es : Expected)
    → is_expected key es ≡ false
    → (wait_key (suc rounds) address key (add_key address key es) ≡ sleeping)
      × (wait_key (suc rounds) address key (notify_key key (add_key address key es))
          ≡ returned key_present es)
      × (wait_key (suc rounds) address key (time_out_all (add_key address key es))
          ≡ returned timeout (map (settle timeout) es))
wait_key-notify_key rounds address key es h = (
  rw (add_key-eq-put_in address key es) ((wait_key-put_in rounds address key es h).0),
  rw (add_key-eq-put_in address key es, notify_key-put_in (fresh address key) es h)
      ((wait_key-put_in rounds address key es h).1 key_present),
  rw
      (
        add_key-eq-put_in address key es,
        time_out_all-put_in (fresh address key) es,
        sym (time_out_all-eq-map es),
      )
      ((wait_key-put_in rounds address key (time_out_all es)
          (is_expected-time_out_all key es ∙ h)).1
        timeout),
)
