-- ===== src/MapDb/Read/Await.antt =====
-- What a search that may wait for a key comes to.
use mochi_yokan.Prelude.{
  ◌≡◌, refl, Bool, true, false, none, some, List, [], ◌∷◌, ◌++◌, append-nil, sym, ◌∙◌, ap, arith,
}
use mochi_yokan.Common.{Bytes}
use mochi_yokan.OrderedMap.{Comparator, Map, find}
use mochi_yokan.MapDb.State.{
  World, Wake, key_present, timeout, hit, miss, timed_out, stuck, await, await_from,
}

-- Wakes for the key into maps that do not have it, as when another thread erased it again.
abbrev pub AllVain : Comparator → Bytes → List Wake → Type 0
AllVain lt key [] = Unit
AllVain lt key (a ∷ ws) =
    (a.status ≡ key_present) × (find lt key a.entries ≡ none) × AllVain lt key ws

module _ (lt : Comparator) where
  -- Without WAIT a key that is not there is missed at once.
  pub await_absent :
      (key : Bytes) (w : World) → find lt key w.entries ≡ none → await lt false key w ≡ miss w
  unfolding await await_from
  await_absent key w h = go w.wakes refl
    where
      go : (ws : List Wake) → ws ≡ w.wakes → await_from lt false key w ws ≡ miss w
      go [] e = ground arith
      go (a ∷ ws) e = ground arith

  -- A key that is there is found at once, with WAIT or without.
  pub await_present :
      (wait : Bool) (key v : Bytes) (w : World)
      → find lt key w.entries ≡ some v
      → await lt wait key w ≡ hit v w
  unfolding await await_from
  await_present wait key v w h = go w.wakes refl
    where
      go : (ws : List Wake) → ws ≡ w.wakes → await_from lt wait key w ws ≡ hit v w
      go [] e = ground arith
      go (a ∷ ws) e = ground arith

  await_again :
      (key : Bytes) (w : World) (a : Wake) (ws : List Wake)
      → find lt key w.entries ≡ none
      → a.status ≡ key_present
      → await_from lt true key w (a ∷ ws)
        ≡ await_from lt true key (record w { entries = a.entries }) ws
  unfolding await_from
  await_again key w a ws h p = rw (await_from, h, p) refl

  await_from-vain :
      (key : Bytes) (w : World) (vain ws : List Wake)
      → find lt key w.entries ≡ none
      → AllVain lt key vain
      → (entries : Map) × (find lt key entries ≡ none)
        × (await_from lt true key w (vain ++ ws)
            ≡ await_from lt true key (record w { entries = entries }) ws)
  await_from-vain key w [] ws h u = (w.entries, h, refl)
  await_from-vain key w (a ∷ vain) ws h u =
      let (entries, absent, same) =
        await_from-vain key (record w { entries = a.entries }) vain ws u.1 u.2 in
      (entries, absent, await_again key w a (vain ++ ws) h u.0 ∙ same)

  await_found :
      (key v : Bytes) (w : World) (ws : List Wake)
      → find lt key w.entries ≡ some v
      → await_from lt true key w ws ≡ hit v (record w { wakes = ws })
  unfolding await_from
  await_found key v w [] h = rw (await_from, h) refl
  await_found key v w (a ∷ ws) h = rw (await_from, h) refl

  await_late :
      (key : Bytes) (w : World) (late : Map) (ws : List Wake)
      → find lt key w.entries ≡ none
      → await_from lt true key w (record { status = timeout; entries = late } ∷ ws)
        ≡ timed_out (record w { entries = late; wakes = ws })
  unfolding await_from
  await_late key w late ws h = rw (await_from, h) refl

  await_ever :
      (key : Bytes) (w : World) → find lt key w.entries ≡ none → await_from lt true key w [] ≡ stuck
  unfolding await_from
  await_ever key w h = rw (await_from, h) refl

  -- A search that waits for a key that is not there goes on after wakes into maps that still do not have
  -- it, however many. Then a wake into a map that has the key finds its value there, and leaves the later
  -- wakes; a time out ends the search, with the map as it then is; without a further wake it waits for
  -- ever.
  pub await_waits :
      (key v : Bytes) (w : World) (vain later : List Wake) (found late : Map)
      → find lt key w.entries ≡ none
      → AllVain lt key vain
      → find lt key found ≡ some v
      → (await lt true key
            (record w { wakes = vain ++ record { status = key_present; entries = found } ∷ later })
          ≡ hit v (record w { entries = found; wakes = later }))
        × (await lt true key
              (record w { wakes = vain ++ record { status = timeout; entries = late } ∷ later })
            ≡ timed_out (record w { entries = late; wakes = later }))
        × (await lt true key (record w { wakes = vain }) ≡ stuck)
  unfolding await
  await_waits key v w vain later found late h u f =
      let hits = record { status = key_present; entries = found } ∷ later in
      let ends = record { status = timeout; entries = late } ∷ later in
      let (m₁, absent₁, same₁) =
        await_from-vain key (record w { wakes = vain ++ hits }) vain hits h u in
      let (m₂, absent₂, same₂) =
        await_from-vain key (record w { wakes = vain ++ ends }) vain ends h u in
      let (m₃, absent₃, same₃) = await_from-vain key (record w { wakes = vain }) vain [] h u in
      (
        same₁
            ∙ await_again key (record w { entries = m₁; wakes = vain ++ hits }) _ later absent₁ refl
            ∙ await_found key v (record w { entries = found; wakes = vain ++ hits }) later f,
        same₂ ∙ await_late key (record w { entries = m₂; wakes = vain ++ ends }) late later absent₂,
        ap (λ ws. await_from lt true key (record w { wakes = vain }) ws) (sym (append-nil vain))
            ∙ same₃
            ∙ await_ever key (record w { entries = m₃; wakes = vain }) absent₃,
      )
