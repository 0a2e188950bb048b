-- ===== src/MapDb/Erase/Contract.antt =====
-- What `erase` leaves.
use mochi_yokan.Database.Spec.{among}
use mochi_yokan.Prelude.{
  ℕ, ◌+◌, ◌≤◌, ◌<◌, ◌≡◌, refl, ◌∙◌, false, none, List, [], ◌∷◌, ◌++◌, arith, length, take, drop,
  word, wrap, if◌then◌else◌, done, ◌>>=◌, le→ltb, lt→ltb, inl, inr, Option-cases,
}
use mochi_yokan.Common.{Bytes, ok, invalid_arg, mode_wait, has}
use mochi_yokan.OrderedMap
use mochi_yokan.OrderedMap.{
  Comparator, Map, IsStrictWeak, IsSorted, same, find, find-erase, erase-IsSorted, erase_absent,
}
use mochi_yokan.Memory.{sum, cut, drop-drop, slice_within, Fits}
use mochi_yokan.MapDb.State.{World}
use mochi_yokan.MapDb.Read.Await.{await_present, await_absent}
use mochi_yokan.MapDb.Erase.{erase_loop, erase}

module _ {lt : Comparator} (o : IsStrictWeak lt) where
  erase_step :
      (keys : Bytes) (offset k : ℕ) (ks : List ℕ) (w : World)
      → length keys < word
      → offset + k ≤ length keys
      → erase_loop lt false keys offset (k ∷ ks) w
        ≡ erase_loop lt false keys
            (offset + k)
            ks
            (record w { entries = OrderedMap.erase lt (take k (drop offset keys)) w.entries })
  unfolding erase_loop
  erase_step keys off k ks w c h =
      let key = take k (drop off keys) in
      let wk : wrap (off + k) ≡ off + k = omega arith in
      rw (wk, le→ltb (length keys) (off + k) h, slice_within keys off k h)
        (elim (Option-cases (find lt key w.entries)) [
          | inl m ↦ rw (◌>>=◌, await_absent lt key w m, wk, erase_absent o key w.entries m)
          | inr (x, m) ↦ rw (◌>>=◌, await_present lt false key x w m, wk)
        ])

  erase_loop_now :
      (keys : Bytes) (offset : ℕ) (ks : List ℕ) (w : World)
      → length keys < word
      → offset + sum ks ≤ length keys
      → IsSorted lt w.entries
      → (w' : World) × (erase_loop lt false keys offset ks w ≡ done (ok, w'))
        × ((j : Bytes)
            → find lt j w'.entries ≡ (
                if among (same lt) (cut ks (drop offset keys)) j
                then none
                else find lt j w.entries))
        × IsSorted lt w'.entries
  unfolding erase_loop
  erase_loop_now keys off [] w c h s = (w, refl, λ j. refl, s)
  erase_loop_now keys off (k ∷ ks) w c h s =
      let key = take k (drop off keys) in
      let w₁ : World = record w { entries = OrderedMap.erase lt key w.entries } in
      let (w', returned, reads, s') =
        erase_loop_now keys (off + k) ks w₁ c (omega arith) (erase-IsSorted o key w.entries s) in
      (
        w',
        erase_step keys off k ks w c (omega arith) ∙ returned,
        λ j. rw (drop-drop off k keys) (ground (arith, reads j, find-erase o key j w.entries s)),
        s',
      )

  -- Without WAIT, and with sizes within the buffer, `erase` returns OK. The keys given are gone
  -- then, those that were there and those that were not; every other key reads as before, and the
  -- map stays in order.
  pub erase_contract :
      (mode : ℕ) (keys : Bytes) (ksizes : List ℕ) (w : World)
      → has mode mode_wait ≡ false
      → Fits ksizes keys
      → IsSorted lt w.entries
      → (w' : World) × (erase lt mode keys ksizes w ≡ done (ok, w'))
        × ((j : Bytes)
            → find lt j w'.entries
              ≡ (if among (same lt) (cut ksizes keys) j then none else find lt j w.entries))
        × IsSorted lt w'.entries
  unfolding erase
  erase_contract mode keys ksizes w nowait f s =
      rw nowait (erase_loop_now keys 0 ksizes w f.below_word (omega (arith, f.within)) s)

  erase_loop_partial :
      (keys : Bytes) (offset : ℕ) (ks : List ℕ) (k : ℕ) (w : World)
      → length keys < word
      → offset + sum ks ≤ length keys
      → length keys < offset + (sum ks + k)
      → offset + (sum ks + k) < word
      → IsSorted lt w.entries
      → (w' : World) × (erase_loop lt false keys offset (ks ++ k ∷ []) w ≡ done (invalid_arg, w'))
        × ((j : Bytes)
            → find lt j w'.entries ≡ (
                if among (same lt) (cut ks (drop offset keys)) j
                then none
                else find lt j w.entries))
  unfolding erase_loop
  erase_loop_partial keys off [] k w c h long below s =
      let wk : wrap (off + k) ≡ off + k = omega arith in
      (w, rw (wk, lt→ltb (length keys) (off + k) (omega arith)), λ j. refl)
  erase_loop_partial keys off (l ∷ ks) k w c h long below s =
      let key = take l (drop off keys) in
      let w₁ : World = record w { entries = OrderedMap.erase lt key w.entries } in
      let (w', returned, reads) =
        erase_loop_partial keys (off + l) ks k w₁ c (omega arith) (omega arith) (omega arith)
          (erase-IsSorted o key w.entries s) in
      (
        w',
        erase_step keys off l (ks ++ k ∷ []) w c (omega arith) ∙ returned,
        λ j. rw (drop-drop off l keys) (ground (arith, reads j, find-erase o key j w.entries s)),
      )

  -- Without WAIT, if the last key reaches beyond the buffer and those in front of it do not, the
  -- sum of the sizes not wrapping, the keys in front of it are erased all the same, no other key
  -- is, and the call reports InvalidArg.
  pub erase_partial :
      (mode : ℕ) (keys : Bytes) (ks : List ℕ) (k : ℕ) (w : World)
      → has mode mode_wait ≡ false
      → length keys < sum ks + k
      → sum ks + k < word
      → Fits ks keys
      → IsSorted lt w.entries
      → (w' : World) × (erase lt mode keys (ks ++ k ∷ []) w ≡ done (invalid_arg, w'))
        × ((j : Bytes)
            → find lt j w'.entries
              ≡ (if among (same lt) (cut ks keys) j then none else find lt j w.entries))
  unfolding erase
  erase_partial mode keys ks k w nowait long below f s = rw nowait (
      erase_loop_partial keys 0 ks k w f.below_word (omega (arith, f.within)) (omega arith)
        (omega arith) s)
