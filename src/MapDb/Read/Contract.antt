-- ===== src/MapDb/Read/Contract.antt =====
-- What `exists` and `length` report.
use mochi_yokan.Database.Spec.{is_some, flags_from, size_of}
use mochi_yokan.Prelude.{
  ℕ, suc, ◌+◌, ◌≤◌, ◌<◌, ◌≡◌, refl, false, List, [], ◌∷◌, map, arith, ◌==◌, length, take, drop,
  word, wrap, if◌then◌else◌, done, le→ltb, inl, inr, ◌⊎◌, Option-cases, ==_refl, ◌>>=◌, ◌∙◌,
}
use mochi_yokan.Common.{Bytes, ok, mode_wait, has}
use mochi_yokan.OrderedMap.{Comparator, find}
use mochi_yokan.BitField.{BitField, assign, test, IsValid, assign_lem, length-assign}
use mochi_yokan.Memory.{sum, cut, drop-drop, slice_within, Fits}
use mochi_yokan.MapDb.State.{World}
use mochi_yokan.MapDb.Read.{cons_size, exists_loop, exists, length_loop, value_lengths}
use mochi_yokan.MapDb.Read.Await.{await_present, await_absent}

module _ (lt : Comparator) where
  length_step :
      (keys : Bytes) (offset k : ℕ) (ks : List ℕ) (v : ℕ) (vs : List ℕ) (w : World)
      → length keys < word
      → offset + k ≤ length keys
      → length_loop lt false keys offset (k ∷ ks) (v ∷ vs) w
        ≡ cons_size
            (size_of (find lt (take k (drop offset keys)) w.entries))
            (length_loop lt false keys (offset + k) ks vs w)
  unfolding length_loop
  length_step keys off k ks v vs w c h =
      let key = take k (drop off keys) in
      let wk : wrap (off + k) ≡ off + k = omega arith in
      rw (wk, le→ltb (length keys) (off + k) h, slice_within keys off k h)
        (elim (Option-cases (find lt key w.entries)) [
          | inl m ↦ rw (◌>>=◌, await_absent lt key w m, m, wk)
          | inr (x, m) ↦ rw (◌>>=◌, await_present lt false key x w m, m, wk)
        ])

  length_loop_now :
      (keys : Bytes) (offset : ℕ) (ks vs : List ℕ) (w : World)
      → length ks ≡ length vs
      → length keys < word
      → offset + sum ks ≤ length keys
      → length_loop lt false keys offset ks vs w
        ≡ done (ok, map (λ k. size_of (find lt k w.entries)) (cut ks (drop offset keys)), w)
  unfolding length_loop cons_size
  length_loop_now keys off [] [] w e c h = refl
  length_loop_now keys off [] (v ∷ vs) w e c h = absurd (omega arith)
  length_loop_now keys off (k ∷ ks) [] w e c h = absurd (omega arith)
  length_loop_now keys off (k ∷ ks) (v ∷ vs) w e c h = rw (
    length_step keys off k ks v vs w c (omega arith),
    length_loop_now keys (off + k) ks vs w (omega arith) c (omega arith),
    drop-drop off k keys,
  )

  -- Without WAIT, and with sizes within the buffer, `length` reports for each key the size of its
  -- value, or YOKAN_KEY_NOT_FOUND, and changes nothing.
  pub length_contract :
      (mode : ℕ) (keys : Bytes) (ksizes vsizes : List ℕ) (w : World)
      → has mode mode_wait ≡ false
      → length ksizes ≡ length vsizes
      → Fits ksizes keys
      → value_lengths lt mode keys ksizes vsizes w
        ≡ done (ok, map (λ k. size_of (find lt k w.entries)) (cut ksizes keys), w)
  unfolding value_lengths
  length_contract mode keys ksizes vsizes w nowait e f =
      rw (e, ==_refl (length vsizes), nowait)
        (length_loop_now keys 0 ksizes vsizes w e f.below_word (omega (arith, f.within)))

  -- From the bit `i` on, the flags of the keys; the bits before and behind are as they were.
  pub record Flagged (i : ℕ) (ks : List Bytes) (w : World) (f f' : BitField) : Type 0 where
    pub size : f'.size ≡ f.size
    pub bytes : length f'.bytes ≡ length f.bytes
    pub valid : IsValid f'
    pub inside : flags_from f' i (length ks) ≡ map (λ k. is_some (find lt k w.entries)) ks
    pub outside : (j : ℕ) → (j < i) ⊎ (i + length ks ≤ j) → test f' j ≡ test f j

  Flagged-cons :
      (i : ℕ) (k : Bytes) (ks : List Bytes) (w : World) (f f₁ f' : BitField)
      → f₁.size ≡ f.size
      → length f₁.bytes ≡ length f.bytes
      → ((j : ℕ) → test f₁ j ≡ (if i == j then is_some (find lt k w.entries) else test f j))
      → Flagged (suc i) ks w f₁ f'
      → Flagged i (k ∷ ks) w f f'
  unfolding flags_from
  Flagged-cons i k ks w f f₁ f' e l t r = record {
    size = r.size ∙ e;
    bytes = r.bytes ∙ l;
    valid = r.valid;
    inside = ground (arith, r.inside, r.outside i (inl (omega arith)), t i);
    outside = λ j h. ground (arith, r.outside j, t j);
  }

  exists_step :
      (keys : Bytes) (offset k : ℕ) (ks : List ℕ) (i : ℕ) (f f₁ : BitField) (w : World)
      → length keys < word
      → offset + k ≤ length keys
      → assign f i (is_some (find lt (take k (drop offset keys)) w.entries)) ≡ done f₁
      → exists_loop lt false keys offset (k ∷ ks) i f w
        ≡ exists_loop lt false keys (offset + k) ks (suc i) f₁ w
  unfolding exists_loop
  exists_step keys off k ks i f f₁ w c h a =
      let key = take k (drop off keys) in
      let wk : wrap (off + k) ≡ off + k = omega arith in
      rw (wk, le→ltb (length keys) (off + k) h, slice_within keys off k h)
        (elim (Option-cases (find lt key w.entries)) [
          | inl m ↦ rw (◌>>=◌, await_absent lt key w m, wk, rw m at a)
          | inr (x, m) ↦ rw (◌>>=◌, await_present lt false key x w m, wk, rw m at a)
        ])

  exists_loop_now :
      (keys : Bytes) (offset : ℕ) (ks : List ℕ) (i : ℕ) (f : BitField) (w : World)
      → IsValid f
      → length keys < word
      → offset + sum ks ≤ length keys
      → i + length ks ≤ f.size
      → (f' : BitField) × (exists_loop lt false keys offset ks i f w ≡ done (ok, f', w))
        × Flagged i (cut ks (drop offset keys)) w f f'
  unfolding exists_loop flags_from
  exists_loop_now keys off [] i f w v c h r = (
    f,
    refl,
    record { size = refl; bytes = refl; valid = v; inside = refl; outside = λ j h. refl },
  )
  exists_loop_now keys off (k ∷ ks) i f w v c h r =
      let key = take k (drop off keys) in
      let b = is_some (find lt key w.entries) in
      let (f₁, assigned, v₁, e₁, t₁) = assign_lem f i b v (omega arith) in
      let (f', returned, flagged) =
        exists_loop_now keys (off + k) ks (suc i) f₁ w v₁ c (omega arith) (omega arith) in
      (
        f',
        exists_step keys off k ks i f f₁ w c (omega arith) assigned ∙ returned,
        rw (drop-drop off k keys) (
            Flagged-cons i key (cut ks (drop (off + k) keys)) w f f₁ f' e₁
              (length-assign f f₁ i b assigned) t₁ flagged),
      )

  -- Without WAIT, and with sizes within the buffer and room for the flags, `exists` sets the flag of
  -- each key to whether the key is there, leaves the other bits as they were, and changes no entry. The
  -- flags may be more than the keys.
  pub exists_contract :
      (mode : ℕ) (keys : Bytes) (ksizes : List ℕ) (f : BitField) (w : World)
      → has mode mode_wait ≡ false
      → IsValid f
      → length ksizes ≤ f.size
      → Fits ksizes keys
      → (f' : BitField) × (exists lt mode keys ksizes f w ≡ done (ok, f', w))
        × Flagged 0 (cut ksizes keys) w f f'
  unfolding exists
  exists_contract mode keys ksizes f w nowait v room fits =
      let (f', returned, flagged) =
        exists_loop_now keys 0 ksizes 0 f w v fits.below_word (omega (arith, fits.within))
          (omega arith) in
      (f', rw (le→ltb f.size (length ksizes) room, nowait) returned, flagged)
