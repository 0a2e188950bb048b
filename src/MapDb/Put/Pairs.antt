-- ===== src/MapDb/Put/Pairs.antt =====
-- `put` against its contract: which pairs are stored under which mode, and with which value.
use mochi_yokan.Database.Spec.{is_written, new_value, refusal, put_status, pairs}
use mochi_yokan.Prelude.{
  ℕ, suc, ◌+◌, ◌≤◌, ◌<◌, ◌≡◌, refl, Bool, true, false, none, some, List, [], ◌∷◌, arith, ◌==◌,
  length, take, drop, word, wrap, if◌then◌else◌, Outcome, done, Bool-cases, inl, inr,
}
use mochi_yokan.Common.{Bytes, Status, ok}
use mochi_yokan.OrderedMap.{Comparator, Map, find, emplace, assign}
use mochi_yokan.Memory.{slice, sum, cut, drop-drop, slice_within, total-sum, Fits}
use mochi_yokan.MapDb.State.{World, notify, is_ok}
use mochi_yokan.MapDb.Put.{has_entries, put_one, put_at, put_loop, put}

module _ (lt : Comparator) where
  unfoldable pub store : Bytes → Bytes → Map → Map
  store k v m = elim (find lt k m) [ none ↦ emplace lt k v m | some u ↦ assign lt k v m ]

  unfoldable pub put_pair : ℕ → Bytes → Bytes → World → World
  put_pair mode k v w =
      let old = find lt k w.entries in
      if is_written mode old
      then notify mode k (record w { entries = store k (new_value mode old v) w.entries })
      else w

  unfoldable pub put_pairs : ℕ → List (Bytes × Bytes) → World → World
  put_pairs mode [] w = w
  put_pairs mode ((k, v) ∷ ps) w = put_pairs mode ps (put_pair mode k v w)

module _ (lt : Comparator) where
  put_one_lem :
      (mode : ℕ) (single : Bool) (key vals v : Bytes) (val_offset vsize : ℕ) (w : World)
      → slice vals val_offset vsize ≡ done v
      → put_one lt mode single key vals val_offset vsize w
        ≡ done
            (if single then refusal mode (find lt key w.entries) else ok, put_pair lt mode key v w)
  unfolding put_one put_pair refusal is_written new_value notify store
  put_one_lem mode single key vals v val_offset vsize w h = ground arith

  find-without : (key : Bytes) (m : Map) → has_entries m ≡ false → find lt key m ≡ none
  unfolding find
  find-without key [] h = refl
  find-without key (e ∷ m) h = cc

  put_at_lem :
      (mode : ℕ) (single : Bool) (keys vals key v : Bytes) (key_offset ksize val_offset vsize : ℕ)
      (w : World)
      → slice keys key_offset ksize ≡ done key
      → slice vals val_offset vsize ≡ done v
      → put_at lt mode single keys vals key_offset ksize val_offset vsize w
        ≡ done
            (if single then refusal mode (find lt key w.entries) else ok, put_pair lt mode key v w)
  unfolding put_at put_pair refusal is_written
  put_at_lem mode single keys vals key v ko k vo vs w hk hv =
      let one = put_one_lem mode single key vals v vo vs w hv in
      elim (Bool-cases (has_entries w.entries)) [
        | inl e ↦ rw (e, hk) (ground (arith, one))
        | inr e ↦ ground (arith, one, hk, find-without key w.entries e)
      ]

  put_loop-pairs :
      (mode : ℕ) (keys vals : Bytes) (key_offset val_offset : ℕ) (ks vs : List ℕ) (w : World)
      → length ks ≡ length vs
      → length keys < word
      → length vals < word
      → key_offset + sum ks ≤ length keys
      → val_offset + sum vs ≤ length vals
      → put_loop lt mode false keys vals key_offset val_offset ks vs w
        ≡ done (
          ok,
          put_pairs lt mode
              (pairs (cut ks (drop key_offset keys)) (cut vs (drop val_offset vals)))
              w,
        )
  unfolding put_loop put_pairs
  put_loop-pairs mode keys vals ko vo [] vs w e ck cv hk hv = refl
  put_loop-pairs mode keys vals ko vo (k ∷ ks) [] w e ck cv hk hv = absurd (omega arith)
  put_loop-pairs mode keys vals ko vo (k ∷ ks) (v ∷ vs) w e ck cv hk hv =
      let key = take k (drop ko keys) in
      let val = take v (drop vo vals) in
      let sk : slice keys ko k ≡ done key = slice_within keys ko k (omega arith) in
      let sv : slice vals vo v ≡ done val = slice_within vals vo v (omega arith) in
      let wk : wrap (ko + k) ≡ ko + k = omega arith in
      let wv : wrap (vo + v) ≡ vo + v = omega arith in
      rw
        (
          put_at_lem mode false keys vals key val ko k vo v w sk sv,
          wk,
          wv,
          drop-drop ko k keys,
          drop-drop vo v vals,
        )
        (put_loop-pairs mode keys vals (ko + k) (vo + v) ks vs (put_pair lt mode key val w)
          (omega arith) ck cv (omega arith) (omega arith))

settle {ℓ} :
    {A : Type ℓ} (st : Status) (x : A)
    → if◌then◌else◌ {A = Outcome (Status × A)} (is_ok st) (done (ok, x)) (done (st, x))
      ≡ done (st, x)
settle ok x = refl
settle _ x = refl

suc-suc-ne-one : (n : ℕ) → (suc (suc n) == 1) ≡ false
suc-suc-ne-one n = ground arith

module _ (lt : Comparator) where
  put-loop_of_Fits :
      (mode : ℕ) (keys : Bytes) (ksizes : List ℕ) (vals : Bytes) (vsizes : List ℕ) (w : World)
      → length ksizes ≡ length vsizes
      → Fits ksizes keys
      → Fits vsizes vals
      → put lt mode keys ksizes vals vsizes w
        ≡ put_loop lt mode (length ksizes == 1) keys vals 0 0 ksizes vsizes w
  unfolding put
  put-loop_of_Fits mode keys ksizes vals vsizes w e fk fv = ground (
    arith,
    total-sum ksizes 0 (omega arith),
    total-sum vsizes 0 (omega arith),
    fk.within,
    fv.within,
  )

  put_loop_single :
      (mode : ℕ) (keys vals : Bytes) (k v : ℕ) (w : World)
      → k ≤ length keys
      → v ≤ length vals
      → put_loop lt mode true keys vals 0 0 (k ∷ []) (v ∷ []) w
        ≡ done (
          refusal mode (find lt (take k keys) w.entries),
          put_pair lt mode (take k keys) (take v vals) w,
        )
  unfolding put_loop
  put_loop_single mode keys vals k v w hk hv =
      let sk = slice_within keys 0 k (omega arith) in
      let sv = slice_within vals 0 v (omega arith) in
      rw (put_at_lem lt mode true keys vals (take k keys) (take v vals) 0 k 0 v w sk sv)
        (settle _ _)

  pub put-pairs :
      (mode : ℕ) (keys : Bytes) (ksizes : List ℕ) (vals : Bytes) (vsizes : List ℕ) (w : World)
      → length ksizes ≡ length vsizes
      → Fits ksizes keys
      → Fits vsizes vals
      → put lt mode keys ksizes vals vsizes w
        ≡ done (
          put_status mode ksizes keys (λ k. find lt k w.entries),
          put_pairs lt mode (pairs (cut ksizes keys) (cut vsizes vals)) w,
        )
  unfolding put_status put_pairs
  put-pairs mode keys [] vals vsizes w e fk fv =
      rw (put-loop_of_Fits mode keys [] vals vsizes w e fk fv) (
        put_loop-pairs lt mode keys vals 0 0 [] vsizes w e fk.below_word fv.below_word (omega arith)
          (omega (arith, fv.within)))
  put-pairs mode keys (k ∷ []) vals (v ∷ []) w e fk fv =
      rw (put-loop_of_Fits mode keys (k ∷ []) vals (v ∷ []) w e fk fv)
        (put_loop_single mode keys vals k v w (omega (arith, fk.within)) (omega (arith, fv.within)))
  put-pairs mode keys (k ∷ l ∷ ks) vals vsizes w e fk fv =
      rw (put-loop_of_Fits mode keys (k ∷ l ∷ ks) vals vsizes w e fk fv) (
        rw (suc-suc-ne-one (length ks)) (
          put_loop-pairs lt mode keys vals 0 0 (k ∷ l ∷ ks) vsizes w e fk.below_word fv.below_word
            (omega (arith, fk.within)) (omega (arith, fv.within))))
  put-pairs mode keys (k ∷ []) vals vs w e fk fv = absurd (omega arith)
