-- ===== src/Docs/Documents/Numbers.antt =====
-- The identifiers of documents as numbers in a row, and what the loops of the mixin make of them.
use mathlib.Core.Path.{ap₂}
use mochi_yokan.Database.Spec.{is_some}
use mochi_yokan.Prelude.{
  ℕ, zero, suc, ◌+◌, ◌≤◌, ◌≡◌, refl, sym, ap, ◌∙◌, true, Option, List, [], ◌∷◌, ◌++◌, map, arith,
  length, wrap, if◌then◌else◌, Bool-cases, inl, inr,
}
use mochi_yokan.Common.{Bytes}
use mochi_yokan.Docs.Store.{first_ids}
use mochi_yokan.Docs.Documents.{ids_from, count_set, any_unused}

-- The numbers below n.
unfoldable pub upto : ℕ → List ℕ
upto zero = []
upto (suc n) = 0 ∷ map suc (upto n)

-- The n numbers from `first` on, as words.
unfoldable pub numbered : ℕ → ℕ → List ℕ
unfolding upto
numbered first n = map (λ i. wrap (first + i)) (upto n)

shifted :
    (first : ℕ) (xs : List ℕ)
    → map (λ i. wrap (suc first + i)) xs ≡ map (λ i. wrap (first + i)) (map suc xs)
shifted first [] = refl
shifted first (x ∷ xs) =
    let e : suc first + x ≡ first + suc x = omega arith in ap₂ ◌∷◌ (ap wrap e) (shifted first xs)

pub ids_from-eq-numbered : (first n : ℕ) → ids_from first n ≡ numbered first n
unfolding ids_from numbered upto
ids_from-eq-numbered first zero = refl
ids_from-eq-numbered first (suc n) =
    let e : first ≡ first + 0 = omega arith in
    ap₂ ◌∷◌ (ap wrap e) (ids_from-eq-numbered (suc first) n ∙ shifted first (upto n))

length-map_numbers : (f : ℕ → ℕ) (xs : List ℕ) → length (map f xs) ≡ length xs
length-map_numbers f [] = refl
length-map_numbers f (x ∷ xs) = ap suc (length-map_numbers f xs)

length-upto : (n : ℕ) → length (upto n) ≡ n
unfolding upto
length-upto zero = refl
length-upto (suc n) = ap suc (length-map_numbers suc (upto n) ∙ length-upto n)

pub length-numbered : (first n : ℕ) → length (numbered first n) ≡ n
unfolding numbered
length-numbered first n = length-map_numbers (λ i. wrap (first + i)) (upto n) ∙ length-upto n

map-suc-append : (xs : List ℕ) (n : ℕ) → map suc (xs ++ n ∷ []) ≡ map suc xs ++ suc n ∷ []
map-suc-append [] n = refl
map-suc-append (x ∷ xs) n = ap (◌∷◌ (suc x)) (map-suc-append xs n)

upto-last : (n : ℕ) → upto (suc n) ≡ upto n ++ n ∷ []
unfolding upto
upto-last zero = refl
upto-last (suc n) = ap (λ xs. 0 ∷ map suc xs) (upto-last n) ∙ ap (◌∷◌ 0) (map-suc-append (upto n) n)

pub first_ids-eq-upto : (n : ℕ) → first_ids n ≡ upto n
unfolding first_ids upto
first_ids-eq-upto zero = refl
first_ids-eq-upto (suc n) = ap (λ xs. xs ++ n ∷ []) (first_ids-eq-upto n) ∙ sym (upto-last n)

-- The keys that a database has.
unfoldable pub stored_keys : (Bytes → Option Bytes) → List Bytes → List Bytes
stored_keys view [] = []
stored_keys view (k ∷ ks) =
    let rest = stored_keys view ks in if is_some (view k) then k ∷ rest else rest

pub count_set-stored_keys :
    (view : Bytes → Option Bytes) (ks : List Bytes)
    → count_set (map (λ k. is_some (view k)) ks) ≡ length (stored_keys view ks)
unfolding count_set stored_keys
count_set-stored_keys view [] = refl
count_set-stored_keys view (k ∷ ks) = elim (Bool-cases (is_some (view k))) [
  | inl e ↦ rw e (ap suc (count_set-stored_keys view ks))
  | inr e ↦ rw e (count_set-stored_keys view ks)
]

-- An identifier that is not below the last one is found wherever it is in the list.
pub any_unused-beyond :
    (last_id id : ℕ) (before after : List ℕ)
    → last_id ≤ id
    → any_unused last_id (before ++ id ∷ after) ≡ true
unfolding any_unused
any_unused-beyond last_id id [] after h = ground arith
any_unused-beyond last_id id (x ∷ xs) after h =
    ground (arith, any_unused-beyond last_id id xs after h)
