-- ===== src/Rpc/Collections/Remote.antt =====
-- The calls on collections by a client, and the operations of the document store at the other end.
use mochi_yokan.Prelude.{
  ℕ, ◌≡◌, refl, ◌∙◌, Bool, true, false, not, ◌&&◌, Option, some, if◌then◌else◌, Outcome, done,
  ◌>>=◌,
}
use mochi_yokan.Common.{Bytes, Status}
use mochi_yokan.Database.{Database}
use mochi_yokan.Docs.Store.{Store, coll_create, coll_drop, coll_exists, coll_last_id, coll_size}
use mochi_yokan.Rpc.Codes.{Return, err_mode, cast, is_success}
use mochi_yokan.Rpc.Call.{Arrival, Network, check_arrival, with_database, forward, is_mode_valid}
use mochi_yokan.Rpc.Sound.{IsSound, forwarded, found}
use mochi_yokan.Rpc.Wire.{forward_out}
use mochi_yokan.Rpc.Collections.{
  receive, coded, coll_create_ult, coll_drop_ult, coll_exists_ult, coll_last_id_ult, coll_size_ult,
  collection_create, collection_drop, collection_exists, collection_last_id, collection_size,
}

-- What a client has of the answer of an operation: it replaces the old value after a success.
abbrev pub fetched {ℓ κ} :
    {A : Type ℓ} {S : Type κ} → A → Outcome (Status × A × S) → Outcome (Return × (Option A × S))
fetched old call = do
  (status, v, s) ← call
  done (cast status, (some (if is_success (cast status) then v else old), s))

module _ (net : Network) (a : Arrival) (sound : IsSound net a) where
  module _ {ℓ} {S : Type ℓ} where
    refused :
        (supported : Bool) (call : Outcome (Return × S)) (s : S)
        → supported ≡ false
        → with_database a true supported call s ≡ done (err_mode, s)
    unfolding with_database check_arrival
    refused supported call s h =
        rw
          (
            with_database, sound.instance_found, sound.provider_found, sound.input_decoded,
            sound.database_found, h,
          )
          refl

    -- A call without an answer, whose mode the client and the handler look at.
    guarded :
        (valid supported : Bool) (call : S → Outcome (Return × S)) (s : S)
        → (if not valid
            then done (err_mode, s)
            else forward net (λ s. with_database a true supported (call s) s) s)
          ≡ (if valid && supported then call s else done (err_mode, s))
    guarded false supported call s = refl
    guarded true true call s =
        forwarded net a (λ s. with_database a true true (call s) s) s sound
        ∙ found net a true true (call s) s sound refl refl
    guarded true false call s =
        forwarded net a (λ s. with_database a true false (call s) s) s sound
        ∙ refused false (call s) s refl

  module _ {ℓ κ} {A : Type ℓ} {S : Type κ} where
    fetched_from :
        (old : A) (call : Outcome (Status × A × S))
        → (do
          (ret, (out, s')) ← coded (do (status, v, s') ← call; done (cast status, (v, s')))
          elim (receive out (some old)) [
            | Option.none ↦ done (ret, (some old, s'))
            | some m' ↦ done (ret, (m', s'))
          ])
          ≡ fetched old call
    fetched_from old (done (status, v, s)) = refl
    fetched_from old _ = refl

    -- A call with an answer.
    fetch :
        (old : A) (valid supported : Bool) (call : S → Outcome (Status × A × S)) (spare : A) (s : S)
        → (if not valid
            then done (err_mode, (some old, s))
            else forward_out net receive
                (λ s. coded (
                  with_database a true supported
                    (do (status, v, s') ← call s; done (cast status, (v, s')))
                    (spare, s)))
                (some old)
                s)
          ≡ (if valid && supported then fetched old (call s) else done (err_mode, (some old, s)))
    unfolding forward_out
    fetch old false supported call spare s = refl
    fetch old true true call spare s =
        rw
          (
            forward_out,
            sound.created,
            sound.handled,
            found {S = A × S} net a true true
                (do (status, v, s') ← call s; done (cast status, (v, s'))) (spare, s) sound refl
                refl,
            sound.forwarded,
            sound.output_decoded,
            sound.output_freed,
          )
          (fetched_from old (call s))
    fetch old true false call spare s =
        rw
          (
            forward_out,
            sound.created,
            sound.handled,
            refused {S = A × S} false (do (status, v, s') ← call s; done (cast status, (v, s')))
                (spare, s) refl,
            sound.forwarded,
            sound.output_decoded,
            sound.output_freed,
          )
          refl

module _ {S : Type 0} (d : Database S) where
  -- Over a sound network, a call on a collection in a mode that client or database do not accept returns
  -- ERR_MODE and leaves everything as it was, also what the pointer of the caller points to. In an
  -- accepted mode it does what the operation of the document store does on a collection of that name, and
  -- returns its status; `exists`, `last_id` and `size` put its answer where the pointer says, but only
  -- after a success.
  pub collections_remote :
      (net : Network) (a : Arrival) (mode : ℕ) (name : Option Bytes) (st : Store S)
      → IsSound net a
      → (let accepted = is_mode_valid mode && d.supports_mode mode in
          (collection_create d net a mode name st ≡ (
            if accepted
            then (do (status, st') ← coll_create d name st; done (cast status, st'))
            else done (err_mode, st)))
          × (collection_drop d net a mode name st ≡ (
              if accepted
              then (do (status, st') ← coll_drop d mode name st; done (cast status, st'))
              else done (err_mode, st)))
          × ((flag : Bool)
              → collection_exists d net a mode name (some flag) st ≡ (
                  if accepted
                  then fetched flag (coll_exists d name false st)
                  else done (err_mode, (some flag, st))))
          × ((id : ℕ)
              → collection_last_id d net a mode name (some id) st ≡ (
                  if accepted
                  then fetched id (coll_last_id d name 0 st)
                  else done (err_mode, (some id, st))))
          × ((size : ℕ)
              → collection_size d net a mode name (some size) st ≡ (
                  if accepted
                  then fetched size (coll_size d name 0 st)
                  else done (err_mode, (some size, st)))))
  unfolding collection_create coll_create_ult collection_drop coll_drop_ult collection_exists
      coll_exists_ult collection_last_id coll_last_id_ult collection_size coll_size_ult
  collections_remote net a mode name st sound =
      let valid = is_mode_valid mode in
      let supported = d.supports_mode mode in
      (
        guarded net a sound valid supported
            (λ st. do (status, st') ← coll_create d name st; done (cast status, st')) st,
        guarded net a sound valid supported
            (λ st. do (status, st') ← coll_drop d mode name st; done (cast status, st')) st,
        (λ flag. fetch net a sound flag valid supported (coll_exists d name false) false st),
        (λ id. fetch net a sound id valid supported (coll_last_id d name 0) 0 st),
        λ size. fetch net a sound size valid supported (coll_size d name 0) 0 st,
      )
