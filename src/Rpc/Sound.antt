-- ===== src/Rpc/Sound.antt =====
-- A call on which nothing goes wrong on the way.
use mochi_yokan.Prelude.{◌≡◌, refl, ◌∙◌, Bool, true, none, some, Outcome, done, ◌>>=◌}
use mochi_yokan.Common.{Bytes}
use mochi_yokan.Rpc.Codes.{Return}
use mochi_yokan.Rpc.Call.{
  Arrival, Network, check_arrival, with_database, with_buffer, forward, expose,
}

-- All that Margo is asked for is granted, and the database is found.
pub record IsSound (net : Network) (a : Arrival) : Type 0 where
  pub bulk_created : net.bulk_created ≡ true
  pub created : net.created ≡ true
  pub handled : net.handled ≡ true
  pub forwarded : net.forwarded ≡ true
  pub output_decoded : net.output_decoded ≡ true
  pub output_freed : net.output_freed ≡ true
  pub instance_found : a.instance_found ≡ true
  pub provider_found : a.provider_found ≡ true
  pub input_decoded : a.input_decoded ≡ true
  pub address_found : a.address_found ≡ true
  pub database_found : a.database_found ≡ true

pub admitted :
    (net : Network) (a : Arrival) (address supported : Bool)
    → IsSound net a
    → address ≡ true
    → supported ≡ true
    → check_arrival a address supported ≡ none
unfolding check_arrival
admitted net a address supported sound e h =
    rw (sound.instance_found, sound.provider_found, sound.input_decoded, e, sound.database_found, h)

module _ {ℓ} {S : Type ℓ} where
  pub found :
      (net : Network) (a : Arrival) (address supported : Bool) (call : Outcome (Return × S)) (s : S)
      → IsSound net a
      → address ≡ true
      → supported ≡ true
      → with_database a address supported call s ≡ call
  unfolding with_database
  found net a address supported call s sound e h =
      rw (with_database, admitted net a address supported sound e h) refl

  pub buffered :
      (net : Network) (a : Arrival) (supported : Bool) (buffer : Bytes)
      (call : Bytes → Outcome (Return × S)) (s : S)
      → IsSound net a
      → supported ≡ true
      → a.buffer ≡ some buffer
      → with_buffer a supported call s ≡ call buffer
  unfolding with_buffer
  buffered net a supported buffer call s sound h given =
      found net a a.address_found supported _ s sound sound.address_found h ∙ rw given refl

  returned : (o : Outcome (Return × S)) → (do (ret, s) ← o; done (ret, s)) ≡ o
  returned (done x) = refl
  returned _ = refl

  pub forwarded :
      (net : Network) (a : Arrival) (handler : S → Outcome (Return × S)) (s : S)
      → IsSound net a
      → forward net handler s ≡ handler s
  unfolding forward
  forwarded net a handler s sound =
      rw (sound.created, sound.handled, sound.forwarded, sound.output_decoded, sound.output_freed)
        (returned (handler s))

  pub exposed :
      (net : Network) (a : Arrival) (call : Outcome (Return × S)) (s : S)
      → IsSound net a
      → expose net call s ≡ call
  unfolding expose
  exposed net a call s sound = rw sound.bulk_created refl
