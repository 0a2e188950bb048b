-- ===== src/Docs/Store/Create.antt =====
-- `collCreate` and `collExists`.
use mochi_yokan.Database.Spec.{size_of}
use mochi_yokan.Prelude.{take_all, ◌<◌, ◌≡◌, refl, Bool, false, [], ◌∷◌, ◌==◌, length, word, done}
use mochi_yokan.Common.{Bytes, ok}
use mochi_yokan.Database.{Database}
use mochi_yokan.Database.Laws.{Laws}
use mochi_yokan.Docs.Store.{Store, is_nil, coll_exists_flag}
use mochi_yokan.Docs.Store.Durable.{name-Fits, plain_wait}

module _ {S : Type 0} {d : Database S} (L : Laws d) where
  -- "Is the value under the name of the size of the metadata?"
  abbrev pub is_collection : Bytes → Store S → Bool
  is_collection name st = size_of (L.view st.db name) == 16

  module _ (name : Bytes) (named : is_nil name ≡ false) (short : length name < word) where
    -- A name is one of a collection if the value under it has the size of the metadata.
    pub exists_flag_lem :
        (e : Bool) (st : Store S)
        → coll_exists_flag d name e st ≡ done (ok, is_collection name st, st)
    unfolding coll_exists_flag
    exists_flag_lem e st = rw (
      named,
      L.value_lengths_law 0 name (length name ∷ []) (0 ∷ []) st.db plain_wait refl
          (name-Fits L name named short),
      take_all name,
    )
