-- ===== src/Filter/Factory.antt =====
-- `FilterFactory::makeKeyValueFilter` and `FilterFactory::makeDocFilter` of src/server/util/filters.cpp. Lua, if the program has it, and
-- the filters that libraries register are parameters.
use mochi_yokan.Prelude.{ℕ, Bool, true, Option, none, some, [], ◌∷◌, ◌==◌, if◌then◌else◌}
use mochi_yokan.Common.{Bytes, mode_suffix, mode_lua_filter, mode_lib_filter, has}
use mochi_yokan.Filter.Defs.{Filter, prefix_filter, suffix_filter}

-- What is in front of the first colon, and what is behind it: `std::find` of ':'.
unfoldable pub at_colon : Bytes → Option (Bytes × Bytes)
at_colon [] = none
at_colon (x ∷ xs) =
    let rest = at_colon xs in
    if x == 58
    then some ([], xs)
    else elim rest [ none ↦ none | some (front, behind) ↦ some (x ∷ front, behind) ]

-- The makers of filters: of Lua, and of a library and a name that it registers.
pub record Makers : Type 0 where
  pub lua : Option (ℕ → Bytes → Filter)
  pub registered : Bytes → Bytes → Option (ℕ → Bytes → Option Filter)

-- A filter descriptor is "<libname>:<filter>:<args>".
unfoldable pub make_filter : Makers → ℕ → Bytes → Option Filter
make_filter makers mode descriptor =
    if has mode mode_lua_filter
    then elim makers.lua [ none ↦ none | some lua ↦ some (lua mode descriptor) ]
    else if has mode mode_lib_filter
    then elim (at_colon descriptor) [
      | none ↦ none
      | some (lib_name, rest) ↦ elim (at_colon rest) [
        | none ↦ none
        | some (filter_name, args) ↦ elim (makers.registered lib_name filter_name) [
          | none ↦ none
          | some make ↦ make mode args
        ]
      ]
    ]
    else if has mode mode_suffix
    then some (suffix_filter mode descriptor)
    else some (prefix_filter mode descriptor)

-- `DocFilter`: whether the document with an identifier is listed.
abbrev pub DocFilter : Type 0
DocFilter = ℕ → Bytes → Bool

pub record DocMakers : Type 0 where
  pub lua : Option (ℕ → Bytes → DocFilter)
  pub registered : Bytes → Bytes → Option (ℕ → Bytes → Option DocFilter)

unfoldable pub make_doc_filter : DocMakers → ℕ → Bytes → Option DocFilter
make_doc_filter makers mode descriptor =
    if has mode mode_lua_filter
    then elim makers.lua [ none ↦ none | some lua ↦ some (lua mode descriptor) ]
    else if has mode mode_lib_filter
    then elim (at_colon descriptor) [
      | none ↦ none
      | some (lib_name, rest) ↦ elim (at_colon rest) [
        | none ↦ none
        | some (filter_name, args) ↦ elim (makers.registered lib_name filter_name) [
          | none ↦ none
          | some make ↦ make mode args
        ]
      ]
    ]
    else some (λ id document. true)
