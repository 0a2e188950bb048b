-- ===== src/MapDb/AsDatabase.antt =====
-- `MapDatabase` as a database, in the default order of the keys.
use mochi_yokan.Prelude.{Bool, ◌∙◌, sym, ap}
use mochi_yokan.OrderedMap.{find, same, IsSorted}
use mochi_yokan.KeyOrder.{default_mem_cmp, default_mem_cmp-IsTotal, default-IsStrictWeak}
use mochi_yokan.Memory.{length-cut}
use mochi_yokan.Database.{Database}
use mochi_yokan.Database.Laws.{Laws}
use mochi_yokan.Database.Spec.{flags_from}
use mochi_yokan.MapDb.State.{World, supports_mode}
use mochi_yokan.MapDb.Put.{put}
use mochi_yokan.MapDb.Put.Contract.{put_contract}
use mochi_yokan.MapDb.Read.{exists, value_lengths}
use mochi_yokan.MapDb.Read.Contract.{exists_contract, length_contract}
use mochi_yokan.MapDb.Erase.{erase}
use mochi_yokan.MapDb.Erase.Contract.{erase_contract}
use mochi_yokan.MapDb.Get.{get}
use mochi_yokan.MapDb.Get.Packed.{get_packed_contract}
use mochi_yokan.MapDb.Listing.{list_keys, list_key_values}

abbrev pub map_database : Bool → Database World
map_database has_lua = record {
  supports_mode = supports_mode has_lua;
  exists = exists default_mem_cmp;
  value_lengths = value_lengths default_mem_cmp;
  put = put default_mem_cmp;
  get = get default_mem_cmp;
  erase = erase default_mem_cmp;
  list_keys = list_keys default_mem_cmp;
  list_key_values = list_key_values default_mem_cmp;
}

unfoldable pub map_database_laws : (has_lua : Bool) → Laws (map_database has_lua)
map_database_laws has_lua = record {
  view = λ w k. find default_mem_cmp k w.entries;
  IsValid = λ w. IsSorted default_mem_cmp w.entries;
  same_key = same default_mem_cmp;
  same_key_iff = default_mem_cmp-IsTotal.1;
  value_lengths_law = length_contract default_mem_cmp;
  exists_law = λ mode keys ksizes f w nowait v room fits.
      let (f', returned, flagged) =
        exists_contract default_mem_cmp mode keys ksizes f w nowait v room fits in
      (
        f',
        returned,
        ap (flags_from f' 0) (sym (length-cut ksizes keys)) ∙ flagged.inside,
        flagged.bytes,
      );
  put_law = put_contract default-IsStrictWeak;
  get_law = λ mode keys ksizes vals vsizes w nowait keep e f b.
      get_packed_contract default_mem_cmp mode nowait keys ksizes vals vsizes w keep e f b;
  erase_law = erase_contract default-IsStrictWeak;
}
