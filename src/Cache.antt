-- ===== src/Cache.antt =====
-- Bounded cache storage, crates/lagos-core/src/cache/storage.rs: fills, published entries and reads.
-- The crate moka is a parameter: `insert key entry cache` is the cache after an insertion, and
-- evictions are its own. A span of bytes is a list of numbers.
pub mod Fills
pub mod Writing
pub mod Budget
pub mod Reading
pub mod Publishing
pub mod Policy
pub mod Framing
pub mod Utf8
pub mod Sharing
pub mod Eligible
mod PolicyTests
mod Tests
use lagos.Prelude.{
  ℕ, zero, suc, ◌+◌, ◌-◌, ◌*◌, ◌^◌, ◌==◌, leb, ltb, min, max, if◌then◌else◌, Bool, true, false,
  ◌&&◌, Option, none, some, List, [], ◌∷◌, ◌++◌, length, drop, get_elem?, usize_max, saturating_add,
  wrapping_sub, take,
}

abbrev pub Bytes : Type 0
Bytes = List ℕ

-- `usize`
abbrev pub word : ℕ
word = 64

pub record Entry : Type 0 where
  pub internal : Bytes
  pub header : Bytes
  pub body : Bytes

pub record MemoryStorage (Cache : Type 0) : Type 0 where
  pub entries : Cache
  pub max_object_bytes : ℕ
  pub filling : ℕ  -- AtomicUsize
  pub max_fill_bytes : ℕ

pub record Miss : Type 0 where
  pub key : Bytes
  pub internal : Bytes
  pub header : Bytes
  pub body : Bytes
  pub too_large : Bool

pub record Hit : Type 0 where
  pub body : Bytes
  pub read : ℕ
  pub end : ℕ

-- `get_miss_handler`, given the two halves of the serialized metadata.
unfoldable pub get_miss_handler : Bytes → Bytes → Bytes → Miss
get_miss_handler key internal header = record {
  key = key;
  internal = internal;
  header = header;
  body = [];
  too_large = false;
}

module _ {Cache : Type 0} where
  -- `new`, with the fill budget that `with_fill_budget` sets.
  pub new : Cache → ℕ → ℕ → MemoryStorage Cache
  new cache max_object_bytes max_fill_bytes = record {
    entries = cache;
    max_object_bytes = max_object_bytes;
    filling = 0;
    max_fill_bytes = max_fill_bytes;
  }

  -- `reserve`: the storage after the update, if there is one.
  unfoldable pub reserve : ℕ → MemoryStorage Cache → Option (MemoryStorage Cache)
  reserve bytes s =
      let total = s.filling + bytes in
      if ltb total (2 ^ word) && leb total s.max_fill_bytes
      then some (record s { filling = total })
      else none

  unfoldable pub release : ℕ → MemoryStorage Cache → MemoryStorage Cache
  release bytes s =
      if ltb 0 bytes then record s { filling = wrapping_sub word s.filling bytes } else s

  unfoldable pub abandon : MemoryStorage Cache → Miss → MemoryStorage Cache × Miss
  abandon s m = (release (length m.body) s, record m { too_large = true; body = [] })

  -- `Drop for Miss`
  unfoldable pub drop_miss : MemoryStorage Cache → Miss → MemoryStorage Cache
  drop_miss s m = release (length m.body) s

  unfoldable pub write_reserved :
      MemoryStorage Cache → Miss → Bytes → Option (MemoryStorage Cache) → MemoryStorage Cache × Miss
  write_reserved s m chunk none = abandon s m
  write_reserved s m chunk (some reserved) = (reserved, record m { body = m.body ++ chunk })

  unfoldable pub write_body : MemoryStorage Cache → Miss → Bytes → MemoryStorage Cache × Miss
  write_body s m chunk =
      if m.too_large
      then (s, m)
      else if ltb s.max_object_bytes (saturating_add usize_max (length m.body) (length chunk))
      then abandon s m
      else write_reserved s m chunk (reserve (length chunk) s)

  -- `finish`, which drops the handler when it returns: none if the fill was abandoned.
  unfoldable pub finish :
      (Bytes → Entry → Cache → Cache)
      → MemoryStorage Cache
      → Miss
      → MemoryStorage Cache × Option Entry
  finish insert s m =
      if m.too_large
      then (drop_miss s m, none)
      else let entry : Entry = record { internal = m.internal; header = m.header; body = m.body } in
        let released = release (length m.body) s in
        (record released { entries = insert m.key entry released.entries }, some entry)

-- The reader that `lookup` returns.
abbrev pub hit_of : Entry → Hit
hit_of entry = record { body = entry.body; read = 0; end = length entry.body }

module _ {Cache : Type 0} (get : Bytes → Cache → Option Entry) where
  -- `lookup`, with the entry whose metadata pingora-cache deserializes.
  unfoldable pub lookup : MemoryStorage Cache → Bytes → Option (Entry × Hit)
  lookup s key = elim (get key s.entries) [ none ↦ none | some entry ↦ some (entry, hit_of entry) ]

  -- `update_meta`, given the two halves of the serialized metadata.
  unfoldable pub update_meta :
      (Bytes → Entry → Cache → Cache)
      → MemoryStorage Cache
      → Bytes
      → Bytes
      → Bytes
      → MemoryStorage Cache × Bool
  update_meta insert s key internal header = elim (get key s.entries) [
    | none ↦ (s, false)
    | some existing ↦ (
      record s {
        entries =
            insert key (record { internal = internal; header = header; body = existing.body })
              s.entries;
      },
      true,
    )
  ]

  -- `purge`: whether there was an entry.
  unfoldable pub purge :
      (Bytes → Cache → Cache) → MemoryStorage Cache → Bytes → MemoryStorage Cache × Bool
  purge remove s key = elim (get key s.entries) [
    | none ↦ (s, false)
    | some _ ↦ (record s { entries = remove key s.entries }, true)
  ]

abbrev pub read_chunk : ℕ
read_chunk = 32 * 1024

unfoldable pub read_body : Hit → Option Bytes × Hit
read_body h =
    let stop = min h.end (saturating_add usize_max h.read read_chunk) in
    if leb h.end h.read
    then (none, h)
    else (some (take (stop - h.read) (drop h.read h.body)), record h { read = stop })

unfoldable pub seek : Hit → ℕ → Option ℕ → Hit
seek h start end =
    let len = length h.body in
    let read = min start len in
    let wanted : ℕ = elim end [ none ↦ len | some e ↦ e ] in
    record h { read = read; end = max (min wanted len) read }
