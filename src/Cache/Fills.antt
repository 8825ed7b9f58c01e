-- ===== src/Cache/Fills.antt =====
-- Fills under way together, as a sequence of their calls, and the bounds that they keep.
use lagos.Prelude.{
  ℕ, zero, suc, ◌+◌, ◌^◌, ◌≡◌, ◌≤◌, ◌<◌, none, some, List, [], ◌∷◌, All, length, get_elem?,
}
use lagos.Cache.{Bytes, Entry, MemoryStorage, Miss, get_miss_handler, drop_miss, write_body, finish}

-- A call that a fill makes: the first of those under way is number 0.
pub data Call : Type 0 where
  start : Bytes → Bytes → Bytes → Call
  write : ℕ → Bytes → Call
  give_up finish_fill : ℕ → Call

-- The storage and the fills under way.
pub record Filling (Cache : Type 0) : Type 0 where
  pub storage : MemoryStorage Cache
  pub fills : List Miss

abbrev pub removed : ℕ → List Miss → List Miss
removed n [] = []
removed zero (m ∷ ms) = ms
removed (suc n) (m ∷ ms) = m ∷ removed n ms

abbrev pub replaced : ℕ → Miss → List Miss → List Miss
replaced n x [] = []
replaced zero x (m ∷ ms) = x ∷ ms
replaced (suc n) x (m ∷ ms) = m ∷ replaced n x ms

-- What the fills hold together.
unfoldable pub buffered : List Miss → ℕ
buffered [] = 0
buffered (m ∷ ms) = length m.body + buffered ms

module _ {Cache : Type 0} (insert : Bytes → Entry → Cache → Cache) where
  -- A call of a fill that is not there changes nothing.
  unfoldable pub call : Filling Cache → Call → Filling Cache
  call f (start key internal header) = record f {
    fills = get_miss_handler key internal header ∷ f.fills;
  }
  call f (write n chunk) = elim (get_elem? f.fills n) [
    | none ↦ f
    | some m ↦
        let (storage, written) = write_body f.storage m chunk in
        record { storage = storage; fills = replaced n written f.fills }
  ]
  call f (give_up n) = elim (get_elem? f.fills n) [
    | none ↦ f
    | some m ↦ record { storage = drop_miss f.storage m; fills = removed n f.fills }
  ]
  call f (finish_fill n) = elim (get_elem? f.fills n) [
    | none ↦ f
    | some m ↦ record { storage = (finish insert f.storage m).0; fills = removed n f.fills }
  ]

  unfoldable pub calls : Filling Cache → List Call → Filling Cache
  calls f [] = f
  calls f (c ∷ cs) = calls (call f c) cs

-- The budget counts exactly what the fills hold, and each fill keeps to the cap of an object.
pub record IsBounded {Cache : Type 0} (f : Filling Cache) : Type 0 where
  pub counted : f.storage.filling ≡ buffered f.fills
  pub within : f.storage.filling ≤ f.storage.max_fill_bytes
  pub machine : f.storage.max_fill_bytes < 2 ^ 64
  pub each : All (λ m. length m.body ≤ f.storage.max_object_bytes) f.fills
