-- ===== src/Cache/Tests.antt =====
-- Two fills that share a budget of six bytes, and the theorems applied to them.
use lagos.Prelude.{◌≡◌, ◌⊎◌, refl, none, some, List, [], ◌∷◌, arith}
use lagos.Cache.{
  Bytes, Entry, MemoryStorage, new, get_miss_handler, finish, hit_of, seek, read_body, read_chunk,
}
use lagos.Cache.Fills.{Call, start, write, give_up, finish_fill, Filling, calls, IsBounded}
use lagos.Cache.Budget.{calls-IsBounded}
use lagos.Cache.Reading.{joined}
use lagos.Cache.Publishing.{writes, all_or_nothing}

abbrev Stored : Type 0
Stored = List (Bytes × Entry)

insert : Bytes → Entry → Stored → Stored
insert key entry cache = (key, entry) ∷ cache

abbrev storage : MemoryStorage Stored
storage = new [] 4 6

abbrev idle : Filling Stored
idle = record { storage = storage; fills = [] }

-- The second fill is over the budget when it writes its second chunk.
abbrev interleaved : List Call
interleaved =
    start (1 ∷ []) [] []
    ∷ (start (2 ∷ []) [] []
        ∷ (write 0 (10 ∷ (11 ∷ []))
            ∷ (write 1 (20 ∷ (21 ∷ (22 ∷ [])))
                ∷ (write 0 (12 ∷ (13 ∷ [])) ∷ (write 1 (23 ∷ []) ∷ (finish_fill 1 ∷ []))))))

idle-IsBounded : IsBounded idle
unfolding lagos.Cache.Fills.buffered new
idle-IsBounded = record { counted = refl; within = omega arith; machine = omega arith; each = tt }

calls-IsBounded_example : IsBounded (calls insert idle interleaved)
calls-IsBounded_example = calls-IsBounded insert interleaved idle idle-IsBounded

all_or_nothing_example :
    let result =
      finish insert storage (
        writes
          (get_miss_handler (1 ∷ []) [] [])
          ((storage, 10 ∷ []) ∷ ((storage, 11 ∷ []) ∷ []))) in
    let entry : Entry = record { internal = []; header = []; body = 10 ∷ (11 ∷ []) } in
    ((result.1 ≡ none) × (result.0.entries ≡ []))
    ⊎ ((result.1 ≡ some entry) × (result.0.entries ≡ insert (1 ∷ []) entry []))
unfolding joined new
all_or_nothing_example =
    all_or_nothing insert (1 ∷ []) [] [] ((storage, 10 ∷ []) ∷ ((storage, 11 ∷ []) ∷ [])) storage

abbrev entry : Entry
entry = record { internal = []; header = []; body = 10 ∷ (11 ∷ (12 ∷ (13 ∷ []))) }
