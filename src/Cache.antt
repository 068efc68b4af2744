-- ===== src/Cache.antt =====
-- src/storage/LRUCache.h and LRUCache.cpp. A method takes the cache and the times that it reads
-- from the clock, and returns the new cache; `none` is undefined behaviour, such as the erasure of
-- an iterator that points nowhere. Each method holds the lock from its first line to its last.
pub mod Nodes
pub mod View
pub mod Invariant
pub mod Evict
pub mod Set
pub mod Drop
pub mod Cleanup
pub mod Spec
pub mod Get
pub mod Run
pub mod Order
pub mod Bounds
use dist_cache.Prelude.{
  ℕ, zero, suc, ◌+◌, ◌*◌, ◌%◌, ◌^◌, Bool, true, false, ◌&&◌, not, List, [], ◌∷◌, Option, none, some,
  length, ltb, if◌then◌else◌, ◌>>=◌,
}
use dist_cache.Prelude.Int.{ℤ, pos, pos_part, ltb_ℤ}
use dist_cache.Text.{Text, text_dec}
use dist_cache.Dict.{find, insert, erase, contains}
use Nodes.{Node, back, pop_back, erase_node}

-- A time point of `std::chrono::steady_clock`, in nanoseconds.
abbrev pub Time : Type 0
Time = ℕ

abbrev pub second : ℕ
second = 1_000_000_000

-- The range of `size_t`.
abbrev pub size_mod : ℕ
size_mod = 2 ^ 64

pub record Entry : Type 0 where
  pub value : Text
  pub expire_time : Time
  pub access_time : Time

-- `next_node` is the address of the next list node that is allocated.
pub record Cache : Type 0 where
  pub cache : List (Text × Entry)
  pub lru : List Node
  pub lru_map : List (Text × ℕ)
  pub next_node : ℕ
  pub capacity : ℕ
  pub hits : ℕ
  pub misses : ℕ

unfoldable pub init : ℕ → Cache
init capacity = record {
  cache = [];
  lru = [];
  lru_map = [];
  next_node = 0;
  capacity = capacity;
  hits = 0;
  misses = 0;
}

unfoldable pub is_expired : Entry → Time → Bool
is_expired entry now = ltb entry.expire_time now

abbrev pub count_hit : Cache → Cache
count_hit c = record c { hits = (c.hits + 1) % size_mod }

abbrev pub count_miss : Cache → Cache
count_miss c = record c { misses = (c.misses + 1) % size_mod }

-- `now` is read by `is_expired`, `later` by the assignment to `access_time`.
get_found : Cache → Text → Entry → Time → Time → Cache × Option Text
unfolding is_expired
get_found c key entry now later = if is_expired entry now then (count_miss c, none) else (
  count_hit
      (record c { cache = insert text_dec key (record entry { access_time = later }) c.cache }),
  some entry.value,
)

unfoldable pub get : Cache → Text → Time → Time → Cache × Option Text
unfolding get_found
get c key now later = elim (find text_dec key c.cache) [
  | none ↦ (count_miss c, none)
  | some entry ↦ get_found c key entry now later
]

unfoldable pub evict_lru : Cache → Cache
evict_lru c = elim (back c.lru) [
  | none ↦ c
  | some (old_key, node) ↦ record c {
    lru = pop_back c.lru;
    cache = erase text_dec old_key c.cache;
    lru_map = erase text_dec old_key c.lru_map;
  }
]

-- `while (cache_.size() > capacity_) evict_lru();`
unfoldable pub evict_while : ℕ → Cache → Option Cache
evict_while zero c = none
evict_while (suc fuel) c =
    let rest = evict_while fuel (evict_lru c) in
    if ltb c.capacity (length c.cache) then rest else some c

unfoldable pub expiry : ℤ → Time → Time
expiry ttl now = if ltb_ℤ (pos 0) ttl then now + pos_part ttl * second else now + 24 * 3600 * second

abbrev pub new_entry : Text → ℤ → Time → Entry
new_entry value ttl now = record { value = value; expire_time = expiry ttl now; access_time = now }

-- `lru_.erase(lru_map_[key])`
unfoldable pub unlink : Cache → Text → Option Cache
unlink c key = do
  node ← find text_dec key c.lru_map
  lru ← erase_node node c.lru
  some (record c { lru = lru })

-- The entry is stored, its key goes to the front of the list, and the map gets `begin()`.
abbrev pub store : Cache → Text → Entry → Cache
store c key entry = record c {
  cache = insert text_dec key entry c.cache;
  lru = (key, c.next_node) ∷ c.lru;
  lru_map = insert text_dec key c.next_node c.lru_map;
  next_node = suc c.next_node;
}

unfoldable pub set : Cache → Text → Text → ℤ → Time → Option Cache
set c key value ttl now = do
  unlinked ← if contains text_dec key c.lru_map then unlink c key else some c
  let stored = store unlinked key (new_entry value ttl now)
  evict_while (suc (length stored.cache)) stored

-- The three erasures of `del` and of `cleanup_expired`.
unfoldable pub drop_key : Cache → Text → Option Cache
drop_key c key = do
  unlinked ← unlink c key
  some (record unlinked {
    lru_map = erase text_dec key unlinked.lru_map;
    cache = erase text_dec key unlinked.cache;
  })

unfoldable pub del : Cache → Text → Option Cache
del c key = if contains text_dec key c.cache then drop_key c key else some c

-- The method `exists`.
unfoldable pub exists_key : Cache → Text → Time → Bool
unfolding is_expired
exists_key c key now = elim (find text_dec key c.cache) [
  | none ↦ false
  | some entry ↦ not (is_expired entry now)
]

-- The loop of `cleanup_expired`, over the entries that the iterator has still to visit.
unfoldable pub cleanup_loop : List (Text × Entry) → Time → Cache → Option Cache
cleanup_loop [] now c = some c
cleanup_loop ((key, entry) ∷ rest) now c = elim (ltb entry.expire_time now) [
  | true ↦ drop_key c key >>= cleanup_loop rest now
  | false ↦ cleanup_loop rest now c
]

unfoldable pub cleanup_expired : Cache → Time → Option Cache
unfolding cleanup_loop
cleanup_expired c now = cleanup_loop c.cache now c

abbrev pub capacity_of : Cache → ℕ
capacity_of c = c.capacity

abbrev pub size : Cache → ℕ
size c = length c.cache

-- `double` and its division are not defined here: the caller gives the quotient of two counts.
unfoldable pub hit_rate {ℓ} : {D : Type ℓ} → (ℕ → ℕ → D) → D → Cache → D
hit_rate divide zero_rate c =
    let total = (c.hits + c.misses) % size_mod in
    if ltb 0 total then divide c.hits total else zero_rate
