-- ===== src/Worker/Cache.antt =====
-- cache_manager.go: the bookkeeping and the cleanup of the worker's cache. The file system is a
-- parameter of the cleanup: `removes e` says whether `os.Remove` of the file of `e` succeeds. Sizes are
-- not negative and the files are listed without error; files of the same age are taken in listed order.
pub mod Bounds
use dark_stream.Common.{
  ℕ, ◌+◌, ◌-◌, Bool, true, false, ◌&&◌, List, [], ◌∷◌, String, if◌then◌else◌, ltb, leb, ◌==◌,
  sort_by,
}

pub record CacheEntry : Type 0 where
  pub path : String
  pub size : ℕ
  pub mod_time : ℕ

pub record CacheManager : Type 0 where
  pub max_size : ℕ
  pub max_age : ℕ
  pub current_size : ℕ
  pub stopped : Bool

abbrev pub total_size : List CacheEntry → ℕ
total_size [] = 0
total_size (e ∷ es) = e.size + total_size es

-- `NewCacheManager`, with the files that are in the directory.
unfoldable pub new_cache_manager : ℕ → ℕ → List CacheEntry → CacheManager
new_cache_manager max_size max_age es = record {
  max_size = max_size;
  max_age = max_age;
  current_size = total_size es;
  stopped = false;
}

-- The entries that a pass leaves, and the bytes that it removes.
pub record Pass : Type 0 where
  pub remaining : List CacheEntry
  pub removed : ℕ

abbrev pub keep : CacheEntry → Pass → Pass
keep e p = record p { remaining = e ∷ p.remaining }

abbrev pub remove : CacheEntry → Pass → Pass
remove e p = record p { removed = e.size + p.removed }

abbrev pub is_older : ℕ → ℕ → CacheEntry → Bool
is_older max_age now e = ltb (e.mod_time + max_age) now

-- An old file that cannot be removed remains.
unfoldable pub age_pass : (CacheEntry → Bool) → ℕ → ℕ → List CacheEntry → Pass
age_pass removes max_age now [] = record { remaining = []; removed = 0 }
age_pass removes max_age now (e ∷ es) =
    let rest = age_pass removes max_age now es in
    if is_older max_age now e && removes e then remove e rest else keep e rest

-- A maximal age of 0 removes nothing.
unfoldable pub first_pass : (CacheEntry → Bool) → ℕ → ℕ → List CacheEntry → Pass
first_pass removes max_age now es =
    if max_age == 0 then record { remaining = es; removed = 0 } else age_pass removes max_age now es

-- Files are removed until the total is within the limit; one that cannot be removed is passed over.
unfoldable pub size_pass : (CacheEntry → Bool) → ℕ → ℕ → List CacheEntry → Pass
size_pass removes max_size total [] = record { remaining = []; removed = 0 }
size_pass removes max_size total (e ∷ es) =
    let left = if removes e then total - e.size else total in
    let rest = size_pass removes max_size left es in
    if leb total max_size
    then record { remaining = e ∷ es; removed = 0 }
    else if removes e
    then remove e rest
    else keep e rest

abbrev pub is_older_than : CacheEntry → CacheEntry → Bool
is_older_than a b = leb a.mod_time b.mod_time

-- A limit of 0 is none. The oldest files go first.
unfoldable pub second_pass : (CacheEntry → Bool) → ℕ → ℕ → List CacheEntry → Pass
second_pass removes max_size total es =
    if max_size == 0
    then record { remaining = es; removed = 0 }
    else if leb total max_size
    then record { remaining = es; removed = 0 }
    else size_pass removes max_size total (sort_by is_older_than es)

-- The files that are left, and the bytes that both passes remove.
unfoldable pub sweep : (CacheEntry → Bool) → ℕ → CacheManager → List CacheEntry → Pass
sweep removes now cm es =
    let first = first_pass removes cm.max_age now es in
    let second = second_pass removes cm.max_size (total_size es - first.removed) first.remaining in
    record { remaining = second.remaining; removed = first.removed + second.removed }

-- `Cleanup`, on the files of the cache and the manager. A size never becomes negative.
unfoldable pub cleanup :
    (CacheEntry → Bool) → ℕ → List CacheEntry → CacheManager → List CacheEntry × CacheManager
cleanup removes now es cm =
    let done = sweep removes now cm es in
    if cm.stopped
    then (es, cm)
    else (done.remaining, record cm { current_size = cm.current_size - done.removed })

unfoldable pub add_file : ℕ → CacheManager → CacheManager
add_file size cm = record cm { current_size = cm.current_size + size }

unfoldable pub remove_file : ℕ → CacheManager → CacheManager
remove_file size cm = record cm { current_size = cm.current_size - size }

unfoldable pub stop : CacheManager → CacheManager
stop cm = record cm { stopped = true }

abbrev pub is_stopped : CacheManager → Bool
is_stopped cm = cm.stopped
