-- ===== src/Worker/Cache/Bounds.antt =====
-- What the cleanup of the cache guarantees of sizes.
use dark_stream.Common.{
  ℕ, ◌+◌, ◌-◌, ◌≤◌, ◌<◌, ◌≡◌, refl, sym, ◌∙◌, Bool, true, false, List, [], ◌∷◌, Bool-cases, inl,
  inr, arith, if◌then◌else◌, leb, ◌==◌, sort_by, insert_by,
}
use dark_stream.Worker.Cache.{
  CacheEntry, CacheManager, total_size, age_pass, first_pass, size_pass, is_older_than, second_pass,
  sweep, cleanup,
}

-- A pass accounts for every byte.
age_pass-total :
    (removes : CacheEntry → Bool) (max_age now : ℕ) (es : List CacheEntry)
    → total_size (age_pass removes max_age now es).remaining
        + (age_pass removes max_age now es).removed
      ≡ total_size es
unfolding age_pass
age_pass-total removes max_age now [] = omega arith
age_pass-total removes max_age now (e ∷ es) = ground (arith, age_pass-total removes max_age now es)

first_pass-total :
    (removes : CacheEntry → Bool) (max_age now : ℕ) (es : List CacheEntry)
    → total_size (first_pass removes max_age now es).remaining
        + (first_pass removes max_age now es).removed
      ≡ total_size es
unfolding first_pass
first_pass-total removes max_age now es = elim (Bool-cases (max_age == 0)) [
  | inl e ↦ rw e (omega arith)
  | inr e ↦ rw e (age_pass-total removes max_age now es)
]

size_pass-total :
    (removes : CacheEntry → Bool) (max_size total : ℕ) (es : List CacheEntry)
    → total_size (size_pass removes max_size total es).remaining
        + (size_pass removes max_size total es).removed
      ≡ total_size es
unfolding size_pass
size_pass-total removes max_size total [] = omega arith
size_pass-total removes max_size total (e ∷ es) =
    ground
      (arith, size_pass-total removes max_size (if removes e then total - e.size else total) es)

-- If every removal succeeds, the pass ends within the limit.
size_pass-within :
    (removes : CacheEntry → Bool) (max_size total : ℕ) (es : List CacheEntry)
    → ((e : CacheEntry) → removes e ≡ true)
    → total ≡ total_size es
    → total_size (size_pass removes max_size total es).remaining ≤ max_size
unfolding size_pass
size_pass-within removes max_size total [] all h = omega arith
size_pass-within removes max_size total (e ∷ es) all h = elim (Bool-cases (leb total max_size)) [
  | inl f ↦ rw f (ground arith)
  | inr f ↦ rw (f, all e) (size_pass-within removes max_size (total - e.size) es all (omega arith))
]

insert_by-total :
    (x : CacheEntry) (es : List CacheEntry)
    → total_size (insert_by is_older_than x es) ≡ x.size + total_size es
unfolding insert_by
insert_by-total x [] = refl
insert_by-total x (y ∷ ys) = ground (arith, insert_by-total x ys)

sort_by-total : (es : List CacheEntry) → total_size (sort_by is_older_than es) ≡ total_size es
unfolding sort_by
sort_by-total [] = refl
sort_by-total (e ∷ es) =
    let ih = sort_by-total es in let i = insert_by-total e (sort_by is_older_than es) in omega arith

second_pass-total :
    (removes : CacheEntry → Bool) (max_size total : ℕ) (es : List CacheEntry)
    → total_size (second_pass removes max_size total es).remaining
        + (second_pass removes max_size total es).removed
      ≡ total_size es
unfolding second_pass
second_pass-total removes max_size total es =
    let t = size_pass-total removes max_size total (sort_by is_older_than es) in
    let u = sort_by-total es in
    elim (Bool-cases (max_size == 0)) [
      | inl e ↦ rw e (omega arith)
      | inr e ↦ rw e (elim (Bool-cases (leb total max_size)) [
        | inl f ↦ rw f (omega arith)
        | inr f ↦ rw f (t ∙ u)
      ])
    ]

-- The cleanup accounts for every byte: if the recorded size is the size of the files before, it is the size of
-- the files that are left, whichever removals fail and whether or not the manager is stopped.
pub cleanup_accounts :
    (removes : CacheEntry → Bool) (now : ℕ) (es : List CacheEntry) (cm : CacheManager)
    → cm.current_size ≡ total_size es
    → (cleanup removes now es cm).1.current_size ≡ total_size (cleanup removes now es cm).0
unfolding cleanup sweep
cleanup_accounts removes now es cm h =
    let first = first_pass removes cm.max_age now es in
    let a = first_pass-total removes cm.max_age now es in
    let b = second_pass-total removes cm.max_size (total_size es - first.removed) first.remaining in
    elim (Bool-cases cm.stopped) [ inl e ↦ rw e h | inr e ↦ rw e (omega arith) ]

second_pass-within :
    (removes : CacheEntry → Bool) (max_size total : ℕ) (es : List CacheEntry)
    → ((e : CacheEntry) → removes e ≡ true)
    → total ≡ total_size es
    → 0 < max_size
    → total_size (second_pass removes max_size total es).remaining ≤ max_size
unfolding second_pass
second_pass-within removes max_size total es all h limited =
    let u = sort_by-total es in
    let w = size_pass-within removes max_size total (sort_by is_older_than es) all (h ∙ sym u) in
    let e : (max_size == 0) ≡ false = ground arith in
    rw e (elim (Bool-cases (leb total max_size)) [ inl f ↦ rw f (ground arith) | inr f ↦ rw f w ])

-- After a cleanup by a manager that is not stopped and has a limit, if no removal fails, the files that are left
-- are within the limit.
pub cleanup_within_limit :
    (removes : CacheEntry → Bool) (now : ℕ) (es : List CacheEntry) (cm : CacheManager)
    → cm.stopped ≡ false
    → 0 < cm.max_size
    → ((e : CacheEntry) → removes e ≡ true)
    → total_size (cleanup removes now es cm).0 ≤ cm.max_size
unfolding cleanup sweep
cleanup_within_limit removes now es cm running limited all =
    let first = first_pass removes cm.max_age now es in
    let a = first_pass-total removes cm.max_age now es in
    rw running (
      second_pass-within removes cm.max_size (total_size es - first.removed) first.remaining all
        (omega arith) limited)
