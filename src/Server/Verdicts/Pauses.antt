-- ===== src/Server/Verdicts/Pauses.antt =====
-- A heartbeat never ends the pause of a worker.
use dark_stream.Common.{
  ℕ, ◌≡◌, refl, ap, ◌∙◌, filter, sort_by, Bool, true, false, List, [], ◌∷◌, ◌++◌, map, Option, none,
  some, String, Bool-cases, inl, inr, arith, ltb, count, str_eq, if◌then◌else◌,
}
use dark_stream.Models.{WorkerHeartbeat, worker_status_paused}
use dark_stream.Tracker.{
  Store, Result, ok, err, driver, writing, reading, query, statement, fails, ◌>>=◌,
}
use dark_stream.Tracker.Workers.{
  is_worker, refreshed, upsert_worker, update_worker_heartbeat, get_workers, get_active_workers,
  heard_later, is_active,
}
use dark_stream.Tracker.Outcomes.{called}
use dark_stream.Tracker.Fetching.{try_then}
use dark_stream.Metrics.{record_heartbeat}
use dark_stream.Server.{answer, empty, Method, post, Response}
use dark_stream.Server.Assign.{find_worker}
use dark_stream.Server.Reports.{worker_heartbeat, heartbeat_decoded, after_heartbeat, count_workers}
use dark_stream.Server.Verdicts.{only-cases, unless-cases}

-- Whether there is a worker, and it is paused.
abbrev pub is_paused : Option WorkerHeartbeat → Bool
is_paused none = false
is_paused (some w) = str_eq w.status worker_status_paused

-- A query leaves the workers as they are.
query_workers : {A : Type 0} (f : Store → A) (s : Store) → (query f s).1.workers ≡ s.workers
unfolding statement
query_workers f s = elim (Bool-cases (fails s.faults)) [ inl e ↦ rw e refl | inr e ↦ rw e refl ]

module _ (hb : WorkerHeartbeat) (w : WorkerHeartbeat) where
  abbrev updated : WorkerHeartbeat
  updated = if is_worker hb.worker_id w then refreshed hb w else w

  updated_id : updated.worker_id ≡ w.worker_id
  updated_id = elim (Bool-cases (is_worker hb.worker_id w)) [
    | inl e ↦ rw e refl
    | inr e ↦ rw e refl
  ]

  updated_status :
      str_eq w.status worker_status_paused ≡ true
      → str_eq updated.status worker_status_paused ≡ true
  updated_status h = elim (Bool-cases (is_worker hb.worker_id w)) [
    | inl e ↦ rw (e, h) refl
    | inr e ↦ rw e h
  ]

refreshed_paused :
    (hb : WorkerHeartbeat) (id : String) (ws : List WorkerHeartbeat)
    → is_paused (find_worker id ws) ≡ true
    → is_paused
        (find_worker id (map (λ w. if is_worker hb.worker_id w then refreshed hb w else w) ws))
      ≡ true
refreshed_paused hb id [] h = h
refreshed_paused hb id (w ∷ ws) h = elim (Bool-cases (str_eq w.worker_id id)) [
  | inl e ↦
      let at : str_eq (updated hb w).worker_id id ≡ true =
        ap (λ x. str_eq x id) (updated_id hb w) ∙ e in
      let was : str_eq w.status worker_status_paused ≡ true = rw e at h in
      rw at (updated_status hb w was)
  | inr e ↦
      let past : str_eq (updated hb w).worker_id id ≡ false =
        ap (λ x. str_eq x id) (updated_id hb w) ∙ e in
      let rest : is_paused (find_worker id ws) ≡ true = rw e at h in
      rw past (refreshed_paused hb id ws rest)
]

appended_paused :
    (hb : WorkerHeartbeat) (id : String) (ws : List WorkerHeartbeat)
    → is_paused (find_worker id ws) ≡ true
    → is_paused (find_worker id (ws ++ hb ∷ [])) ≡ true
appended_paused hb id [] h = cc
appended_paused hb id (w ∷ ws) h = ground (arith, appended_paused hb id ws)

upserted_paused :
    (hb : WorkerHeartbeat) (id : String) (s : Store)
    → is_paused (find_worker id s.workers) ≡ true
    → is_paused (find_worker id (upsert_worker hb s).workers) ≡ true
unfolding upsert_worker
upserted_paused hb id s h = elim (Bool-cases (ltb 0 (count (is_worker hb.worker_id) s.workers))) [
  | inl e ↦ rw e (refreshed_paused hb id s.workers h)
  | inr e ↦ rw e (appended_paused hb id s.workers h)
]

module _ (id : String) where
  abbrev Paused : Result Response × Store → Type 0
  Paused r = is_paused (find_worker id r.1.workers) ≡ true

  after_heartbeat-Paused :
      (hb : WorkerHeartbeat) (now : ℕ) (r : Result (Unit {0})) (s : Store)
      → is_paused (find_worker id s.workers) ≡ true
      → Paused (after_heartbeat hb now r s)
  unfolding after_heartbeat get_workers get_active_workers
  after_heartbeat-Paused hb now (err e) s h = h
  after_heartbeat-Paused hb now (ok u) s h =
      try_then (reading (λ t. sort_by heard_later t.workers))
        (λ all. count_workers all now >>= λ counts.
          answer empty (record_heartbeat hb.worker_id hb.hostname ∷ counts))
        s Paused h
        (rw
          (query_workers (λ t. sort_by heard_later (filter (is_active 120 now) t.workers))
            (called s))
          h)

-- A worker that is paused is still paused after any request with a heartbeat, its own or another's, and whatever
-- calls of the database fail.
pub worker_heartbeat_keeps_pause :
    (method : Method) (hb : WorkerHeartbeat) (now : ℕ) (s : Store) (id : String)
    → is_paused (find_worker id s.workers) ≡ true
    → is_paused (find_worker id (worker_heartbeat method (some hb) now s).1.workers) ≡ true
unfolding worker_heartbeat heartbeat_decoded update_worker_heartbeat
worker_heartbeat_keeps_pause method hb now s id h = only-cases (Paused id) s post method _ h λ _.
    unless-cases (Paused id) s (str_eq hb.worker_id "") 400 _ h (
      try_then (writing (upsert_worker hb)) (after_heartbeat hb now) s (Paused id)
        (after_heartbeat-Paused id hb now (err driver) (called s) h)
        (after_heartbeat-Paused id hb now (ok tt) (upsert_worker hb (called s))
          (upserted_paused hb id (called s) h)))
