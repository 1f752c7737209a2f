-- ===== src/Server/Video/Guarded.antt =====
-- What `DownloadVideo` lets out.
use dark_stream.Tracker.Outcomes.{called}
use dark_stream.Tracker.Fetching.{fetch_then, looked_up}
use dark_stream.Tracker.Rows.{find_job}
use dark_stream.Models.{status_eq, processing, Job}
use dark_stream.Tracker.{pure, ok, Result, Store}
use dark_stream.Server.{validate_job_id, get, method_eq, Method}
use dark_stream.Server.Video.{
  send_validated, refused, send_source, send_opened, send_file, source_of, Reply, download_video,
  SourceFiles,
}
use dark_stream.Common.{
  true, if◌then◌else◌, false, Bool, refl, none, inr, inl, arith, Option, Bool-cases, ◌≡◌, ℕ, some,
  length, String, List, ◌<◌,
}

-- The bytes are of a file that the source of a running job names and that lies in an allowed directory.
abbrev pub IsAllowed : SourceFiles → String → List ℕ → Store → Reply → Type 0
IsAllowed fs id header s r =
    (j : Job) × (path : List ℕ) × (file : List ℕ) × (find_job id s.jobs ≡ some j)
    × (j.status ≡ processing)
    × (source_of fs j ≡ some path)
    × (fs.read path ≡ some file)
    × (r ≡ send_file fs.seeks file header)

module _ (fs : SourceFiles) (id : String) (header : List ℕ) (s : Store) where
  abbrev Guarded : Result Reply × Store → Type 0
  Guarded x =
      (r : Reply) × (x.0 ≡ ok r)
      × (0 < length r.body → IsAllowed fs id header s r)
      × (x.1.jobs ≡ s.jobs)

  refused-Guarded : (n : ℕ) (t : Store) → t.jobs ≡ s.jobs → Guarded (ok (refused n), t)
  refused-Guarded n t e = (refused n, refl, λ h. absurd (omega arith), e)

  module _ (j : Job) (found : find_job id s.jobs ≡ some j) (running : j.status ≡ processing)
      (t : Store) (same : t.jobs ≡ s.jobs) where
    opened-Guarded :
        (path : List ℕ) (o : Option (List ℕ))
        → source_of fs j ≡ some path
        → fs.read path ≡ o
        → Guarded (ok (send_opened fs header o), t)
    opened-Guarded path none v e = refused-Guarded 404 t same
    opened-Guarded path (some file) v e = measured fs.stats
      where
        measured :
            (b : Bool) → Guarded (ok (if b then send_file fs.seeks file header else refused 500), t)
        measured true = (
          send_file fs.seeks file header,
          refl,
          λ h. (j, path, file, found, running, v, e, refl),
          same,
        )
        measured false = refused-Guarded 500 t same

    validated-Guarded :
        (o : Option (List ℕ)) → source_of fs j ≡ o → Guarded (ok (send_validated fs header o), t)
    validated-Guarded none e = refused-Guarded 403 t same
    validated-Guarded (some path) e = opened-Guarded path (fs.read path) e refl

  source-Guarded :
      (o : Option Job) (t : Store)
      → find_job id s.jobs ≡ o
      → t.jobs ≡ s.jobs
      → Guarded (ok (send_source fs header (looked_up o)), t)
  source-Guarded none t e same = refused-Guarded 404 t same
  source-Guarded (some j) t e same = elim (Bool-cases (status_eq j.status processing)) [
    | inl h ↦ rw h (validated-Guarded j e (ground arith) t same (source_of fs j) refl)
    | inr h ↦ rw h (refused-Guarded 400 t same)
  ]

-- Whoever asks, an answer with any bytes is that of `send_file` for the file which the source path of the job
-- resolves to within the allowed directories, and the job is being processed. A download changes no job.
pub download_video_guarded :
    (fs : SourceFiles) (method : Method) (id : String) (header : List ℕ) (s : Store)
    → (r : Reply) × ((download_video fs method id header s).0 ≡ ok r)
      × (0 < length r.body → IsAllowed fs id header s r)
      × ((download_video fs method id header s).1.jobs ≡ s.jobs)
unfolding download_video
download_video_guarded fs method id header s = elim (Bool-cases (method_eq method get)) [
  | inr e ↦ rw e (refused-Guarded fs id header s 405 s refl)
  | inl e ↦ rw e (elim (Bool-cases (validate_job_id id)) [
    | inr f ↦ rw f (refused-Guarded fs id header s 400 s refl)
    | inl f ↦ rw f (
        fetch_then id (λ fetched. pure (send_source fs header fetched)) s (Guarded fs id header s)
          (refused-Guarded fs id header s 404 (called s) refl)
          (source-Guarded fs id header s (find_job id s.jobs) (called s) refl refl))
  ])
]
