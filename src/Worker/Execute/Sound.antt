-- ===== src/Worker/Execute/Sound.antt =====
-- What is uploaded, and how a job is accounted for.
use dark_stream.Common.{
  if◌then◌else◌, false, Bool, suc, ◌-◌, ◌++◌, ◌⊎◌, ◌≡◌, ◌∷◌, ℕ, true, str_eq-true, str_eq, some,
  refl, none, inr, inl, arith, [], String, Option, List, Bool-cases, All-append, All,
}
use mathlib.Core.List.{Mem, mem-cons_self, mem-cons_of_mem}
use dark_stream.Models.{Job}
use dark_stream.Worker.Execute.{
  JobError, no_directory, make_dir, report_progress, then_call, Surroundings, Execution, Call,
  Diagnostics, send, report_failed, upload_step, check_step, converted_step, convert_step,
  verified_step, verify_step, download_step, execute_job, process_job, config_or_static, report_of,
  with_cleanup, mark_job_finished, mark_job_started, output_extension, remove_dir,
}

module _ (s : Surroundings) (job : Job) where
  -- The checksum of the job, if it has one, is that of the file.
  abbrev pub IsVerified : List ℕ → Type 0
  IsVerified file =
      (job.source_checksum ≡ "")
      ⊎ ((sum : String) × (s.sha256 file ≡ some sum)
          × (s.equal_fold sum job.source_checksum ≡ true))

  -- The video was converted from a file that was downloaded, and verified where the job has a checksum, and was found good.
  abbrev pub IsGood : List ℕ → Type 0
  IsGood video =
      (file : List ℕ) × (s.download ≡ some file)
      × IsVerified file
      × (s.convert (config_or_static s s.fetch_config) file ≡ some video)
      × (s.validate video ≡ true)

  -- What is sent is good.
  abbrev pub IsSound : Call → Type 0
  IsSound (send video) = IsGood video
  IsSound _ = Unit

  abbrev pub Succeeded : Type 0
  Succeeded = (video : List ℕ) × IsGood video × (s.upload video ≡ true)

  -- No video that is sent is accepted.
  abbrev pub IsRefused : Call → Type 0
  IsRefused (send video) = s.upload video ≡ false
  IsRefused _ = Unit

  abbrev Fine : Execution → Type 0
  Fine e =
      All IsSound e.1
      × (e.0 ≡ none → Succeeded)
      × ((x : JobError) → e.0 ≡ some x → All IsRefused e.1)

  module _ (file : List ℕ) (here : s.download ≡ some file) where
    upload-Fine : (video : List ℕ) → IsGood video → Fine (upload_step s video)
    upload-Fine video good = elim (Bool-cases (s.upload video)) [
      | inl e ↦ rw e ((good, tt), λ _. (video, good, e), λ x k. absurd (ground arith))
      | inr e ↦ rw e ((good, tt), (λ k. absurd (ground arith)), λ x k. (refl, tt))
    ]

    check-Fine :
        (video : List ℕ)
        → IsVerified file
        → s.convert (config_or_static s s.fetch_config) file ≡ some video
        → Fine (check_step s video)
    check-Fine video v c = elim (Bool-cases (s.validate video)) [
      | inl e ↦ rw e (
          let f = upload-Fine video (file, here, v, c, e) in
          ((tt, (tt, f.0)), f.1, λ x k. (tt, (tt, f.2 x k))))
      | inr e ↦ rw e ((tt, tt), (λ k. absurd (ground arith)), λ x k. (tt, tt))
    ]

    convert-Fine : IsVerified file → Fine (convert_step s job file)
    unfolding convert_step
    convert-Fine v =
        let f = converted (s.convert (config_or_static s s.fetch_config) file) refl in
        ((tt, (tt, (tt, f.0))), f.1, λ x k. (tt, (tt, (tt, f.2 x k))))
      where
        converted :
            (o : Option (List ℕ))
            → s.convert (config_or_static s s.fetch_config) file ≡ o
            → Fine (
                converted_step s
                  (output_extension (config_or_static s s.fetch_config) job.output_path)
                  o)
        converted none e = ((tt, tt), (λ k. absurd (ground arith)), λ x k. (tt, tt))
        converted (some video) e =
            (let f = check-Fine video v e in ((tt, f.0), f.1, λ x k. (tt, f.2 x k)))

    verified-Fine : (o : Option String) → s.sha256 file ≡ o → Fine (verified_step s job file o)
    verified-Fine none e = ((tt, tt), (λ k. absurd (ground arith)), λ x k. (tt, tt))
    verified-Fine (some sum) e = elim (Bool-cases (s.equal_fold sum job.source_checksum)) [
      | inl k ↦
          rw k (let f = convert-Fine (inr (sum, e, k)) in ((tt, f.0), f.1, λ x k. (tt, f.2 x k)))
      | inr k ↦ rw k ((tt, tt), (λ k. absurd (ground arith)), λ x k. (tt, tt))
    ]

    verify-Fine : Fine (verify_step s job file)
    verify-Fine = elim (Bool-cases (str_eq job.source_checksum "")) [
      | inl e ↦ rw e (convert-Fine (inl (str_eq-true job.source_checksum "" e)))
      | inr e ↦ rw e (verified-Fine (s.sha256 file) refl)
    ]

  download-Fine : (o : Option (List ℕ)) → s.download ≡ o → Fine (download_step s job o)
  download-Fine none e = ((tt, tt), (λ k. absurd (ground arith)), λ x k. (tt, tt))
  download-Fine (some file) e =
      (let f = verify-Fine file e in ((tt, f.0), f.1, λ x k. (tt, f.2 x k)))

  cleaned-Fine : (e : Execution) → Fine e → Fine (with_cleanup e)
  cleaned-Fine e h = (
    All-append IsSound e.1 (remove_dir ∷ []) h.0 (tt, tt),
    h.1,
    λ x k. All-append IsRefused e.1 (remove_dir ∷ []) (h.2 x k) (tt, tt),
  )

  execute-Fine : Fine (execute_job s job)
  unfolding execute_job
  execute-Fine = made s.makes_dir
    where
      made :
          (b : Bool)
          → Fine (
              then_call (report_progress 0 "download" ∷ make_dir ∷ []) (
                if b
                then with_cleanup (download_step s job s.download)
                else (some no_directory, [])))
      made true =
          let f = cleaned-Fine (download_step s job s.download) (download-Fine s.download refl) in
          ((tt, (tt, f.0)), f.1, λ x k. (tt, (tt, f.2 x k)))
      made false = ((tt, (tt, tt)), (λ k. absurd (ground arith)), λ x k. (tt, (tt, tt)))

  -- Whatever the parts of the worker answer, the worker uploads only a video that FFmpeg has made of the
  -- downloaded file, which has the checksum of the job if the job has one, and that has passed the check; and a job is
  -- carried out without an error only if such a video has been uploaded.
  pub execute_job-IsSound :
      All IsSound (execute_job s job).1 × ((execute_job s job).0 ≡ none → Succeeded)
  execute_job-IsSound = (execute-Fine.0, execute-Fine.1)

  -- How many jobs were started, completed and failed.
  abbrev pub Settled : Diagnostics → List Call × Diagnostics → Type 0
  Settled d r =
      (r.1.active_jobs ≡ d.active_jobs)
      × (r.1.jobs_started ≡ suc d.jobs_started)
      × (r.1.last_job_id ≡ job.id)
      × (((r.1.jobs_completed ≡ suc d.jobs_completed)
            × (r.1.jobs_failed ≡ d.jobs_failed)
            × Succeeded)
          ⊎ ((r.1.jobs_completed ≡ d.jobs_completed)
              × (r.1.jobs_failed ≡ suc d.jobs_failed)
              × Mem report_failed r.0
              × All IsRefused r.0))

  mem_last : (calls : List Call) (c : Call) → Mem c (calls ++ c ∷ [])
  mem_last [] c = mem-cons_self
  mem_last (x ∷ calls) c = mem-cons_of_mem x (mem_last calls c)

  -- Every job counts once: as completed, and then a good video has been uploaded; or as failed, and then no video that was
  -- sent has been accepted, and the failure is reported to the master. Afterwards the worker has as many active jobs as before.
  pub process_job_settles : (d : Diagnostics) → Settled d (process_job s job d)
  unfolding process_job
  process_job_settles d = settles (execute_job s job) execute-Fine
    where
      settles :
          (e : Execution)
          → Fine e
          → Settled d (
            e.1 ++ report_of e.0,
            (let running = mark_job_started job.id (record d { active_jobs = suc d.active_jobs }) in
                let finished = mark_job_finished job.id e.0 running in
                record finished { active_jobs = finished.active_jobs - 1 }),
          )
      settles (none, calls) f = (omega arith, refl, refl, inl (refl, refl, f.1 refl))
      settles (some e, calls) f = (
        omega arith,
        refl,
        refl,
        inr (
          refl,
          refl,
          mem_last calls report_failed,
          All-append IsRefused calls (report_failed ∷ []) (f.2 e refl) (tt, tt),
        ),
      )
