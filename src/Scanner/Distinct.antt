-- ===== src/Scanner/Distinct.antt =====
-- With duplicate detection a scan makes one job of each checksum that the search for duplicates takes.
use dark_stream.FilePath.{join_paths}
use dark_stream.Scanner.Files.{process_file-Explained}
use dark_stream.Scanner.Facts.{IsFresh, Grows}
use dark_stream.Scanner.Walk.{Scan, add_file, scan_directory, scan_directory-keeps}
use dark_stream.Scanner.{
  job_at, found_in, forget, Entries, process_file, has_hash, is_known, Seen, Scanner, Disk,
  ScannedJob,
}
use dark_stream.Common.{
  sym, subst, refl, arith, append_nil, Option, All-map, ◌≢◌, ◌≡◌, ◌∷◌, ℕ, true, some, inr, inl,
  false, [], List, All-append, All, ◌++◌,
}

module _ (sc : Scanner) (disk : Disk) where
  -- The search for duplicates did not take the same checksum of the sources of the two jobs.
  abbrev pub Differ : ScannedJob → ScannedJob → Type 0
  Differ j k = (h : List ℕ) → disk.hash j.source_path ≡ some h → disk.hash k.source_path ≢ some h

  -- No two jobs of the list have sources of the same checksum.
  abbrev pub NoRepeat : List ScannedJob → Type 0
  NoRepeat [] = Unit
  NoRepeat (j ∷ js) = All (Differ j) js × NoRepeat js

  abbrev pub IsUnknown : ScannedJob → Type 0
  IsUnknown j =
      (h : List ℕ)
      → disk.hash j.source_path ≡ some h
      → is_known sc.options.duplicate_checker h ≡ false

  abbrev IsSeen : Seen → ScannedJob → Type 0
  IsSeen seen j = (h : List ℕ) → disk.hash j.source_path ≡ some h → has_hash h seen ≡ true

  NoRepeat-append :
      (js : List ScannedJob) (j : ScannedJob)
      → All (λ k. Differ k j) js
      → NoRepeat js
      → NoRepeat (js ++ j ∷ [])
  NoRepeat-append [] j h k = (tt, tt)
  NoRepeat-append (i ∷ js) j h k =
      (All-append (Differ i) js (j ∷ []) k.0 (h.0, tt), NoRepeat-append js j h.1 k.1)

  abbrev IsSettled : Scan → Type 0
  IsSettled st = All (IsSeen st.seen) st.jobs × All IsUnknown st.jobs × NoRepeat st.jobs

  module _ (detects : sc.options.detect_duplicates ≡ true) where
    module _ (st : Scan) (later : Seen) (grows : Grows st.seen later)
        (s : All (IsSeen st.seen) st.jobs) (u : All IsUnknown st.jobs) (n : NoRepeat st.jobs) where
      still-IsSeen : All (IsSeen later) st.jobs
      still-IsSeen = All-map (IsSeen st.seen) (IsSeen later) (λ j g h e. grows h (g h e)) st.jobs s

      nothing_new : IsSettled (record { jobs = st.jobs ++ []; seen = later })
      nothing_new =
          subst (λ js. IsSettled (record { jobs = js; seen = later })) (sym (append_nil st.jobs))
            (still-IsSeen, u, n)

      one_new :
          (j : ScannedJob)
          → IsFresh sc disk j.source_path st.seen later
          → IsSettled (record { jobs = st.jobs ++ j ∷ []; seen = later })
      one_new j fresh = (
        All-append (IsSeen later) st.jobs (j ∷ []) still-IsSeen
            ((λ h e. (fresh detects h e).1), tt),
        All-append IsUnknown st.jobs (j ∷ []) u ((λ h e. (fresh detects h e).2), tt),
        NoRepeat-append st.jobs j
            (All-map (IsSeen st.seen) (λ k. Differ k j)
              (λ k g h e d. let a = g h e in let b = (fresh detects h d).0 in ground (arith, a, b))
              st.jobs s)
            n,
      )

    settled : (path : List ℕ) (st : Scan) → IsSettled st → IsSettled (add_file sc disk path st)
    settled path st (s, u, n) =
        let r = process_file sc disk path st.seen in
        elim (process_file-Explained sc disk path st.seen) [
          | inl (e, grows) ↦
              subst (λ l. IsSettled (record { jobs = st.jobs ++ l; seen = r.1 })) (sym e)
                (nothing_new st r.1 grows s u n)
          | inr (out, e, _, grows, fresh) ↦
              subst (λ p. IsSettled (record { jobs = st.jobs ++ found_in p; seen = r.1 })) (sym e)
                (one_new st r.1 grows s u n (job_at sc disk path out) fresh)
        ]

    forgotten : forget sc.options sc.seen_hashes ≡ []
    forgotten = rw detects refl

    -- With duplicate detection no two jobs of a scan have sources of which the search for duplicates took the same
    -- checksum, and no job has a source of which it took a checksum that the external checker knows.
    pub scan_directory-NoRepeat :
        (root : Option Entries)
        → NoRepeat (scan_directory sc disk root).jobs
          × All IsUnknown (scan_directory sc disk root).jobs
    scan_directory-NoRepeat root =
        let h =
          scan_directory-keeps sc disk (λ _. Unit) (λ _ _ _. tt) IsSettled
            (λ path name st _ k. settled (join_paths path name) st k) root tt (tt, tt, tt) in
        (h.2, h.1)
