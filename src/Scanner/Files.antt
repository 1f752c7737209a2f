-- ===== src/Scanner/Files.antt =====
-- `ProcessFile`: what each way through it has found out.
use dark_stream.FilePath.Names.{same_text_self}
use dark_stream.FilePath.{base_name, relative}
use dark_stream.Containment.{any_is, validate_path_within_base}
use dark_stream.Common.{
  some_inj, ◌∷◌, ◌∙◌, sym, subst, refl, none, inr, inl, if◌then◌else◌, arith, Option, Bool-cases,
  Bool, ◌⊎◌, ◌≡◌, ℕ, ◌||◌, true, some, false, [], List, ◌&&◌,
}
use mathlib.Core.Option
use dark_stream.Scanner.{
  process_stat, after_duplicates, process_file, too_large, too_small, check_output, extension,
  finish, check_source, place_output, is_known, job_at, is_duplicate, output_path_of, has_hash,
  found_in, record_hash, is_hidden, found, Seen, Scanner, Disk, Processed,
}
use dark_stream.Scanner.Facts.{Grows, IsPlaced, IsFresh, Explained}

module _ (sc : Scanner) (disk : Disk) where
  module _ (path : List ℕ) (seen : Seen) where
    -- The checks of the paths.
    abbrev Ending : Processed → Type 0
    Ending p =
        (found_in p ≡ [])
        ⊎ ((out : List ℕ) × (p ≡ found (job_at sc disk path out))
            × ((c : List ℕ) × (validate_path_within_base disk.cwd sc.root_path path ≡ some c))
            × (((sc.options.replace_source ≡ true) × (out ≡ path)) ⊎ IsPlaced sc disk path out))

    abbrev Placing : List ℕ → Type 0
    Placing out =
        ((sc.options.replace_source ≡ true) × (out ≡ path))
        ⊎ ((sc.options.replace_source ≡ false)
            × ((way : List ℕ) × (relative sc.root_path path ≡ some way)
                × (out ≡ place_output sc disk (extension sc disk path) way)))

    output-Ending :
        (out way c : List ℕ) (o : Option (List ℕ))
        → validate_path_within_base disk.cwd sc.root_path path ≡ some c
        → relative sc.root_path path ≡ some way
        → out ≡ place_output sc disk (extension sc disk path) way
        → validate_path_within_base disk.cwd sc.output_base out ≡ o
        → Ending (check_output sc disk path out o)
    output-Ending out way c none v leads placed e = inl refl
    output-Ending out way c (some q) v leads placed e = inr (
      out,
      refl,
      (c, v),
      inr (record { way = way; leads = leads; placed = placed; checked = q; accepted = e }),
    )

    source-Ending :
        (out : List ℕ) (o : Option (List ℕ))
        → validate_path_within_base disk.cwd sc.root_path path ≡ o
        → Placing out
        → Ending (check_source sc disk path out o)
    source-Ending out none v placing = inl refl
    source-Ending out (some c) v (inl (e, same)) =
        subst
          (λ b. Ending (
            if b
            then found (job_at sc disk path out)
            else check_output sc disk path out
                (validate_path_within_base disk.cwd sc.output_base out)))
          (sym e) (inr (out, refl, (c, v), inl (e, same)))
    source-Ending out (some c) v (inr (e, (way, leads, placed))) =
        subst
          (λ b. Ending (
            if b
            then found (job_at sc disk path out)
            else check_output sc disk path out
                (validate_path_within_base disk.cwd sc.output_base out)))
          (sym e)
          (output-Ending out way c (validate_path_within_base disk.cwd sc.output_base out) v leads
            placed refl)

    relative-Ending :
        (o : Option (List ℕ))
        → relative sc.root_path path ≡ o
        → sc.options.replace_source ≡ false
        → Ending
            (finish sc disk path (Option.map (place_output sc disk (extension sc disk path)) o))
    relative-Ending none leads e = inl refl
    relative-Ending (some way) leads e =
        let out = place_output sc disk (extension sc disk path) way in
        source-Ending out (validate_path_within_base disk.cwd sc.root_path path) refl
          (inr (e, (way, leads, refl)))

    finish-Ending : Ending (finish sc disk path (output_path_of sc disk path))
    unfolding output_path_of
    finish-Ending = replacing sc.options.replace_source refl
      where
        replacing :
            (b : Bool)
            → sc.options.replace_source ≡ b
            → Ending (
                finish sc disk path (
                  if b
                  then some path
                  else Option.map
                      (place_output sc disk (extension sc disk path))
                      (relative sc.root_path path)))
        replacing true e =
            source-Ending path (validate_path_within_base disk.cwd sc.root_path path) refl
              (inl (e, refl))
        replacing false e = relative-Ending (relative sc.root_path path) refl e

    -- The search for duplicates.
    abbrev Recorded : Bool × Seen → Type 0
    Recorded r = Grows seen r.1 × (r.0 ≡ false → IsFresh sc disk path seen r.1)

    recorded :
        (o : Option (List ℕ)) → disk.hash path ≡ o → Recorded (record_hash sc.options path o seen)
    recorded none e = ((λ h k. k), λ _ _ h k. absurd (unhashed h k))
      where
        unhashed : (h : List ℕ) → disk.hash path ≡ some h → ⊥
        unhashed h k = let c : none ≡ some h = sym e ∙ k in ground arith
    recorded (some h) e = elim (Bool-cases (has_hash h seen)) [
      | inl k ↦ rw k ((λ g l. l), λ f. absurd (ground arith))
      | inr k ↦ rw k (more, fresh k)
    ]
      where
        more : Grows seen ((h, path) ∷ seen)
        more g l = rw l (ground arith)

        fresh :
            has_hash h seen ≡ false
            → is_known sc.options.duplicate_checker h ≡ false
            → IsFresh sc disk path seen ((h, path) ∷ seen)
        fresh k unknown _ g eg =
            subst
              (λ x.
                (has_hash x seen ≡ false)
                × (has_hash x ((h, path) ∷ seen) ≡ true)
                × (is_known sc.options.duplicate_checker x ≡ false))
              (some_inj (sym e ∙ eg)) (k, rw (same_text_self h) refl, unknown)

    duplicates : Recorded (
        if sc.options.detect_duplicates
        then is_duplicate disk sc.options path seen
        else (false, seen))
    unfolding is_duplicate
    duplicates = detecting sc.options.detect_duplicates refl
      where
        detecting :
            (b : Bool)
            → sc.options.detect_duplicates ≡ b
            → Recorded (if b then is_duplicate disk sc.options path seen else (false, seen))
        detecting true e = recorded (disk.hash path) refl
        detecting false e = ((λ h k. k), λ _ d. absurd (ground (arith, e, d)))

    module _ (shown : is_hidden (base_name path) && sc.options.skip_hidden_files ≡ false)
        (video : any_is (extension sc disk path) sc.video_extensions ≡ true) (size : ℕ)
        (sized : disk.stat path ≡ some (false, size))
        (fits : too_small sc.options size || too_large sc.options size ≡ false) where
      after-Explained :
          (r : Bool × Seen)
          → Recorded r
          → Explained sc disk path seen (after_duplicates sc disk path r)
      after-Explained (true, later) h = inl (refl, h.0)
      after-Explained (false, later) h = elim finish-Ending [
        | inl e ↦ inl (e, h.0)
        | inr (out, e, (c, v), o) ↦ inr (
          out,
          e,
          record {
            shown = shown;
            video = video;
            size = size;
            sized = sized;
            fits = fits;
            checked = c;
            accepted = v;
            output = o;
          },
          h.0,
          h.1 refl,
        )
      ]

    stat-Explained :
        is_hidden (base_name path) && sc.options.skip_hidden_files ≡ false
        → any_is (extension sc disk path) sc.video_extensions ≡ true
        → (o : Option (Bool × ℕ)) → disk.stat path ≡ o
        → Explained sc disk path seen (process_stat sc disk path o seen)
    stat-Explained shown video none e = inl (refl, λ h k. k)
    stat-Explained shown video (some (true, size)) e = inl (refl, λ h k. k)
    stat-Explained shown video (some (false, size)) e =
        elim (Bool-cases (too_small sc.options size || too_large sc.options size)) [
          | inl d ↦ rw d (inl (refl, λ h k. k))
          | inr d ↦ rw d (after-Explained shown video size e d _ duplicates)
        ]

    -- A job is made of a file only after all checks.
    pub process_file-Explained : Explained sc disk path seen (process_file sc disk path seen)
    unfolding process_file
    process_file-Explained =
        elim (Bool-cases (is_hidden (base_name path) && sc.options.skip_hidden_files)) [
          | inl e ↦ rw e (inl (refl, λ h k. k))
          | inr e ↦ elim (Bool-cases (any_is (extension sc disk path) sc.video_extensions)) [
            | inl v ↦ rw (e, v) (stat-Explained e v (disk.stat path) refl)
            | inr v ↦ rw (e, v) (inl (refl, λ h k. k))
          ]
        ]
