-- ===== src/Config/Valid.antt =====
-- `validateConfig` against what a valid configuration is.
use dark_stream.Server.{codes}
use dark_stream.Config.Checks.{matches_bitrate_iff, matches_resolution_iff, IsBitrate, IsResolution}
use dark_stream.Common.{
  ◌⊎◌, ◌≤◌, ◌≡◌, ◌∷◌, ◌↔◌, ℤ, ℕ, true, sym, subst, str_eq-true, str_eq, refl, pos, negsuc, leb→le,
  inr, inl, false, eq_iff, arith, [], String, List, Bool-cases, Bool, ◌++◌,
}
use dark_stream.Config.{
  ValidationError, ActiveConfig, VideoConfig, AudioConfig, WorkerConfig, expect, or_empty, one_of,
  at_least, matches_resolution, matches_bitrate, validate_config, validate_video_config,
  validate_audio_config, validate_output_config, validate_worker_config, valid_video_codecs,
  valid_presets, valid_audio_codecs, valid_formats, valid_log_levels, valid_log_formats,
}

abbrev pub IsOneOf : List String → String → Type 0
IsOneOf [] s = ⊥
IsOneOf (t ∷ ts) s = (s ≡ t) ⊎ IsOneOf ts s

abbrev pub AtLeast : ℕ → ℤ → Type 0
AtLeast n z = (m : ℕ) × (n ≤ m) × (z ≡ pos m)

abbrev pub IsVideo : VideoConfig → Type 0
IsVideo v =
    ((v.resolution ≡ "") ⊎ IsResolution (codes v.resolution))
    × (((v.codec ≡ "") ⊎ IsOneOf valid_video_codecs v.codec)
        × (((v.bitrate ≡ "") ⊎ IsBitrate (codes v.bitrate))
            × ((v.preset ≡ "") ⊎ IsOneOf valid_presets v.preset)))

abbrev pub IsAudio : AudioConfig → Type 0
IsAudio a =
    ((a.codec ≡ "") ⊎ IsOneOf valid_audio_codecs a.codec)
    × ((a.bitrate ≡ "") ⊎ IsBitrate (codes a.bitrate))

abbrev pub IsWorker : WorkerConfig → Type 0
IsWorker w =
    AtLeast 1 w.concurrency
    × (AtLeast 1 w.heartbeat_interval
        × (AtLeast 1 w.job_check_interval
            × (AtLeast 60 w.job_timeout
                × (((w.log_level ≡ "") ⊎ IsOneOf valid_log_levels w.log_level)
                    × ((w.log_format ≡ "") ⊎ IsOneOf valid_log_formats w.log_format)))))

abbrev pub IsValidConfig : ActiveConfig → Type 0
IsValidConfig c =
    IsVideo c.video
    × (IsAudio c.audio
        × (((c.output.format ≡ "") ⊎ IsOneOf valid_formats c.output.format) × IsWorker c.worker))

str_eq_iff : (s t : String) → (str_eq s t ≡ true) ↔ (s ≡ t)
str_eq_iff s t = eq_iff s t

one_of_iff : (ts : List String) (s : String) → (one_of ts s ≡ true) ↔ IsOneOf ts s
one_of_iff [] s = ((λ h. absurd (ground arith)), λ h. absurd h)
one_of_iff (t ∷ ts) s = (
  λ h. elim (Bool-cases (str_eq s t)) [
    | inl e ↦ inl (str_eq-true s t e)
    | inr e ↦ inr ((one_of_iff ts s).0 (rw e at h))
  ],
  λ h. elim h [
    | inl e ↦ (let k : str_eq s t ≡ true = (str_eq_iff s t).1 e in ground arith)
    | inr k ↦ (let l = (one_of_iff ts s).1 k in ground arith)
  ],
)

or_empty_iff :
    (test : String → Bool) (P : String → Type 0) (s : String)
    → (test s ≡ true) ↔ P s
    → (or_empty test s ≡ true) ↔ ((s ≡ "") ⊎ P s)
or_empty_iff test P s f = (
  λ h. elim (Bool-cases (str_eq s "")) [
    | inl e ↦ inl (str_eq-true s "" e)
    | inr e ↦ inr (f.0 (rw e at h))
  ],
  λ h. elim h [
    | inl e ↦ (let k : str_eq s "" ≡ true = (str_eq_iff s "").1 e in ground arith)
    | inr k ↦ (let l = f.1 k in ground arith)
  ],
)

at_least_iff : (n : ℕ) (z : ℤ) → (at_least n z ≡ true) ↔ AtLeast n z
at_least_iff n (pos m) = (
  (λ h. (m, leb→le n m h, refl)),
  λ (k, l, e). subst (λ x. at_least n x ≡ true) (sym e) (ground arith),
)
at_least_iff n (negsuc m) = (
  (λ h. absurd (ground arith)),
  λ (k, l, e). subst (λ x. at_least n x ≡ true) (sym e) (ground arith),
)

-- A check that finds no error.
expect_iff :
    {P : Type 0} (b : Bool) (field message : String)
    → (b ≡ true) ↔ P
    → (expect b field message ≡ []) ↔ P
expect_iff true field message f = ((λ _. f.0 refl), λ _. refl)
expect_iff false field message f =
    ((λ h. absurd (ground arith)), λ p. let k = f.1 p in absurd (ground arith))

both_iff :
    {P Q : Type 0} (xs ys : List ValidationError)
    → (xs ≡ []) ↔ P
    → (ys ≡ []) ↔ Q
    → (xs ++ ys ≡ []) ↔ (P × Q)
both_iff [] ys f g = ((λ h. (f.0 refl, g.0 h)), λ (p, q). g.1 q)
both_iff (x ∷ xs) ys f g =
    ((λ h. absurd (ground arith)), λ (p, q). let k = f.1 p in absurd (ground arith))

named_iff :
    (ts : List String) (s field message : String)
    → (expect (or_empty (one_of ts) s) field message ≡ []) ↔ ((s ≡ "") ⊎ IsOneOf ts s)
named_iff ts s field message =
    expect_iff _ field message (or_empty_iff (one_of ts) (IsOneOf ts) s (one_of_iff ts s))

number_iff :
    (n : ℕ) (z : ℤ) (field message : String)
    → (expect (at_least n z) field message ≡ []) ↔ AtLeast n z
number_iff n z field message = expect_iff (at_least n z) field message (at_least_iff n z)

IsBitrate-iff :
    (s field message : String)
    → (expect (or_empty (λ t. matches_bitrate (codes t)) s) field message ≡ [])
      ↔ ((s ≡ "") ⊎ IsBitrate (codes s))
IsBitrate-iff s field message = expect_iff _ field message (
    or_empty_iff (λ t. matches_bitrate (codes t)) (λ t. IsBitrate (codes t)) s
      (matches_bitrate_iff (codes s)))

validate_video_config_iff : (v : VideoConfig) → (validate_video_config v ≡ []) ↔ IsVideo v
unfolding validate_video_config
validate_video_config_iff v =
    both_iff _ _
      (expect_iff _ _ _ (
        or_empty_iff (λ t. matches_resolution (codes t)) (λ t. IsResolution (codes t)) v.resolution
          (matches_resolution_iff (codes v.resolution))))
      (both_iff _ _ (named_iff valid_video_codecs v.codec _ _)
        (both_iff _ _ (IsBitrate-iff v.bitrate _ _) (named_iff valid_presets v.preset _ _)))

validate_audio_config_iff : (a : AudioConfig) → (validate_audio_config a ≡ []) ↔ IsAudio a
unfolding validate_audio_config
validate_audio_config_iff a =
    both_iff _ _ (named_iff valid_audio_codecs a.codec _ _) (IsBitrate-iff a.bitrate _ _)

validate_worker_config_iff : (w : WorkerConfig) → (validate_worker_config w ≡ []) ↔ IsWorker w
unfolding validate_worker_config
validate_worker_config_iff w = both_iff _ _ (number_iff 1 w.concurrency _ _) (
    both_iff _ _ (number_iff 1 w.heartbeat_interval _ _) (
      both_iff _ _ (number_iff 1 w.job_check_interval _ _) (
        both_iff _ _ (number_iff 60 w.job_timeout _ _) (
          both_iff _ _ (named_iff valid_log_levels w.log_level _ _)
            (named_iff valid_log_formats w.log_format _ _)))))

-- A configuration passes all checks exactly if its resolution is two numbers around an x, its bitrates are numbers with
-- at most one unit, its names are among the known ones, each of these unless it is empty, and its worker has at
-- least one loop, intervals of a second and a timeout of a minute.
pub validate_config_iff : (c : ActiveConfig) → (validate_config c ≡ []) ↔ IsValidConfig c
unfolding validate_config validate_output_config
validate_config_iff c = both_iff _ _ (validate_video_config_iff c.video) (
    both_iff _ _ (validate_audio_config_iff c.audio) (
      both_iff _ _ (named_iff valid_formats c.output.format _ _)
        (validate_worker_config_iff c.worker)))
