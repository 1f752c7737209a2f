-- ===== src/Config/Persisted.antt =====
-- What updates do to the configuration in memory and in the file.
use dark_stream.Config.{
  ActiveConfig, WorkerConfig, ConversionSettings, ValidationError, validate_config,
}
use dark_stream.Config.Manager.{
  Manager, Saving, Outcome, done, invalid, not_marshalled, not_saved, update, new_manager, run,
  stored, save_encoded, no_errors,
}
use dark_stream.Common.{
  ◌≢◌, ◌≡◌, ◌∷◌, ℕ, true, suc, some, refl, none, inr, inl, if◌then◌else◌, false, count, arith, ap,
  [], Option, List, Bool-cases, Bool, ◌+◌, ◌&&◌,
}

-- An update that has changed the configuration in memory.
abbrev pub is_taken : Outcome → Bool
is_taken done = true
is_taken not_marshalled = true
is_taken not_saved = true
is_taken (invalid _) = false

abbrev is_done : Outcome → Bool
is_done done = true
is_done not_marshalled = false
is_done not_saved = false
is_done (invalid _) = false

abbrev pub IsValid : {Doc : Type 0} → Manager Doc → Type 0
IsValid m = validate_config m.config ≡ []

no_errors-true : (es : List ValidationError) → no_errors es ≡ true → es ≡ []
no_errors-true [] h = refl
no_errors-true (e ∷ es) h = absurd (ground arith)

module _ {Doc : Type 0} (encode : ActiveConfig → Option Doc)
    (decode : Doc → Option ActiveConfig) where
  abbrev Restarts : Outcome × Manager Doc → Type 0
  Restarts r =
      r.0 ≡ done
      → (io : Saving) (now : ℕ) (yaml : ConversionSettings) (workers : Option WorkerConfig)
      → new_manager encode decode io now r.1.file yaml workers ≡ some r.1

  undone : (o : Outcome) → is_done o ≡ false → o ≢ done
  undone o h e = let k : is_done o ≡ true = ap is_done e in ground arith

  saved-Restarts :
      (io : Saving) (m : Manager Doc) (o : Option Doc)
      → ((text : Doc) → o ≡ some text → decode text ≡ some m.config)
      → no_errors (validate_config m.config) ≡ true
      → Restarts (save_encoded encode decode io o m)
  unfolding new_manager
  saved-Restarts io m none reads v = λ e. absurd (undone not_marshalled refl e)
  saved-Restarts io m (some text) reads v = elim (Bool-cases (io.writes && io.renames)) [
    | inl e ↦ rw e (λ _ _ _ _ _. rw (reads text refl, v) refl)
    | inr e ↦ rw e (λ k. absurd (undone not_saved refl k))
  ]

  -- If JSON reads back what it has written, the configuration that an update has saved is the one that a new process starts
  -- with, whatever its defaults.
  pub update-new_manager :
      ((c : ActiveConfig) (text : Doc) → encode c ≡ some text → decode text ≡ some c)
      → (io : Saving) (now : ℕ) (c : ActiveConfig) (m : Manager Doc)
      → (update encode decode io now c m).0 ≡ done
      → (io' : Saving) (now' : ℕ) (yaml : ConversionSettings) (workers : Option WorkerConfig)
      → new_manager encode decode io' now' (update encode decode io now c m).1.file yaml workers
        ≡ some (update encode decode io now c m).1
  unfolding update validate_config
  update-new_manager reads io now c m = elim (Bool-cases (no_errors (validate_config c))) [
    | inl e ↦ rw e (
        saved-Restarts io (record m { config = stored c now m }) (encode (stored c now m))
          (λ text k. reads (stored c now m) text k) e)
    | inr e ↦ rw e (λ k. absurd (undone (invalid (validate_config c)) refl k))
  ]

  abbrev Counted : Manager Doc → Outcome × Manager Doc → Type 0
  Counted m r =
      (IsValid m → IsValid r.1)
      × (r.1.config.version ≡ (if is_taken r.0 then suc m.config.version else m.config.version))

  saved-Counted :
      (io : Saving) (c : ActiveConfig) (now : ℕ) (m : Manager Doc) (o : Option Doc)
      → validate_config c ≡ []
      → Counted m (save_encoded encode decode io o (record m { config = stored c now m }))
  unfolding validate_config
  saved-Counted io c now m none v = ((λ _. v), refl)
  saved-Counted io c now m (some text) v = elim (Bool-cases (io.writes && io.renames)) [
    | inl e ↦ rw e ((λ _. v), refl)
    | inr e ↦ rw e ((λ _. v), refl)
  ]

  update-Counted :
      (io : Saving) (now : ℕ) (c : ActiveConfig) (m : Manager Doc)
      → Counted m (update encode decode io now c m)
  unfolding update
  update-Counted io now c m = elim (Bool-cases (no_errors (validate_config c))) [
    | inl e ↦
        rw e (
          saved-Counted io c now m (encode (stored c now m)) (no_errors-true (validate_config c) e))
    | inr e ↦ rw e ((λ v. v), refl)
  ]

  -- A sequence of updates, of which some are refused and some cannot be saved, keeps a valid configuration valid,
  -- and its version grows by the number of those that were not refused.
  pub run_versions :
      (updates : List (Saving × ℕ × ActiveConfig)) (m : Manager Doc)
      → IsValid m
      → IsValid (run encode decode updates m).1
        × ((run encode decode updates m).1.config.version
            ≡ m.config.version + count is_taken (run encode decode updates m).0)
  unfolding run
  run_versions [] m v = (v, omega arith)
  run_versions ((io, now, c) ∷ rest) m v =
      let s = update-Counted io now c m in
      let r = update encode decode io now c m in
      let h = run_versions rest r.1 (s.0 v) in (h.0, ground (arith, h.1, s.1))
