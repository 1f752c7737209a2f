-- ===== src/Server/Settings/Saved.antt =====
-- Settings that were saved are the ones that are read back.
use dark_stream.Common.{
  ◌≡◌, ◌∷◌, true, str_eq, some, refl, none, map, ltb, inr, inl, if◌then◌else◌, filter, false,
  eq_refl, count, arith, [], String, List, Bool-cases, ◌++◌,
}
use dark_stream.Models.{WorkerSettings}
use dark_stream.Server.{
  worker_settings, get, post, Credentials, Response, authenticate_request, require_auth,
}
use dark_stream.Server.Settings.{
  are_valid, named, handle_worker_settings, get_worker_settings, save_worker_settings,
  answer_settings, answer_saved,
}
use dark_stream.Tracker.{Store, ok, statement, fails}
use dark_stream.Tracker.Settings.{
  get_worker_config, save_worker_config, settings_of, upsert_settings,
}
use dark_stream.Tracker.Outcomes.{called}

abbrev pub shown : WorkerSettings → Response
shown c = record { code = 200; body = worker_settings c; effects = [] }

module _ (c : WorkerSettings) where
  own : settings_of c.worker_id c ≡ true
  own = eq_refl c.worker_id

  -- After an update of the rows of a worker the first of them is the new one.
  first_updated :
      (cs : List WorkerSettings)
      → ltb 0 (count (settings_of c.worker_id) cs) ≡ true
      → (rest : List WorkerSettings) × (filter
            (settings_of c.worker_id)
            (map (λ d. if settings_of c.worker_id d then c else d) cs)
          ≡ c ∷ rest)
  first_updated [] h = absurd (ground arith)
  first_updated (d ∷ cs) h = elim (Bool-cases (settings_of c.worker_id d)) [
    | inl e ↦ (
      filter (settings_of c.worker_id) (map (λ x. if settings_of c.worker_id x then c else x) cs),
      rw (e, own) refl,
    )
    | inr e ↦
        let k : ltb 0 (count (settings_of c.worker_id) cs) ≡ true = rw e at h in
        let r = first_updated cs k in (r.0, rw (e, e) r.1)
  ]

  first_inserted :
      (cs : List WorkerSettings)
      → ltb 0 (count (settings_of c.worker_id) cs) ≡ false
      → filter (settings_of c.worker_id) (cs ++ c ∷ []) ≡ c ∷ []
  first_inserted [] h = rw own refl
  first_inserted (d ∷ cs) h = elim (Bool-cases (settings_of c.worker_id d)) [
    | inl e ↦ absurd (ground arith)
    | inr e ↦
        let k : ltb 0 (count (settings_of c.worker_id) cs) ≡ false = rw e at h in
        rw e (first_inserted cs k)
  ]

  first_upserted :
      (s : Store)
      → (rest : List WorkerSettings) × (filter
            (settings_of c.worker_id)
            (upsert_settings c s).settings
          ≡ c ∷ rest)
  first_upserted s = elim (Bool-cases (ltb 0 (count (settings_of c.worker_id) s.settings))) [
    | inl e ↦ rw e (first_updated s.settings e)
    | inr e ↦ rw e ([], first_inserted s.settings e)
  ]

  get_shows :
      (global : WorkerSettings) (s : Store) (rest : List WorkerSettings)
      → s.faults ≡ []
      → filter (settings_of c.worker_id) s.settings ≡ c ∷ rest
      → (get_worker_settings global c.worker_id s).0 ≡ ok (shown c)
  unfolding get_worker_settings get_worker_config statement answer_settings
  get_shows global s rest quiet e = let q : fails s.faults ≡ false = rw quiet refl in rw (q, e) refl

still_quiet :
    (c : WorkerSettings) (s : Store) → s.faults ≡ [] → (upsert_settings c (called s)).faults ≡ []
still_quiet c s quiet = elim (Bool-cases (ltb 0 (count (settings_of c.worker_id) s.settings))) [
  | inl e ↦ rw (e, quiet) refl
  | inr e ↦ rw (e, quiet) refl
]

-- With a database that serves every call, valid settings that an authenticated administrator posts for a worker with a name are
-- answered, and then shown to everyone who asks for them with the key, in the worker's name.
pub settings_saved :
    (api_key : String) (poster reader : Credentials) (global c : WorkerSettings) (worker : String)
    (s : Store)
    → s.faults ≡ []
    → str_eq worker "" ≡ false
    → authenticate_request api_key poster ≡ true
    → authenticate_request api_key reader ≡ true
    → are_valid c ≡ true
    → ((handle_worker_settings api_key poster post global worker (some c) s).0
        ≡ ok (shown (named worker c)))
      × ((handle_worker_settings api_key reader get global worker none
            (handle_worker_settings api_key poster post global worker (some c) s).1).0
          ≡ ok (shown (named worker c)))
unfolding handle_worker_settings require_auth save_worker_settings save_worker_config statement
    answer_saved
settings_saved api_key poster reader global c worker s quiet given may_post may_read valid =
    let q : fails s.faults ≡ false = rw quiet refl in
    let m = first_upserted (named worker c) (called s) in
    rw (given, may_post, may_read, valid, q)
      (
        refl,
        get_shows (named worker c) global (upsert_settings (named worker c) (called s)) m.0
            (still_quiet (named worker c) s quiet) m.1,
      )
