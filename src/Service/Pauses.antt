-- ===== src/Service/Pauses.antt =====
-- What the pause of the queue stops.
use dark_stream.Common.{
  Bool, ℕ, true, false, Option, String, List, [], ◌∷◌, ◌≡◌, refl, All, Bool-cases, inl, inr,
}
use dark_stream.Lifecycle.{
  Powers, Phase, running, Edge, Reach, here, next, Inv, phase_in, submit, claim, complete, break,
  give_back, try_again, reopen_done, reopen_dropped, drop_queued, drop_running, prune_done,
  prune_broken, prune_dropped,
}
use dark_stream.Server.{post, Credentials, authenticate_request}
use dark_stream.Server.Limiter.{allow, request_limit, request_rate}
use dark_stream.Service.{
  Config, Service, Event, Request, IsScan, run, step, serve, serve_admitted, paused_after, switched,
  request, resume_queue, pause_queue,
}
use dark_stream.Service.Traces.{powers_of, step-Moves}

module _ {powers : Powers} (paused : powers.claims ≡ false) where
  not_started : {p q : Phase} {w : String} {t : Option ℕ} → Edge powers p q → q ≡ running w t → ⊥
  not_started (claim w t e) h = cc
  not_started submit h = cc
  not_started complete h = cc
  not_started break h = cc
  not_started drop_queued h = cc
  not_started drop_running h = cc
  not_started give_back h = cc
  not_started try_again h = cc
  not_started (reopen_done e) h = cc
  not_started (reopen_dropped e) h = cc
  not_started (prune_done e) h = cc
  not_started (prune_broken e) h = cc
  not_started (prune_dropped e) h = cc

  -- Nothing but a claim gives a job a new holder.
  was_running :
      {p q : Phase} {w : String} {t : Option ℕ}
      → Reach (Edge powers) p q
      → q ≡ running w t
      → p ≡ running w t
  was_running here h = h
  was_running (next r e) h = absurd (not_started e h)

no_claims : (paused : Bool) (e : Event) → paused ≡ true → (powers_of paused e).claims ≡ false
no_claims paused (request ip c now req) p = rw p refl
no_claims paused _ p = rw p refl

-- A request other than one to resume the queue.
abbrev pub IsNoResume : Request → Type 0
IsNoResume (resume_queue post) = ⊥
IsNoResume _ = Unit

abbrev pub KeepsPause : Event → Type 0
KeepsPause (request ip c now req) = IsNoResume req
KeepsPause _ = Unit

switched_stays : (req : Request) → IsNoResume req → switched req true ≡ true
switched_stays (resume_queue post) n = absurd n
switched_stays (resume_queue _) n = refl
switched_stays (pause_queue post) n = refl
switched_stays (pause_queue _) n = refl
switched_stays _ n = refl

serve_stays_paused :
    (cfg : Config) (ip : String) (c : Credentials) (now : ℕ) (req : Request) (s : Service)
    → IsNoResume req
    → s.queue_paused ≡ true
    → (serve cfg ip c now req s).1.queue_paused ≡ true
unfolding serve serve_admitted paused_after
serve_stays_paused cfg ip c now req s n p =
    elim (Bool-cases (allow ip request_limit request_rate now s.buckets).0) [
      | inr e ↦ rw e p
      | inl e ↦
          rw (e, p)
            (elim (Bool-cases (authenticate_request cfg.api_key c)) [
              | inl a ↦ rw a (switched_stays req n)
              | inr a ↦ rw a refl
            ])
    ]

stays_paused :
    (cfg : Config) (e : Event) (s : Service)
    → KeepsPause e
    → s.queue_paused ≡ true
    → (step cfg e s).queue_paused ≡ true
unfolding step
stays_paused cfg (request ip c now req) s n p = serve_stays_paused cfg ip c now req s n p
stays_paused cfg _ s n p = p

-- From a paused queue and a store that satisfies the invariant, take any sequence of requests but one to resume the
-- queue, of ticks of the monitors and scans that find pending jobs, with any faults of the database. Whatever job a
-- worker holds at its end, the same worker held it from the same time on before it: no job is handed out.
pub pause_queue_holds :
    (cfg : Config) (es : List Event) (s : Service) (id worker : String) (start : Option ℕ)
    → All IsScan es
    → All KeepsPause es
    → s.queue_paused ≡ true
    → Inv s.store
    → phase_in (run cfg es s).store id ≡ running worker start
    → phase_in s.store id ≡ running worker start
unfolding run
pause_queue_holds cfg [] s id worker start h n p v held = held
pause_queue_holds cfg (e ∷ es) s id worker start h n p v held =
    let m = step-Moves cfg e s h.0 v in
    was_running (no_claims s.queue_paused e p) (m.reach id) (
      pause_queue_holds cfg es (step cfg e s) id worker start h.1 n.1 (stays_paused cfg e s n.0 p)
        m.inv held)
