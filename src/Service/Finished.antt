-- ===== src/Service/Finished.antt =====
-- What is finished stays finished.
use dark_stream.Lifecycle.{
  Phase, done, dropped, submit, claim, complete, break, drop_queued, drop_running, give_back,
  try_again, reopen_done, reopen_dropped, prune_done, prune_broken, prune_dropped, here, next,
  phase_in, Reach, Edge, Inv, Powers,
}
use dark_stream.Common.{
  ◌⊎◌, ◌≡◌, ◌∷◌, ◌∙◌, sym, subst, refl, false, arith, [], String, List, Bool, All,
}
use dark_stream.Service.{
  Config, Service, Event, Request, IsScan, run, step, request, requeue_one, prune_jobs,
}
use dark_stream.Service.Traces.{step-Moves, powers_of}

-- A request that neither brings finished jobs back nor deletes them.
abbrev pub IsLenient : Request → Type 0
IsLenient (requeue_one m id) = ⊥
IsLenient (prune_jobs m status) = ⊥
IsLenient _ = Unit

abbrev pub LeavesFinished : Event → Type 0
LeavesFinished (request ip c now req) = IsLenient req
LeavesFinished _ = Unit

-- Completed or cancelled.
abbrev pub IsOver : Phase → Type 0
IsOver p = (p ≡ done) ⊎ (p ≡ dropped)

module _ {powers : Powers} (no_reopening : powers.reopens ≡ false)
    (no_pruning : powers.prunes ≡ false) where
  no_way_out : {p q : Phase} → Edge powers p q → IsOver p → ⊥
  no_way_out submit h = ground arith
  no_way_out (claim w t e) h = ground arith
  no_way_out complete h = ground arith
  no_way_out break h = ground arith
  no_way_out drop_queued h = ground arith
  no_way_out drop_running h = ground arith
  no_way_out give_back h = ground arith
  no_way_out try_again h = ground arith
  no_way_out (reopen_done e) h = cc
  no_way_out (reopen_dropped e) h = cc
  no_way_out (prune_done e) h = cc
  no_way_out (prune_broken e) h = cc
  no_way_out (prune_dropped e) h = cc

  stays_over : {p q : Phase} → Reach (Edge powers) p q → IsOver p → q ≡ p
  stays_over here h = refl
  stays_over {p} (next {q} r e) h =
      let same : q ≡ p = stays_over r h in absurd (no_way_out e (subst IsOver (sym same) h))

lenient :
    (paused : Bool) (e : Event)
    → LeavesFinished e
    → ((powers_of paused e).reopens ≡ false) × ((powers_of paused e).prunes ≡ false)
lenient paused (request ip c now (requeue_one m id)) h = absurd h
lenient paused (request ip c now (prune_jobs m status)) h = absurd h
lenient paused (request ip c now _) h = (refl, refl)
lenient paused _ h = (refl, refl)

-- From a store that satisfies the invariant, take any sequence of requests, except those to requeue a job and to prune
-- jobs, of ticks of the monitors and scans that find pending jobs, with any faults of the database. A job that was
-- completed or cancelled before it is so afterwards.
pub finished_stays :
    (cfg : Config) (es : List Event) (s : Service) (id : String)
    → All IsScan es
    → All LeavesFinished es
    → Inv s.store
    → IsOver (phase_in s.store id)
    → phase_in (run cfg es s).store id ≡ phase_in s.store id
unfolding run
finished_stays cfg [] s id h n v over = refl
finished_stays cfg (e ∷ es) s id h n v over =
    let m = step-Moves cfg e s h.0 v in
    let k = lenient s.queue_paused e n.0 in
    let same : phase_in (step cfg e s).store id ≡ phase_in s.store id =
      stays_over k.0 k.1 (m.reach id) over in
    finished_stays cfg es (step cfg e s) id h.1 n.1 m.inv (subst IsOver (sym same) over) ∙ same
