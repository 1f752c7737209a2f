-- ===== src/Server/Lawful.antt =====
-- The handlers keep the invariant and move jobs along the edges of a job's life only.
pub mod Assign
pub mod Reports
pub mod Operator
pub mod Cancel
pub mod Submit
pub mod Uploads
pub mod Settings
use dark_stream.Common.{ℕ, Bool, true, false, String, List, if◌then◌else◌}
use dark_stream.Models.{Job}
use dark_stream.Metrics.{Effect, refresh_queue_depth}
use dark_stream.Tracker.{Store, Result, M, pure, ◌>>=◌, try}
use dark_stream.Tracker.Lookup.{get_job_by_id}
use dark_stream.Tracker.Respects.{
  IsFrame, Respects, pure-Respects, >>=-Respects, try_bind-Respects, if-Respects,
}
use dark_stream.Coordinator.Frames.{get_job_by_id-Respects, refresh_queue_depth-Respects}
use dark_stream.Server.{
  Method, method_eq, Body, Response, refuse, answer, only, Credentials, authenticate_request,
  require_auth,
}

module _ {R : Store → Store → Type 0} (frame : IsFrame R) where
  pub refuse-Respects : (n : ℕ) → Respects R (refuse n)
  refuse-Respects n = pure-Respects frame _

  pub answer-Respects : (b : Body) (effects : List Effect) → Respects R (answer b effects)
  answer-Respects b effects = pure-Respects frame _

  pub only-Respects :
      (expected actual : Method) (handler : M Response)
      → Respects R handler
      → Respects R (only expected actual handler)
  only-Respects expected actual handler h =
      if-Respects frame (method_eq actual expected) handler (refuse 405) h (refuse-Respects 405)

  -- A guard that refuses.
  pub when-Respects :
      (b : Bool) (handler : M Response) (n : ℕ)
      → Respects R handler
      → Respects R (if b then handler else refuse n)
  when-Respects b handler n h = if-Respects frame b handler (refuse n) h (refuse-Respects n)

  pub unless-Respects :
      (b : Bool) (n : ℕ) (handler : M Response)
      → Respects R handler
      → Respects R (if b then refuse n else handler)
  unless-Respects b n handler h = if-Respects frame b (refuse n) handler (refuse-Respects n) h

  pub require_auth-Respects :
      (api_key : String) (c : Credentials) (handler : M Response)
      → Respects R handler
      → Respects R (require_auth api_key c handler)
  unfolding require_auth
  require_auth-Respects api_key c handler h =
      when-Respects (authenticate_request api_key c) handler 401 h

  -- Fetching a job, and going on from what was fetched.
  pub fetch-Respects :
      (id : String) (f : Result Job → M Response)
      → ((r : Result Job) → Respects R (f r))
      → Respects R (try (get_job_by_id id) >>= f)
  fetch-Respects id f h =
      try_bind-Respects frame (get_job_by_id id) f (get_job_by_id-Respects frame id) h

  pub with_depth-Respects :
      (f : List Effect → M Response)
      → ((depth : List Effect) → Respects R (f depth))
      → Respects R (refresh_queue_depth >>= f)
  with_depth-Respects f h =
      >>=-Respects frame refresh_queue_depth f (refresh_queue_depth-Respects frame) h
