-- ===== src/Server/Lawful/Submit.antt =====
-- A submitted job is a new one in the queue.
use dark_stream.Common.{List, ℕ, Option, none, some, str_eq, refl}
use dark_stream.Models.{Job}
use dark_stream.Tracker.{Result, ok, err, job_already_exists}
use dark_stream.Tracker.Jobs.{create_job}
use dark_stream.Tracker.Respects.{pure-Respects, try_bind-Respects}
use dark_stream.Lifecycle.{Powers, Edge}
use dark_stream.Lifecycle.Lawful.{edges, Lawful}
use dark_stream.Lifecycle.Population.{create_job-Lawful}
use dark_stream.Server.Submit.{
  Paths, SubmitRequest, submitted_job, answer_created, submit_to, submit_validated, submit_job,
  job_for, allowed, output_of,
}
use dark_stream.Server.Lawful.{refuse-Respects, when-Respects, unless-Respects}

answer_created-Lawful :
    {powers : Powers}
    → (j : Job) (r : Result (Unit {0})) → Lawful (Edge powers) (answer_created j r)
unfolding answer_created
answer_created-Lawful j (err job_already_exists) = refuse-Respects edges 409
answer_created-Lawful j (err _) = refuse-Respects edges 500
answer_created-Lawful j (ok u) = pure-Respects edges _

submit_to-Lawful :
    {powers : Powers}
    → (paths : Paths) (req : SubmitRequest) (now : ℕ) (source : List ℕ) (output : Option (List ℕ))
    → Lawful (Edge powers) (submit_to paths req now source output)
unfolding submit_to submitted_job
submit_to-Lawful paths req now source none = refuse-Respects edges 403
submit_to-Lawful paths req now source (some output) =
    let j = job_for paths req now source output in
    try_bind-Respects edges (create_job j) (answer_created j) (create_job-Lawful j refl)
      (answer_created-Lawful j)

submit_validated-Lawful :
    {powers : Powers}
    → (paths : Paths) (req : SubmitRequest) (now : ℕ) (source : Option (List ℕ))
    → Lawful (Edge powers) (submit_validated paths req now source)
unfolding submit_validated
submit_validated-Lawful paths req now none = refuse-Respects edges 403
submit_validated-Lawful paths req now (some source) =
    when-Respects edges (paths.exists source) _ 404
      (submit_to-Lawful paths req now source (output_of paths source req.output_path))

pub submit_job-Lawful :
    {powers : Powers}
    → (paths : Paths) (req : Option SubmitRequest) (now : ℕ)
    → Lawful (Edge powers) (submit_job paths req now)
unfolding submit_job
submit_job-Lawful paths none now = refuse-Respects edges 400
submit_job-Lawful paths (some req) now =
    unless-Respects edges (str_eq req.source_path "") 400 _
      (submit_validated-Lawful paths req now (allowed paths req.source_path))
