-- ===== src/Scenarios/Consistent.antt =====
-- The sample stores satisfy the invariant.
use dark_stream.Common.{refl}
use dark_stream.Lifecycle.{Inv, IsConsistent}
use dark_stream.Tracker.Rows.{find_job}
use dark_stream.Scenarios.Samples.{closed, ended, mixed, running, broken, low}

low-IsConsistent : IsConsistent low
low-IsConsistent = record {
  pending_unassigned = λ e. (refl, refl);
  pending_clear = λ e. (refl, refl);
  running_started = λ e. cc;
  running_open = λ e. cc;
  finished_dated = λ e. cc;
  completed_started = λ e. cc;
  failed_started = λ e. cc;
}

running-IsConsistent : IsConsistent running
running-IsConsistent = record {
  pending_unassigned = λ e. cc;
  pending_clear = λ e. cc;
  running_started = λ e f. cc;
  running_open = λ e. (refl, refl);
  finished_dated = λ e. cc;
  completed_started = λ e. cc;
  failed_started = λ e. cc;
}

broken-IsConsistent : IsConsistent broken
broken-IsConsistent = record {
  pending_unassigned = λ e. cc;
  pending_clear = λ e. cc;
  running_started = λ e. cc;
  running_open = λ e. cc;
  finished_dated = λ e f. cc;
  completed_started = λ e. cc;
  failed_started = λ e f. cc;
}

pub mixed-Inv : Inv mixed
unfolding find_job
mixed-Inv = record {
  keyed = (refl, (refl, (refl, tt)));
  consistent = (running-IsConsistent, (broken-IsConsistent, (low-IsConsistent, tt)));
}

ended-IsConsistent : IsConsistent ended
ended-IsConsistent = record {
  pending_unassigned = λ e. cc;
  pending_clear = λ e. cc;
  running_started = λ e. cc;
  running_open = λ e. cc;
  finished_dated = λ e f. cc;
  completed_started = λ e f. cc;
  failed_started = λ e. cc;
}

pub closed-Inv : Inv closed
unfolding find_job
closed-Inv = record {
  keyed = (refl, (refl, tt));
  consistent = (ended-IsConsistent, (low-IsConsistent, tt));
}
