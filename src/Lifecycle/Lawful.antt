-- ===== src/Lifecycle/Lawful.antt =====
-- Methods that keep the invariant and move each job along the edges of a state machine, and the
-- rules by which such methods are put together.
use dark_stream.Common.{◌≡◌, String}
use dark_stream.Tracker.{Error, Store, M, ◌>>=◌, pure, fail, statement}
use dark_stream.Tracker.Respects.{
  IsFrame, Respects, pure-Respects, fail-Respects, >>=-Respects, statement-Respects,
}
use dark_stream.Lifecycle.{Edge, Powers, Phase, phase_in, Reach, here, Reach-trans, Inv}

-- From one store to another.
pub record Moves (E : Phase → Phase → Type 0) (s t : Store) : Type 0 where
  pub inv : Inv t
  pub reach : (id : String) → Reach E (phase_in s id) (phase_in t id)

-- A change of the columns that are not jobs is no move.
pub Moves-same : (E : Phase → Phase → Type 0) (s t : Store) → Inv s → t.jobs ≡ s.jobs → Moves E s t
Moves-same E s t v e = record {
  inv = record { keyed = rw e v.keyed; consistent = rw e v.consistent };
  reach = λ id. rw e here;
}

pub Moves-trans :
    (E : Phase → Phase → Type 0) (s t u : Store) → Moves E s t → Moves E t u → Moves E s u
Moves-trans E s t u a b = record {
  inv = b.inv;
  reach = λ id. Reach-trans (a.reach id) (b.reach id);
}

-- A store that satisfies the invariant moves along the edges.
abbrev pub Evolves : (Phase → Phase → Type 0) → Store → Store → Type 0
Evolves E s t = Inv s → Moves E s t

pub Evolves-frame : (E : Phase → Phase → Type 0) → IsFrame (Evolves E)
Evolves-frame E = record {
  same = λ s t e _ v. Moves-same E s t v e;
  trans = λ s t u f g v. let a = f v in Moves-trans E s t u a (g a.inv);
}

abbrev pub Lawful : (Phase → Phase → Type 0) → {A : Type 0} → M A → Type 0
Lawful E m = Respects (Evolves E) m

pub pure-Lawful : (E : Phase → Phase → Type 0) {A : Type 0} (a : A) → Lawful E (pure a)
pure-Lawful E a = pure-Respects (Evolves-frame E) a

pub fail-Lawful : (E : Phase → Phase → Type 0) (A : Type 0) (e : Error) → Lawful E (fail {A = A} e)
fail-Lawful E A e = fail-Respects (Evolves-frame E) A e

pub >>=-Lawful :
    (E : Phase → Phase → Type 0) {A B : Type 0} (f : A → M B)
    → ((a : A) → Lawful E (f a))
    → (m : M A) → Lawful E m
    → Lawful E (m >>= f)
>>=-Lawful E f after m first = >>=-Respects (Evolves-frame E) m f first after

pub statement-Lawful :
    (E : Phase → Phase → Type 0) {A : Type 0} (f : Store → A × Store)
    → ((s : Store) → Inv s → Moves E s (f s).1)
    → Lawful E (statement f)
statement-Lawful E f h = statement-Respects (Evolves-frame E) f h

-- The program's own moves.
pub edges : {powers : Powers} → IsFrame (Evolves (Edge powers))
edges = Evolves-frame (Edge _)
