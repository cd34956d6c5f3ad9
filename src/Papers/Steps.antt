-- ===== src/Papers/Steps.antt =====
-- What can happen to the papers of backend/papers/__init__.py: requests, and jobs that workers take
-- from the queue in any order, finish in any order, or lose to a crash or a time limit.
use ai_powered_research_work.Prelude.{ℕ, ◌≡◌, some, List, [], ◌∷◌, ◌++◌, Text}
use ai_powered_research_work.Papers.CanonicalId.{SourceIds}
use ai_powered_research_work.Papers.Pipeline.{Job, Library, add_paper, reprocess_paper, get_paper}
use ai_powered_research_work.Papers.Jobs.{JobEnv, begin, finish, with_queue, with_active}

pub data Step (s : Library) : Library → Type 0 where
  added :
      (ids : SourceIds) (title : Text) (new_id : ℕ) {made : ℕ × Library}
      → add_paper ids title new_id s ≡ some made
      → Step s made.1
  retried : (id : ℕ) → Step s (reprocess_paper id s)
  opened : (id : ℕ) → Step s (get_paper id s)
  began :
      (before : List Job) (job : Job) (later : List Job)
      → s.queue ≡ before ++ (job ∷ later)
      → Step s (begin job (with_queue (before ++ later) s))
  finished :
      (before : List Job) (job : Job) (later : List Job) (env : JobEnv)
      → s.active ≡ before ++ (job ∷ later)
      → Step s (finish job env (with_active (before ++ later) s))
  lost :
      (before : List Job) (job : Job) (later : List Job)
      → s.active ≡ before ++ (job ∷ later)
      → Step s (with_active (before ++ later) s)

pub data Reach (s : Library) : Library → Type 0 where
  here : Reach s s
  next : {t u : Library} → Reach s t → Step t u → Reach s u

abbrev pub empty : Library
empty = record { papers = []; content = []; cards = []; queue = []; active = [] }
