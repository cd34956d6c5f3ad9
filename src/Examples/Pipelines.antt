-- ===== src/Examples/Pipelines.antt =====
-- A paper that is retried while its fetch waits, so that it is fetched and parsed twice.
use ai_powered_research_work.Prelude.{ℕ, ◌≡◌, refl, true, Option, none, some, List, [], ◌∷◌, codes}
use ai_powered_research_work.Provenance.Normalize.{is_space}
use ai_powered_research_work.Prelude.Assoc.{lookup}
use ai_powered_research_work.Papers.CanonicalId.{SourceIds, resolve_canonical_id}
use ai_powered_research_work.Papers.Pipeline.{
  queued, done, PaperRow, fetch, parse, extract, embed, trace, Job, Library, add_paper,
  reprocess_paper,
}
use ai_powered_research_work.Papers.Jobs.{fetched, JobEnv, begin, finish, with_queue, with_active}
use ai_powered_research_work.Papers.Steps.{
  added, retried, began, finished, Reach, here, next, empty,
}
use ai_powered_research_work.Papers.Staged.{plain, IsStaged}
use ai_powered_research_work.Papers.Staged.Always.{Reach-IsStaged}
use ai_powered_research_work.Papers.Recovers.Ends.{Ends, Reach-Ends}
use ai_powered_research_work.Papers.Stuck.{IsStuck, Reach-IsStuck}

abbrev ids : SourceIds
ids = record { doi = some (codes "a"); arxiv_id = none; openalex_id = none; s2_id = none }

abbrev job_of_added : Option (ℕ × Library) → ℕ × Library
job_of_added none = (0, empty)
job_of_added (some made) = made

abbrev made : ℕ × Library
made = job_of_added (add_paper ids [] 0 empty)

abbrev fetch_job : Job
fetch_job = record { kind = fetch; paper_id = 0 }

abbrev parse_job : Job
parse_job = record { kind = parse; paper_id = 0 }

abbrev after_parse : List Job
after_parse =
    record { kind = extract; paper_id = 0 }
    ∷ record { kind = embed; paper_id = 0 }
    ∷ record { kind = trace; paper_id = 0 }
    ∷ []

abbrev env : JobEnv
env = record {
  fetch_end = fetched (codes "p");
  parsed = some (codes "t");
  embedded = true;
  card = some [];
  edges_written = true;
  references = some [];
}

abbrev fetched_once : Library
fetched_once =
    finish fetch_job env
      (with_active [] (begin fetch_job (with_queue (fetch_job ∷ []) (reprocess_paper 0 made.1))))

abbrev fetched_twice : Library
fetched_twice =
    finish fetch_job env
      (with_active [] (begin fetch_job (with_queue (parse_job ∷ []) fetched_once)))

abbrev parsed_once : Library
parsed_once =
    finish parse_job env
      (with_active [] (begin parse_job (with_queue (parse_job ∷ []) fetched_twice)))

abbrev stuck : Library
stuck = begin parse_job (with_queue after_parse parsed_once)

parsed_reached : Reach empty parsed_once
unfolding add_paper reprocess_paper begin finish resolve_canonical_id lookup
parsed_reached =
    next
      (next
        (next
          (next
            (next
              (next (next (next here (added ids [] 0 {made = made} refl)) (retried 0))
                (began [] fetch_job (fetch_job ∷ []) refl))
              (finished [] fetch_job [] env refl))
            (began [] fetch_job (parse_job ∷ []) refl))
          (finished [] fetch_job [] env refl))
        (began [] parse_job (parse_job ∷ []) refl))
      (finished [] parse_job [] env refl)

stuck_reached : Reach empty stuck
unfolding add_paper reprocess_paper begin finish resolve_canonical_id lookup
stuck_reached = next parsed_reached (began [] parse_job after_parse refl)

stuck-IsStuck : IsStuck 0 stuck
unfolding add_paper reprocess_paper begin finish resolve_canonical_id lookup
stuck-IsStuck = record { there = refl; undone = ((λ _. refl), tt) }

Reach-IsStaged_example : IsStaged plain stuck
Reach-IsStaged_example = Reach-IsStaged stuck_reached

-- A retry of that paper.
Reach-IsStuck_example : IsStuck 0 (reprocess_paper 0 stuck)
Reach-IsStuck_example = Reach-IsStuck 0 stuck_reached stuck-IsStuck (next here (retried 0))

-- The paper after its parse, whose other stages wait.
abbrev row_parsed : PaperRow
row_parsed = record {
  canonical_id = codes "doi:a";
  title = codes "doi:a";
  pdf_path = some (codes "p");
  fetch_state = done;
  parse_state = done;
  embed_state = queued;
  extract_state = queued;
  references_state = queued;
}

row_found : lookup 0 parsed_once.papers ≡ some row_parsed
unfolding add_paper reprocess_paper begin finish resolve_canonical_id lookup is_space
row_found = refl

-- The paper after its parse is brought to its end.
Reach-Ends_example : Ends 0 parsed_once
Reach-Ends_example = Reach-Ends 0 parsed_once row_parsed parsed_reached row_found (λ e. refl)
