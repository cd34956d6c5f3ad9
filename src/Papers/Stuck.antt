-- ===== src/Papers/Stuck.antt =====
-- A paper of backend/papers/__init__.py that no retry brings further.
use ai_powered_research_work.Prelude.{ℕ, ◌≡◌, ap, ◌∙◌, true, false, All, ◌==◌, ==_iff}
use ai_powered_research_work.Papers.Pipeline.{PaperRow, Library, is_done}
use ai_powered_research_work.Papers.Jobs.{is_in}
use ai_powered_research_work.Papers.Steps.{Reach, empty}
use ai_powered_research_work.Papers.Staged.{Extra, is_in-append}
use ai_powered_research_work.Papers.Staged.Always.{Reach-Kept, Reach-IsStaged}

abbrev pub Undone : ℕ → ℕ × PaperRow → Type 0
Undone id (j, row) = (j == id) ≡ true → is_done row.parse_state ≡ false

-- The text of the paper is in the table, but its parse is not done.
pub record IsStuck (id : ℕ) (s : Library) : Type 0 where
  pub there : is_in id s.content ≡ true
  pub undone : All (Undone id) s.papers

stuck : ℕ → Extra
stuck id = record {
  Row = Undone id;
  Texts = λ content. is_in id content ≡ true;
  unparsed = λ j row e same. e;
  same_parse = λ j row changed e r same. ap is_done e ∙ r same;
  just_parsed = λ j content row there absent same.
      cc (ap (λ k. is_in k content) ((==_iff j id).0 same), absent, there);
  more_texts = λ content entry. is_in-append id content entry;
}

-- In a library that steps can reach: once the text of a paper is in the table while its parse is
-- not done, it stays so, whatever requests come, retries included, and whatever jobs run: the parse
-- is never done.
pub Reach-IsStuck :
    (id : ℕ) {s t : Library} → Reach empty s → IsStuck id s → Reach s t → IsStuck id t
unfolding stuck
Reach-IsStuck id before h r =
    let staged = Reach-IsStaged before in
    let after = Reach-Kept (stuck id) r (record {
      rows = staged.rows;
      queued_jobs = staged.queued_jobs;
      active_jobs = staged.active_jobs;
      others = h.undone;
      texts = h.there;
      distinct = staged.distinct;
    }) in
    record { there = after.texts; undone = after.others }
