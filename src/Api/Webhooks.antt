-- ===== src/Api/Webhooks.antt =====
-- backend/app/api/webhooks.py
use ci_system.Prelude.{
  Bool, false, not, Text, codes, text_eq, Option, none, some, [], ◌∷◌, if◌then◌else◌,
}
use ci_system.Prelude.Int.{pos}
use ci_system.Models.{Project}
use ci_system.Runtime.{Runtime, get}
use ci_system.World.{World}
use ci_system.JobManager.{create_and_enqueue_job}
use ci_system.DelayedEntry.{split_last}
use ci_system.Api.Reply.{Reply, no_content, error}
use ci_system.Api.Jobs.{answer_job}

-- The parts of the JSON payload that the handler reads; `head_commit_id` is the `id` of
-- `head_commit`, and `ref` is `""` where it is missing.
pub record Push : Type 0 where
  pub event : Text
  pub after : Option Text
  pub head_commit_id : Option Text
  pub ref : Text

unfoldable pub verify : Project → Option Text → Bool
verify project none = false
verify project (some []) = false
verify project (some (c ∷ cs)) = text_eq (c ∷ cs) project.webhook_token

-- `after or head_commit_id`, with an empty text for none
abbrev pub or_head : Option Text → Option Text → Text
or_head none none = []
or_head none (some head) = head
or_head (some []) none = []
or_head (some []) (some head) = head
or_head (some (c ∷ cs)) head = c ∷ cs

-- `ref.rsplit("/", 1)[-1] if ref else project.default_branch`
unfoldable pub branch_of : Text → Text → Text
branch_of [] default_branch = default_branch
branch_of (c ∷ cs) default_branch = elim (split_last b'/' (c ∷ cs)) [
  | none ↦ c ∷ cs
  | some (before, after) ↦ after
]

module _ ⦃rt : Runtime⦄ where
  -- A verified push; an ignored event answers with no job.
  unfoldable pub push_job : Text → Project → Push → World → Reply Text × World
  unfolding branch_of
  push_job project_id project push w =
      let commit_sha = or_head push.after push.head_commit_id in
      if not (text_eq push.event (codes "push"))
      then (no_content, w)
      else if text_eq commit_sha []
      then (error 400, w)
      else answer_job (
          create_and_enqueue_job project_id project commit_sha
            (some (branch_of push.ref project.default_branch)) (codes "webhook") (pos 0) w)

  unfoldable pub github_webhook : Text → Option Text → Push → World → Reply Text × World
  unfolding push_job verify
  github_webhook project_id token push w = elim (get w.projects project_id) [
    | none ↦ (error 404, w)
    | some project ↦
        if not (verify project token) then (error 401, w) else push_job project_id project push w
  ]
