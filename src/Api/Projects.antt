-- ===== src/Api/Projects.antt =====
-- backend/app/api/projects.py
use ci_system.Prelude.{Text, none, some}
use ci_system.Models.{Project}
use ci_system.Runtime.{Runtime, get, put, parse_pipeline}
use ci_system.World.{World, new_id}
use ci_system.Api.Reply.{Reply, ok, error}

-- `schemas.ProjectCreate`, its default applied.
pub record ProjectCreate : Type 0 where
  pub name : Text
  pub repo_url : Text
  pub default_branch : Text
  pub pipeline_yaml : Text

module _ ⦃rt : Runtime⦄ where
  unfoldable pub create_project : ProjectCreate → World → Reply Text × World
  create_project payload w = elim (parse_pipeline payload.pipeline_yaml) [
    | none ↦ (error 422, w)
    | some pipeline ↦
        let (project_id, w₁) = new_id w in
        let (webhook_token, w₂) = new_id w₁ in
        let project : Project = record {
          name = payload.name;
          repo_url = payload.repo_url;
          default_branch = payload.default_branch;
          pipeline_yaml = payload.pipeline_yaml;
          webhook_token = webhook_token;
        } in
        (ok project_id, record w₂ { projects = put w₂.projects project_id project })
  ]

  unfoldable pub get_project : Text → World → Reply Project
  get_project project_id w = elim (get w.projects project_id) [
    | none ↦ error 404
    | some project ↦ ok project
  ]

  unfoldable pub update_pipeline : Text → Text → World → Reply (Unit {0}) × World
  update_pipeline project_id pipeline_yaml w = elim (get w.projects project_id) [
    | none ↦ (error 404, w)
    | some project ↦ elim (parse_pipeline pipeline_yaml) [
      | none ↦ (error 422, w)
      | some pipeline ↦
          let project' = record project { pipeline_yaml = pipeline_yaml } in
          (ok tt, record w { projects = put w.projects project_id project' })
    ]
  ]
