-- ===== src/Config.antt =====
-- backend/app/config.py: the settings that the modelled code reads.
use ci_system.Prelude.{ℕ, ◌*◌, ◌^◌, Text, codes, []}

-- A tick is 2^-22 s, the spacing of the doubles that `time.time()` returns from 2004 to 2038.
abbrev pub second : ℕ
second = 2 ^ 22

-- A setting may be overridden by the environment, so the model is over any record of settings.
-- The two backoff settings are floats and are held in ticks; the others are in their own units.
pub record Settings : Type 0 where
  pub job_lease_seconds : ℕ
  pub worker_dead_after_seconds : ℕ
  pub max_job_attempts : ℕ
  pub retry_backoff_base_seconds : ℕ
  pub retry_backoff_max_seconds : ℕ
  pub git_clone_depth : ℕ
  pub ai_provider : Text
  pub ai_model : Text
  pub ai_api_key : Text
  pub ai_max_log_chars : ℕ
  pub ai_max_source_files : ℕ
  pub ai_max_file_chars : ℕ

-- The defaults of `class Settings`.
abbrev pub default_settings : Settings
default_settings = record {
  job_lease_seconds = 60;
  worker_dead_after_seconds = 30;
  max_job_attempts = 4;
  retry_backoff_base_seconds = 2 * second;
  retry_backoff_max_seconds = 120 * second;
  git_clone_depth = 50;
  ai_provider = codes "mock";
  ai_model = codes "claude-sonnet-4-6";
  ai_api_key = [];
  ai_max_log_chars = 12000;
  ai_max_source_files = 6;
  ai_max_file_chars = 4000;
}
