-- ===== src/Host.antt =====
-- What the scheduler and the policy engine take from code that is not modelled: third-party
-- libraries, the operating system, the file system, and the hooks of harness/server/composition.py.
use mi_harness.Prelude.{ℕ, String, Bool, Option, List}
use mi_harness.Core.{ArtifactRef}
use mi_harness.Store.Schema.{ContentPart, Snapshot, RunRow, AttemptRow, ArtifactRow, Db}

pub data Effect : Type 0 where
  read workspace_write external_write process : Effect

pub record Host : Type 0 where
  -- jsonschema.validate of a response against a schema
  pub schema_accepts : String → String → Bool
  -- content_hash: SHA-256 of the canonical JSON of the texts
  pub content_hash : List String → String
  -- int(content_hash([base, named, policy_ref])[:13], 16), over the texts of the policies
  pub policy_revision : List String → ℕ
  -- ArtifactStore._verify: the object of the row is on disk and intact
  pub is_stored : ArtifactRow → Bool
  -- validate_image of the artifact's bytes against its MIME type
  pub is_image : ArtifactRef → Bool
  -- psutil: the process of the attempt runs and was started when the attempt says
  pub is_alive : AttemptRow → Bool
  -- the SHA-256 of a regular file at a path
  pub file_digest : String → Option String
  -- the effect of a registered tool
  pub effect_of : String → String → Option Effect
  -- the addresses of socket.getaddrinfo, sorted and each once, or none where it raises; and the
  -- classes of ipaddress
  pub resolve : String → Option (List String)
  pub is_loopback : String → Bool
  pub is_global : String → Bool
  pub in_fake_range : String → Bool
  -- the addresses of the official presets
  pub is_official : String → Bool
  -- the canonical JSON of a user message
  pub message_json : String → String → List ContentPart → String
  -- the process service: Scheduler.processes and Scheduler.cancel_callback
  pub recover_processes : String → Db Unit
  pub cancel_processes : String → Db Unit
  -- Scheduler.terminal_hook and Scheduler.run_created_hook
  pub terminal_hook : RunRow → Db Unit
  pub run_created_hook : RunRow → Snapshot → Db Unit
