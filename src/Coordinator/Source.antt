-- ===== src/Coordinator/Source.antt =====
-- crates/team/src/work_source.rs: where a piece of work comes from, and what follows from it.
use team_lite.Base.{Bool, true, false}

pub data WorkPriority : Type 0 where
  foreground control background : WorkPriority

pub data WorkSource : Type 0 where
  user_message user_intervention : WorkSource
  mcp_send_message mcp_shutdown_request : WorkSource
  spawn_welcome team_membership_changed spawn_attach_failure : WorkSource
  idle_notification interrupted_notification shutdown_rejected recovery_drain : WorkSource

unfoldable pub priority : WorkSource → WorkPriority
priority user_message = foreground
priority user_intervention = foreground
priority mcp_shutdown_request = control
priority shutdown_rejected = control
priority mcp_send_message = background
priority spawn_welcome = background
priority team_membership_changed = background
priority spawn_attach_failure = background
priority idle_notification = background
priority interrupted_notification = background
priority recovery_drain = background

unfoldable pub resumes_paused_slot : WorkSource → Bool
resumes_paused_slot user_message = true
resumes_paused_slot user_intervention = true
resumes_paused_slot _ = false

unfoldable pub requires_mailbox_message : WorkSource → Bool
requires_mailbox_message team_membership_changed = false
requires_mailbox_message idle_notification = false
requires_mailbox_message _ = true
