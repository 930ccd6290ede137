-- ===== src/Coverage/Program.antt =====
-- What a run of the drain loop computes with.
use apex_ray.Base.{string_eq}
use apex_ray.Base.Dict.{insert}
use apex_ray.Base.Sort.{sorted, insert_sorted}
use apex_ray.Base.Text.{starts_with, drop_prefix}
use apex_ray.Models.{reviewer_status_eq, partial_severity_eq, completion_status_eq}
use apex_ray.Coverage.{
  completion_status, summaries_by_id, reviewer_is_complete, coverage_is_complete, pending_ids,
  todo_is_pending,
}
use apex_ray.Coverage.Drain.{
  priority_rank, residual_priorities, todo_priorities, pack_order, progress_le, pending_le,
  pending_context_pack_ids, progress_key, needs_rebase, matching_summaries, depth_upgrade_from,
  depth_upgrade, next_batch, after_batch, drain, start_drain, continue_review_until_complete,
}

unfoldable pub program : Unit {0}
unfolding string_eq insert sorted insert_sorted starts_with drop_prefix reviewer_status_eq
    partial_severity_eq completion_status_eq completion_status summaries_by_id reviewer_is_complete
    coverage_is_complete pending_ids todo_is_pending priority_rank residual_priorities
    todo_priorities pack_order progress_le pending_le pending_context_pack_ids progress_key
    needs_rebase matching_summaries depth_upgrade_from depth_upgrade next_batch after_batch drain
    start_drain continue_review_until_complete
program = tt
