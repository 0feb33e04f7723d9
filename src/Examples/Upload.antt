-- ===== src/Examples/Upload.antt =====
-- The upload worker on a concrete store.
use omnidrive.Prelude.{
  map, true, All, ◌≡◌, ◌≢◌, ◌⊎◌, refl, none, some, [], select_where, update_where, find_where,
  any_where, order_by,
}
use omnidrive.Result.{ok}
use omnidrive.Db.{UploadJob, Pack, in_progress, local_only, ec2_1, from_str}
use omnidrive.Db.Packs.{
  get_pack, resolve_pack_status_for_mode, get_physical_usage_for_provider, sum_sizes,
  update_pack_status,
}
use omnidrive.Db.Packs.Status.{Says, stored, in_flight, resolve_pack_status_lem}
use omnidrive.Db.Shards.{
  summarize_pack_shards, get_incomplete_pack_shards, get_pack_shards, mark_pack_shard_completed,
  mark_pack_shard_in_progress, tally_all,
}
use omnidrive.Uploader.{
  process_job, process_shards, completed, process_pack, process_pending, process_shard,
  after_decision, finish_job, handle_reply, store_shard, upload_shard, same_file,
}
use omnidrive.CloudGuard.{
  is_cloud_suspended, get_system_config_value, enforce_single_upload_size_limit,
  apply_cloud_usage_delta_with_limits, current_decision, delta_of, dry_run_on, ensure_day,
  is_blank_text, is_whitespace, limits_of, next_usage, set_cloud_suspension,
  set_system_config_value, settle,
}
use omnidrive.Db.Targets.{
  ensure_upload_targets, ensure_upload_target, mark_upload_target_completed,
  mark_upload_target_in_progress,
}
use omnidrive.Int64.{from_u64, saturating_add}
use omnidrive.Uploader.Round.{LetsGo, run_round-LetsGo}
use omnidrive.Db.Jobs.{with_id, is_ready, get_next_upload_job, mark_upload_job_completed}
use omnidrive.Db.{Db}
use omnidrive.Uploader.Restart.{restarted-IsReady}
use omnidrive.Uploader.{start, Machine, run_round, conclude_job, JobProcessOutcome, set_db}
use omnidrive.Uploader.Loop.{Ends, shards-Ends}
use omnidrive.Uploader.Completion.{IsStored, completed-IsStored, spool_is_kept}
use omnidrive.Uploader.Isolation.{Isolated, process_job-Isolated}
use omnidrive.Examples.{store, machine, world, worker, job}

abbrev running : UploadJob
running = job 1 "a" in_progress none

completed-IsStored_example :
    (p : Pack) × (get_pack "a" store ≡ some p)
    × IsStored "a" (process_job worker world running machine).1.db p
unfolding process_job is_cloud_suspended get_system_config_value find_where process_pack get_pack
    process_pending get_incomplete_pack_shards order_by select_where ensure_upload_targets
    get_pack_shards ensure_upload_target any_where process_shards process_shard
    enforce_single_upload_size_limit get_physical_usage_for_provider
    apply_cloud_usage_delta_with_limits current_decision delta_of dry_run_on ensure_day
    is_blank_text is_whitespace limits_of next_usage set_cloud_suspension set_system_config_value
    settle resolve_pack_status_for_mode sum_sizes update_pack_status mark_pack_shard_completed
    mark_pack_shard_in_progress summarize_pack_shards tally_all mark_upload_target_completed
    mark_upload_target_in_progress from_str from_u64 saturating_add update_where after_decision
    finish_job handle_reply store_shard upload_shard same_file
completed-IsStored_example = completed-IsStored worker world running machine refl

spool_is_kept_example :
    let r = process_job worker world running machine in
    (r.1.spool ≡ machine.spool)
    ⊎ ((r.0 ≡ ok completed)
        × ((p : Pack) × (get_pack "a" store ≡ some p)
            × IsStored "a" r.1.db p
            × (from_str p.storage_mode ≢ local_only)))
spool_is_kept_example = spool_is_kept worker world running machine

process_job-Isolated_example : Isolated "a" machine (process_job worker world running machine).1
process_job-Isolated_example = process_job-Isolated worker world running machine

shards-Ends_example : Ends "a" machine (
    process_shards worker world running
      (get_incomplete_pack_shards "a" store)
      (record { max_attempts = 0; failed_shards = [] })
      machine)
shards-Ends_example =
    shards-Ends worker world running (get_incomplete_pack_shards "a" store)
      (record { max_attempts = 0; failed_shards = [] }) machine

resolve_pack_status_lem_example :
    Says ec2_1
      (stored "a" store)
      (in_flight "a" store)
      (resolve_pack_status_for_mode ec2_1 (summarize_pack_shards "a" store))
resolve_pack_status_lem_example = resolve_pack_status_lem ec2_1 "a" store

abbrev claimed : Db
claimed = (get_next_upload_job 100 store).1

run_round-LetsGo_example :
    (o : JobProcessOutcome) × ((process_job worker world running (set_db machine claimed)).0 ≡ ok o)
    × LetsGo 100 o 1 store.upload_jobs (run_round worker world machine).1.db.upload_jobs
unfolding process_job is_cloud_suspended get_system_config_value find_where process_pack get_pack
    process_pending get_incomplete_pack_shards order_by select_where ensure_upload_targets
    get_pack_shards ensure_upload_target any_where process_shards process_shard
    enforce_single_upload_size_limit get_physical_usage_for_provider
    apply_cloud_usage_delta_with_limits current_decision delta_of dry_run_on ensure_day
    is_blank_text is_whitespace limits_of next_usage set_cloud_suspension set_system_config_value
    settle resolve_pack_status_for_mode sum_sizes update_pack_status mark_pack_shard_completed
    mark_pack_shard_in_progress summarize_pack_shards tally_all mark_upload_target_completed
    mark_upload_target_in_progress from_str from_u64 saturating_add update_where after_decision
    finish_job handle_reply store_shard upload_shard same_file get_next_upload_job run_round
    conclude_job mark_upload_job_completed
run_round-LetsGo_example = run_round-LetsGo worker world machine running claimed refl refl

-- The pack of the claimed job is not there, and the round ends in an error.
abbrev packless : Machine
packless = set_db machine (record store { packs = [] })

restarted-IsReady_example :
    let jobs = (start 7 (run_round worker world packless).1).db.upload_jobs in
    All (λ j. with_id 1 j ≡ true → is_ready 0 j ≡ true) jobs
    × (map (λ j. j.id) jobs ≡ map (λ (j : UploadJob). j.id) store.upload_jobs)
unfolding get_next_upload_job run_round process_job is_cloud_suspended get_system_config_value
    find_where process_pack get_pack order_by select_where
restarted-IsReady_example =
    restarted-IsReady worker world packless running (get_next_upload_job 100 packless.db).1 7 0 refl
      refl
