-- ===== src/Store/Deletion/LegacyTests.antt =====
-- The theorems on the legacy queue at concrete databases.
use icloud_api_mangobubu.Base.{
  ◌≡◌, refl, none, List, [], ◌∷◌, if◌then◌else◌, is_some, err, codes, text_eq, trim_space,
  first_where,
}
use icloud_api_mangobubu.Store.Encoding.{sanitize_postgres_text, truncate}
use icloud_api_mangobubu.Store.Deletion.Types.{completed, JobRow, Db, not_found, conflict}
use icloud_api_mangobubu.Store.Deletion.Normalize.{normalize_job, normalize_items}
use icloud_api_mangobubu.Store.Deletion.Snapshot.{job_key}
use icloud_api_mangobubu.Store.Deletion.Enqueue.{row_of}
use icloud_api_mangobubu.Store.Deletion.Jobs.{
  create_job, save_job, interrupt_jobs, clear_completed, active_job,
}
use icloud_api_mangobubu.Store.Deletion.Legacy.{
  create_job_twice, save_job-interrupt_jobs, clear_completed_twice, active_job-interrupt_jobs,
}
use icloud_api_mangobubu.Store.Deletion.Tests.{job, queued_job, waiting_queue, get_ok}

abbrev no_jobs : Db
no_jobs = record waiting_queue { jobs = [] }

create_job_twice_example :
    create_job 6 queued_job (get_ok (create_job 5 queued_job no_jobs) no_jobs) ≡ err conflict
unfolding create_job normalize_job normalize_items trim_space sanitize_postgres_text truncate
    first_where text_eq
create_job_twice_example =
    create_job_twice 5 6 queued_job no_jobs (get_ok (create_job 5 queued_job no_jobs) no_jobs) refl

save_job-interrupt_jobs_example : save_job 6 queued_job none (interrupt_jobs 5 waiting_queue) ≡ (
    if is_some (first_where (job_key 1 (codes "j")) (interrupt_jobs 5 waiting_queue).jobs)
    then err conflict
    else err not_found)
unfolding normalize_job normalize_items trim_space sanitize_postgres_text truncate
save_job-interrupt_jobs_example =
    save_job-interrupt_jobs 5 6 queued_job queued_job none waiting_queue refl

abbrev ended : List JobRow
ended = row_of (record job { status = completed }) [] ∷ []

clear_completed_twice_example :
    clear_completed 6 1 ended (clear_completed 5 1 ended []).0
    ≡ ((clear_completed 5 1 ended []).0, (0, (clear_completed 5 1 ended []).1.1))
clear_completed_twice_example = clear_completed_twice 5 6 1 ended []

-- The same job without its metadata is a legacy one.
abbrev legacy : Db
legacy = record waiting_queue { metadata = [] }

active_job-interrupt_jobs_example : active_job 1 (interrupt_jobs 5 legacy) ≡ err not_found
unfolding first_where
active_job-interrupt_jobs_example = active_job-interrupt_jobs 5 1 legacy (λ h. refl, tt)
