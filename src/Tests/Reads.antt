-- ===== src/Tests/Reads.antt =====
-- The session loop with the jobs of internal/serve/jobs.go over a small file system: a job that reads
-- a file arrives, and is approved.
use aken.Base.{◌≡◌, refl, [], ◌∷◌, All, true}
use aken.Encoding.Hex
use aken.Protocol.Jobs.{validate_job_id, catalog_class, class_in}
use aken.Protocol.Api.{parse_session_id, session_id_text, has_prefix}
use aken.Protocol.Envelope.{
  open_job, open_session, validate, canonical, canonical_at, open_with, opened, seal_result,
  seal_session, seal_with, blank_envelope,
}
use aken.Source.Lines.{split}
use aken.Source.Paths.{clean, cleaned, clean_parts, render, dir, rel}
use aken.Source.Scope.{under, permits, open_file}
use aken.Jobs.Resolve.{canonical_of, resolve_clean, resolve}
use aken.Jobs.Expand.{sensitive, base}
use aken.Jobs.Params.{decode}
use aken.Jobs.Prepare.{prepare, prepare_named}
use aken.Collector.State.{Session}
use aken.Collector.Result.{overflow, cap_json, cap_result}
use aken.Collector.Send.{send, send_numbered, Outside, approve}
use aken.Collector.Handle.{
  loop, loop_turn, handle, handle_decoded, handle_jobs, run_answered, run_rows, run_job, finish,
  result_of,
}
use aken.Collector.Rows.{prepare_rows, prepare_row, answer}
use aken.Collector.Preparing.{with_jobs, loop_job}
use aken.Collector.Grown.{Permitted}
use aken.Collector.Reads.{reads_permitted}
use aken.Tests.Samples.{crypto, id}
use aken.Tests.Files.{files}
use aken.Tests.Jobs.{world, job, prepared}
use aken.Tests.Collector.{keys, outside, session, arriving}

abbrev out : Outside
out = record (outside approve) { decode_job = λ d. (job, true) }

abbrev file_session : Session
file_session = record session { files = files }

-- The job is run, on the path that its target resolves to.
one_read :
    (loop crypto keys id (with_jobs (λ s. world) (λ s. 9) out) (arriving ∷ []) file_session).1.reads
    ≡ (loop_job prepared, files) ∷ []
unfolding loop loop_turn handle handle_decoded handle_jobs prepare_rows prepare_row answer
    run_answered run_rows run_job finish send send_numbered result_of cap_result overflow cap_json
    open_job open_session validate canonical canonical_at open_with opened parse_session_id
    session_id_text Hex.lower_hex Hex.decode Hex.digit_value Hex.encode Hex.digit seal_result
    seal_session seal_with blank_envelope with_jobs prepare prepare_named decode validate_job_id
    catalog_class class_in resolve resolve_clean canonical_of permits under rel clean cleaned
    clean_parts split render open_file dir sensitive base has_prefix
one_read = refl

reads_permitted_example :
    All Permitted
      (loop crypto keys id
        (with_jobs (λ s. world) (λ s. 9) out)
        (arriving ∷ [])
        file_session).1.reads
reads_permitted_example =
    reads_permitted crypto keys id out (λ s. world) (λ s. 9) (arriving ∷ []) file_session refl
