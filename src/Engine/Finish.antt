-- ===== src/Engine/Finish.antt =====
-- finalize, lastError and the merge summary.
use serpent_seek.Prelude.{
  ℕ, String, not, ◌&&◌, some, List, [], ◌∷◌, length, ◌==◌, join, if◌then◌else◌,
}
use serpent_seek.Models.{Row}
use serpent_seek.Merge.{Merger, collected_total, duplicates_removed, rows_up_to, providers}
use serpent_seek.Engine.State.{
  Context, World, RequestStep, MergeStats, merge_done, request_done, publish,
}
use serpent_seek.Engine.Words.{is_blank}

-- store.RequestResult
pub record RequestResult : Type 0 where
  pub link : String
  pub title : String
  pub snippet : String
  pub sources : List String

-- Output, with the fields of the request row that are final only now
pub record Output : Type 0 where
  pub status : String
  pub rows : List Row
  pub results : List RequestResult
  pub used : String
  pub steps_count : ℕ
  pub world : World

unfoldable pub to_request_results : List Row → List RequestResult
to_request_results [] = []
to_request_results (r ∷ rs) =
    record { link = r.link; title = r.title; snippet = r.snippet; sources = r.sources }
    ∷ to_request_results rs

-- the error of the last step that has one
unfoldable pub last_error : List RequestStep → String
last_error [] = ""
last_error (s ∷ ss) = let later = last_error ss in if later == "" then s.error else later

-- A generated answer is a valid outcome even when no row was collected.
unfoldable pub final_status : String → World → String
final_status status w = if status == "empty" && not (is_blank w.answer) then "ok" else status

unfoldable pub with_error : String → World → World
with_error status w =
    if status == "fail" && w.error == "" then record w { error = last_error w.steps } else w

unfoldable pub finalize : String → List Row → String → World → Output
finalize status rows used w =
    let final = final_status status w in
    record {
      status = final;
      rows = rows;
      results = to_request_results rows;
      used = used;
      steps_count = w.step_no;
      world = publish (request_done final used (length rows)) (with_error final w);
    }

unfoldable pub stats_of : Merger → List Row → MergeStats
stats_of m rows = record {
  collected_total = collected_total m;
  unique_links = length rows;
  duplicates_removed = duplicates_removed m;
}

-- the status of a full-chain run, and its error when there is none
unfoldable pub full_status : List Row → String → String
full_status [] last = if last == "ok" then "ok" else if last == "empty" then "empty" else "fail"
full_status (_ ∷ _) last = "ok"

-- the end that both full-chain walks share
unfoldable pub finish_full : Context → Merger → String → String → World → Output
finish_full c m last_status last_err w =
    let rows = rows_up_to c.count m in
    let status = full_status rows last_status in
    let stats = stats_of m rows in
    let told = publish (merge_done stats) (record w { merge = some stats }) in
    let failed =
      if status == "fail" && not (last_err == "") then record told { error = last_err } else told in
    finalize status rows (join (providers m) ", ") failed
