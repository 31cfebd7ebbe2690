-- ===== src/Engine/Outputs.antt =====
-- finalize and the shared end of the full-chain walks: the form of an output.
use serpent_seek.Prelude.{
  ℕ, ◌≤◌, String, ◌≡◌, refl, sym, ◌⊎◌, inl, List, [], ◌∷◌, length, arith, length-append,
  length-take-le,
}
use serpent_seek.Models.{ChainNode, Row}
use serpent_seek.Merge.{Merger, rows_up_to, cap_rows}
use serpent_seek.Engine.State.{Context, World, Target, save_step, publish}
use serpent_seek.Engine.Resolve.{resolve_node, skip_reason, record_skip, skip_step}
use serpent_seek.Engine.Budget.{IsAccounted}
use serpent_seek.Engine.Finish.{
  Output, finalize, final_status, with_error, to_request_results, full_status, finish_full,
}

abbrev pub IsStatus : String → Type 0
IsStatus s = (s ≡ "ok") ⊎ (s ≡ "empty") ⊎ (s ≡ "fail")

pub record IsWellFormed (c : Context) (out : Output) : Type 0 where
  pub accounted : IsAccounted c out.world
  pub counted : out.steps_count ≡ out.world.step_no
  pub status : IsStatus out.status
  -- rows come only with success
  pub rows : (out.status ≡ "ok") ⊎ (out.rows ≡ [])
  pub capped : (c.count ≡ 0) ⊎ (length out.rows ≤ c.count)
  pub results : length out.results ≡ length out.rows

module _ (c : Context) where
  pub resolve_node-IsAccounted :
      (n : ChainNode) (w : World) → IsAccounted c w → IsAccounted c (resolve_node c n w).1
  unfolding resolve_node skip_reason
  resolve_node-IsAccounted n w v = ground arith

  pub record_skip-IsAccounted :
      (idx : ℕ) (n : ChainNode) (t : Target) (w : World)
      → IsAccounted c w
      → IsAccounted c (record_skip idx n t w)
  unfolding record_skip save_step publish
  record_skip-IsAccounted idx n t w v =
      omega (arith, v, length-append w.steps (skip_step idx n t ∷ []))

length-to_request_results : (rs : List Row) → length (to_request_results rs) ≡ length rs
unfolding to_request_results
length-to_request_results [] = refl
length-to_request_results (r ∷ rs) = omega (arith, length-to_request_results rs)

pub length-cap_rows :
    (count : ℕ) (rows : List Row) → (count ≡ 0) ⊎ (length (cap_rows count rows) ≤ count)
unfolding cap_rows
length-cap_rows count rows = ground (arith, length-take-le count rows)

final_status-IsStatus : (s : String) (w : World) → IsStatus s → IsStatus (final_status s w)
unfolding final_status
final_status-IsStatus s w v = ground arith

final_status-ok : (w : World) → final_status "ok" w ≡ "ok"
unfolding final_status
final_status-ok w = ground arith

with_error-IsAccounted :
    (c : Context) (s : String) (w : World) → IsAccounted c w → IsAccounted c (with_error s w)
unfolding with_error
with_error-IsAccounted c s w v = ground arith

step_no-with_error : (s : String) (w : World) → (with_error s w).step_no ≡ w.step_no
unfolding with_error
step_no-with_error s w = ground arith

pub finalize-IsWellFormed :
    (c : Context) (status : String) (rows : List Row) (used : String) (w : World)
    → IsAccounted c w
    → IsStatus status
    → (status ≡ "ok") ⊎ (rows ≡ [])
    → (c.count ≡ 0) ⊎ (length rows ≤ c.count)
    → IsWellFormed c (finalize status rows used w)
unfolding finalize publish
finalize-IsWellFormed c status rows used w v word with_rows cap =
    let v' = with_error-IsAccounted c (final_status status w) w v in
    record {
      accounted = record { within = v'.within; counted = v'.counted; recorded = v'.recorded };
      counted = sym (step_no-with_error (final_status status w) w);
      status = final_status-IsStatus status w word;
      rows = ground (arith, final_status-ok w);
      capped = cap;
      results = length-to_request_results rows;
    }

full_status-rows :
    (rows : List Row) (last : String)
    → IsStatus (full_status rows last) × ((full_status rows last ≡ "ok") ⊎ (rows ≡ []))
unfolding full_status
full_status-rows [] last = ground arith
full_status-rows (r ∷ rs) last = (inl refl, inl refl)

pub finish_full-IsWellFormed :
    (c : Context) (m : Merger) (last err : String) (w : World)
    → IsAccounted c w
    → IsWellFormed c (finish_full c m last err w)
unfolding finish_full publish rows_up_to
finish_full-IsWellFormed c m last err w v =
    let (word, with_rows) = full_status-rows (rows_up_to c.count m) last in
    finalize-IsWellFormed c _ (rows_up_to c.count m) _ _ (ground arith) word with_rows
      (length-cap_rows c.count m.rows)
