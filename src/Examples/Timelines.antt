-- ===== src/Examples/Timelines.antt =====
-- A replay job and a policy execution, and the theorems on the timeline at them.
use oneops.Base.{
  ℕ, ◌≡◌, refl, some, List, [], ◌∷◌, Text, codes, replicate, arith, filter, length, text_eq,
}
use mathlib.Core.List.{Permᴰ}
use oneops.Base.Sorting.{Ascending, sort_by}
use oneops.Domain.Errors.{ok}
use oneops.Timeline.Entries.{
  Entry, ReplayRow, PolicyRow, replay_entries, policy_entry, duration_ms_of,
}
use oneops.Timeline.Service.{
  Filter, entry_le, entry_less, passes, filter_entries, sort_entries, component_order,
}
use oneops.Timeline.Paging.{walk, listed, walk-listed}

abbrev strokes : ℕ → Text
strokes n = replicate n 49

abbrev job_row : ReplayRow
job_row = record {
  id = codes "rpl_1";
  webhook_id = codes "wh_1";
  status = codes "completed";
  events_replayed = 2;
  created_at = 10;
  updated_at = 30;
}

abbrev execution_row : PolicyRow
execution_row = record {
  id = codes "pex_1";
  policy_id = codes "pol_1";
  event_id = codes "evt_1";
  status = codes "succeeded";
  retry_count = 0;
  started_at = 15;
  ended_at = 20;
  created_at = 12;
}

abbrev three_entries : List Entry
three_entries = policy_entry strokes execution_row ∷ replay_entries strokes job_row

abbrev two_a_page : Filter
two_a_page = record {
  from_time = 0;
  to_time = 0;
  component = [];
  status = [];
  offset = 0;
  limit = 2;
}

three_listed : length (listed two_a_page three_entries) ≡ 3
unfolding filter_entries sort_entries sort_by entry_less replay_entries policy_entry duration_ms_of
    text_eq component_order
three_listed = refl

walk-listed_example :
    (walk 4 two_a_page (ok three_entries) ≡ some (listed two_a_page three_entries))
    × Ascending entry_le (listed two_a_page three_entries)
    × Permᴰ (filter (passes two_a_page) three_entries) (listed two_a_page three_entries)
walk-listed_example =
    walk-listed 4 two_a_page three_entries refl (omega (arith, three_listed))
      (omega (arith, three_listed))
