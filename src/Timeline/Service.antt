-- ===== src/Timeline/Service.antt =====
-- The Service of internal/timeline/timeline.go. Offset and Limit are int64 patterns; slicing out of range
-- panics. NextOffset is the number whose decimal text the code returns. Metrics are left out.
use oneops.Base.{
  get_or_empty, ℕ, ◌+◌, ◌-◌, ◌%◌, ◌^◌, Bool, true, false, not, ◌&&◌, Option, none, some, List, [],
  ◌∷◌, ◌++◌, Text, codes, text_eq, text_le, ltb, leb, ◌==◌, if◌then◌else◌, is_empty, length, map,
  take, drop, filter,
}
use oneops.Base.Sorting.{sort_by}
use oneops.Domain.Errors.{Result, ok, err, not_found, ◌>>=◌}
use oneops.Audit.Hash.{int64_lt, below_one}
use oneops.Audit.Tables.{int64_le}
use oneops.Timeline.Entries.{
  AuditRow, PolicyRow, ReplayRow, Entry, audit_entries, delivery_entry, replay_entries,
  policy_entry,
}
use oneops.Timeline.Sources.{Source}

pub record Filter : Type 0 where
  pub from_time : ℕ
  pub to_time : ℕ
  pub component : Text
  pub status : Text
  pub offset : ℕ
  pub limit : ℕ

-- `Filter.limit`
abbrev pub limit_of : Filter → ℕ
limit_of f = if below_one f.limit then 100 else f.limit

pub record Page : Type 0 where
  pub entries : List Entry
  pub next_offset : Option ℕ

-- `componentOrder`, which is 0 for an unknown component.
unfoldable pub component_order : Text → ℕ
component_order c =
    if text_eq c (codes "audit")
    then 1
    else (if text_eq c (codes "webhook")
        then 2
        else (if text_eq c (codes "replay")
            then 3
            else (if text_eq c (codes "policy") then 4 else 0)))

abbrev bar : Text
bar = codes "|"

-- `corrKey`
unfoldable pub corr_key : Entry → Text
unfolding get_or_empty
corr_key e =
    e.action
    ++ (bar
        ++ (get_or_empty (codes "event_id") e.correlation
            ++ (bar
                ++ (get_or_empty (codes "delivery_id") e.correlation
                    ++ (bar
                        ++ (get_or_empty (codes "policy_execution_id") e.correlation
                            ++ (bar ++ get_or_empty (codes "replay_job_id") e.correlation)))))))

-- The comparison of `sortEntries`.
unfoldable pub entry_less : Entry → Entry → Bool
unfolding corr_key component_order
entry_less a b =
    if not (a.timestamp == b.timestamp)
    then ltb a.timestamp b.timestamp
    else (if not (component_order a.component == component_order b.component)
        then ltb (component_order a.component) (component_order b.component)
        else not (text_le (corr_key b) (corr_key a)))

abbrev pub entry_le : Entry → Entry → Bool
entry_le a b = not (entry_less b a)

-- `sortEntries`, which is stable.
unfoldable pub sort_entries : List Entry → List Entry
sort_entries = sort_by entry_le

abbrev pub passes : Filter → Entry → Bool
passes f e =
    if not (f.from_time == 0) && ltb e.timestamp f.from_time
    then false
    else (if not (f.to_time == 0) && ltb f.to_time e.timestamp
        then false
        else (if not (is_empty f.component) && not (text_eq e.component f.component)
            then false
            else (if not (is_empty f.status) && not (text_eq e.status f.status)
                then false
                else true)))

-- `filter`
unfoldable pub filter_entries : Filter → List Entry → List Entry
filter_entries f es = filter (passes f) es

-- `paginate`; `none` is the panic of a slice whose end was wrapped below its start.
unfoldable pub paginate : List Entry → Filter → Option Page
paginate es f =
    let off = if int64_lt f.offset 0 then 0 else f.offset in
    let end = (off + limit_of f) % 2 ^ 64 in
    if leb (length es) off
    then some (record { entries = []; next_offset = none })
    else (if int64_le (length es) end
        then some (record { entries = drop off es; next_offset = none })
        else (if int64_lt end off
            then none
            else some
                (record { entries = take (end - off) (drop off es); next_offset = some end })))

-- `query`: the outer result is the error of `gather`.
unfoldable pub query : Filter → Result (List Entry) → Result (Option Page)
unfolding filter_entries sort_entries paginate
query f gathered = do entries ← gathered; ok (paginate (sort_entries (filter_entries f entries)) f)

module _ (itoa : ℕ → Text) (src : Source) where
  unfoldable pub all_audit_entries : List AuditRow → List Entry
  unfolding audit_entries
  all_audit_entries [] = []
  all_audit_entries (a ∷ audits) = audit_entries itoa a ++ all_audit_entries audits

  -- `composeForEvents`
  unfoldable pub compose_for_events : List AuditRow → List Text → Result (List Entry)
  unfolding all_audit_entries delivery_entry policy_entry
  compose_for_events audits ids = do
    dels ← src.deliveries_by_event_ids ids
    pes ← src.policy_executions_by_event_ids ids
    ok (all_audit_entries audits ++ (map (delivery_entry itoa) dels ++ map (policy_entry itoa) pes))

  -- `ByEvent`
  unfoldable pub by_event : Text → Filter → Result (Option Page)
  unfolding compose_for_events query
  by_event event_id f =
      query f
        (do audits ← src.audit_by_event_id event_id; compose_for_events audits (event_id ∷ []))

  -- `ByGovernance`
  unfoldable pub by_governance : Text → Filter → Result (Option Page)
  unfolding compose_for_events query
  by_governance cfg_id f = query f (do
    audits ← src.audit_by_chain cfg_id 1000
    compose_for_events audits (map (λ (a : AuditRow). a.event_id) audits))

  abbrev replay_found : Option ReplayRow → Result (List Entry)
  replay_found none = err not_found
  replay_found (some job) = ok (replay_entries itoa job)

  -- `ByReplay`
  unfoldable pub by_replay : Text → Filter → Result (Option Page)
  unfolding replay_entries query
  by_replay job_id f = query f (do job ← src.replay_job job_id; replay_found job)

  -- The audit entries of an execution's event, if it has one.
  abbrev event_entries : Text → Result (List Entry)
  event_entries event_id =
      if is_empty event_id
      then ok []
      else src.audit_by_event_id event_id >>= λ audits. ok (all_audit_entries audits)

  abbrev execution_found : Option PolicyRow → Result (List Entry)
  execution_found none = err not_found
  execution_found (some pe) =
      event_entries pe.event_id >>= λ entries. ok (entries ++ policy_entry itoa pe ∷ [])

  -- `ByPolicyExecution`
  unfoldable pub by_policy_execution : Text → Filter → Result (Option Page)
  unfolding all_audit_entries policy_entry query
  by_policy_execution exec_id f = query f (do pe ← src.policy_execution exec_id; execution_found pe)
