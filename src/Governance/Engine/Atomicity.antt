-- ===== src/Governance/Engine/Atomicity.antt =====
-- The steps of Engine.Execute (internal/governance/engine.go) over any ports.
use oneops.Base.{ℕ, ◌≡◌, ap, subst, ◌∙◌, ◌⊎◌, inl, inr, not, ◌&&◌, Text, ◌==◌, arith}
use oneops.Domain.Errors.{
  Error, Result, ok, err, Result-cases, reject_if, version_mismatch, ◌>>=◌, >>=-eq-ok,
}
use oneops.Domain.Objects.{ConfigObject}
use oneops.Domain.AuditTypes.{AuditEvent, EventInput}
use oneops.Audit.Resolve.{AppendInput, Json, resolve}
use oneops.Governance.Transition.{Command, Plan, plan_transition}
use oneops.Governance.Engine.{
  Ports, Outcome, validate_command, new_outcome, apply_plan, apply_edge, emit_audit, stage,
  transact, execute,
}

module _ {S : Type 0} (ports : Ports S) (json : Json) (sha256 : Text → Text) where
  abbrev pub event_input : Command → Outcome → Text → EventInput
  event_input cmd res payload = record {
    chain_id = res.cfg_id;
    operation_id = cmd.operation_id;
    operation = res.operation;
    payload = payload;
  }

  -- The audit emission of a successful run.
  pub record Emitted (cmd : Command) (res : Outcome) (s s' : S) : Type 0 where
    pub payload : Text
    pub marshalled : ports.marshal res ≡ ok payload
    pub input : AppendInput
    pub resolved :
        resolve json sha256 (event_input cmd res payload) res.actor res.occurred_at ≡ ok input
    pub event : AuditEvent
    pub appended : ports.append_audit input s ≡ ok (event, s')

  emit_audit-Emitted :
      (cmd : Command) (res : Outcome) (s s' : S)
      → emit_audit ports json sha256 cmd res s ≡ ok s'
      → Emitted cmd res s s'
  unfolding emit_audit
  emit_audit-Emitted cmd res s s' h =
      let (payload, marshalled, h1) = >>=-eq-ok (ports.marshal res) _ h in
      let (input, resolved, h2) =
        >>=-eq-ok (resolve json sha256 (event_input cmd res payload) res.actor res.occurred_at) _
          h1 in
      let (done, appended, h3) = >>=-eq-ok (ports.append_audit input s) _ h2 in
      record {
        payload = payload;
        marshalled = marshalled;
        input = input;
        resolved = resolved;
        event = done.0;
        appended = cc (appended, h3);
      }

  -- The mutation of a successful run: the object was found, passed the checks, and was planned for;
  -- then the plan and its edge were applied.
  pub record Mutated (cmd : Command) (s : S) (res : Outcome) (s' : S) : Type 0 where
    pub obj : ConfigObject
    pub found : ports.get_for_update cmd.cfg_id s ≡ ok obj
    pub version : (cmd.expected_row_version ≡ 0) ⊎ (obj.row_version ≡ cmd.expected_row_version)
    pub allowed : ports.authorize cmd.operation cmd.actor obj ≡ ok tt
    pub plan : Plan
    pub planned : plan_transition cmd.operation obj cmd ≡ ok plan
    pub applied : Outcome × S
    pub apply : apply_plan ports cmd obj plan (new_outcome cmd ports.now) s ≡ ok applied
    pub relate : apply_edge ports plan.edge applied.0 applied.1 ≡ ok (res, s')

  abbrev version_check : ℕ → ℕ → Result (Unit {0})
  version_check e v = reject_if (not (e == 0) && not (v == e)) version_mismatch

  version_ok : (e v : ℕ) → version_check e v ≡ ok tt → (e ≡ 0) ⊎ (v ≡ e)
  version_ok e v h = ground arith

  -- The steps of a successful run: one mutation, then one audit emission.
  pub record Staged (cmd : Command) (s : S) (res : Outcome) (s' : S) : Type 0 where
    pub mutated : S
    pub mutation : Mutated cmd s res mutated
    pub emission : Emitted cmd res mutated s'

  -- What is left of `stage` once the object has passed the checks.
  abbrev planned_stage : Command → ConfigObject → S → Result (Outcome × S)
  planned_stage cmd obj s = do
    p ← plan_transition cmd.operation obj cmd
    applied ← apply_plan ports cmd obj p (new_outcome cmd ports.now) s
    related ← apply_edge ports p.edge applied.0 applied.1
    audited ← emit_audit ports json sha256 cmd related.0 related.1
    ok (related.0, audited)

  planned_stage-Staged :
      (cmd : Command) (s s' : S) (res : Outcome) (obj : ConfigObject)
      → ports.get_for_update cmd.cfg_id s ≡ ok obj
      → (cmd.expected_row_version ≡ 0) ⊎ (obj.row_version ≡ cmd.expected_row_version)
      → ports.authorize cmd.operation cmd.actor obj ≡ ok tt
      → planned_stage cmd obj s ≡ ok (res, s')
      → Staged cmd s res s'
  planned_stage-Staged cmd s s' res obj found version allowed h =
      let (plan, planned, r1) = >>=-eq-ok (plan_transition cmd.operation obj cmd) _ h in
      let (applied, apply, r2) =
        >>=-eq-ok (apply_plan ports cmd obj plan (new_outcome cmd ports.now) s) _ r1 in
      let (related, relate, r3) = >>=-eq-ok (apply_edge ports plan.edge applied.0 applied.1) _ r2 in
      let (audited, emitted, r4) =
        >>=-eq-ok (emit_audit ports json sha256 cmd related.0 related.1) _ r3 in
      let same : related.0 ≡ res = cc r4 in
      let done : audited ≡ s' = cc r4 in
      record {
        mutated = related.1;
        mutation = record {
          obj = obj;
          found = found;
          version = version;
          allowed = allowed;
          plan = plan;
          planned = planned;
          applied = applied;
          apply = apply;
          relate = relate ∙ ap (λ (r : Outcome). ok (r, related.1)) same;
        };
        emission =
            subst (λ r. Emitted cmd r related.1 s') same
              (subst (Emitted cmd related.0 related.1) done
                (emit_audit-Emitted cmd related.0 related.1 audited emitted));
      }

  stage-Staged :
      (cmd : Command) (s s' : S) (res : Outcome)
      → stage ports json sha256 cmd s ≡ ok (res, s')
      → Staged cmd s res s'
  unfolding stage
  stage-Staged cmd s s' res h =
      let (obj, found, r1) = >>=-eq-ok (ports.get_for_update cmd.cfg_id s) _ h in
      let (u, version, r2) =
        >>=-eq-ok (version_check cmd.expected_row_version obj.row_version) _ r1 in
      let (v, allowed, r3) = >>=-eq-ok (ports.authorize cmd.operation cmd.actor obj) _ r2 in
      planned_stage-Staged cmd s s' res obj found
        (version_ok cmd.expected_row_version obj.row_version version) allowed r3

  -- A successful run, from `s` to `s'`: the command is well formed, and one transaction was begun,
  -- staged and committed.
  pub record Executed (cmd : Command) (s : S) (res : Outcome) (s' : S) : Type 0 where
    pub accepted : validate_command cmd ≡ ok tt
    pub begun : S
    pub began : ports.begin s ≡ ok begun
    pub staged : S
    pub steps : Staged cmd begun res staged
    pub committed : ports.commit staged ≡ ok s'

  transact-Executed :
      (cmd : Command) (s s' : S) (res : Outcome)
      → transact ports json sha256 cmd s ≡ ok (res, s')
      → Executed cmd s res s'
  unfolding transact
  transact-Executed cmd s s' res h =
      let (u, accepted, h1) = >>=-eq-ok (validate_command cmd) _ h in
      let (begun, began, h2) = >>=-eq-ok (ports.begin s) _ h1 in
      let (staged, run, h3) = >>=-eq-ok (stage ports json sha256 cmd begun) _ h2 in
      let (done, committed, h4) = >>=-eq-ok (ports.commit staged.1) _ h3 in
      let same : staged.0 ≡ res = cc h4 in
      record {
        accepted = accepted;
        begun = begun;
        began = began;
        staged = staged.1;
        steps =
            stage-Staged cmd begun staged.1 res (run ∙ ap (λ (r : Outcome). ok (r, staged.1)) same);
        committed = cc (committed, h4);
      }

  -- A run of `Execute` either fails and leaves the state as it was, or succeeds, and then it is one
  -- transaction with one mutation, one audit append for it, and one commit.
  pub execute-atomic :
      (cmd : Command) (s : S)
      → ((x : Error) × (execute ports json sha256 cmd s ≡ (err x, s)))
        ⊎ ((res : Outcome) × (s' : S) × (execute ports json sha256 cmd s ≡ (ok res, s'))
            × Executed cmd s res s')
  unfolding execute
  execute-atomic cmd s = elim (Result-cases (transact ports json sha256 cmd s)) [
    | inl ((res, s'), got) ↦ inr (res, s', rw got, transact-Executed cmd s s' res got)
    | inr (x, got) ↦ inl (x, rw got)
  ]
