-- ===== src/Admin/Batch.antt =====
-- What the decisions do to the accounts of the reports, one by one and in batches
-- (server/src/controllers/admin-milestones.controller.ts, milestone-appeal.controller.ts).
use learnvault.Prelude.{
  ℕ, ◌≡◌, ◌⊎◌, inl, inr, refl, String, Option, none, some, List, [], ◌∷◌, All, Bool, true, false,
  ◌==◌,
}
use learnvault.Milestone.Types.{MilestoneReport}
use learnvault.Http.{call}
use learnvault.Http.Ends.{Ends, ends_rules, Ends-call, Ends-if}
use learnvault.Admin.Desk.{Desk, World, reject_report}
use learnvault.Admin.Decisions.{
  modify, reject_milestone, batch_approve_milestones, batch_reject_milestones, each,
  approved_or_error, rejected_or_error,
}
use learnvault.Admin.Appeals.{clean_reason, resolved, resolve_appeal, approve_appeal, reject_appeal}
use learnvault.Admin.Accounts.{IsUndecided, Decides, decided-Accounted, decided-IsUndecided}
use learnvault.Admin.Effects.{
  approve_report-Decides, reject_report-Decides, approve_appeal-Decides, reject_appeal-Decides,
}
use learnvault.Admin.Quiet.{IsSound}
use learnvault.Admin.Guards.{
  IsBatch, appealed-IsUndecided, Ends-pending_report-bind, Ends-pending_batch-bind,
}

pub decided-IsSound :
    {id : ℕ} {approves : Bool} {d d' : Desk}
    → IsUndecided id d
    → Decides id approves d d'
    → IsSound d
    → IsSound d'
decided-IsSound u c s = record {
  formed = c.formed s.formed;
  accounts = decided-Accounted u c s.accounts;
}

-- A round of a batch that decides on its report, or does nothing.
abbrev Rounds : Bool → (MilestoneReport → Desk → Bool × Desk) → Type 0
Rounds b f = (r : MilestoneReport) (d : Desk) → ((f r d).1 ≡ d) ⊎ Decides r.id b d (f r d).1

after_round :
    (b : Bool) (id : ℕ) (d d' : Desk) (rs : List MilestoneReport)
    → IsUndecided id d
    → Decides id b d d'
    → All (λ x. (id == x.id) ≡ false) rs
    → IsBatch d rs
    → IsBatch d' rs
after_round b id d d' [] u c others batch = tt
after_round b id d d' (r ∷ rs) u c others batch = (
  decided-IsUndecided u c r.id others.0 batch.0,
  batch.1,
  after_round b id d d' rs u c others.1 batch.2,
)

module _ (b : Bool) (f : MilestoneReport → Desk → Bool × Desk) (rounds : Rounds b f) where
  each-IsSound :
      (rs : List MilestoneReport) (d : Desk) → IsBatch d rs → IsSound d → IsSound (each f rs d).1
  unfolding each
  each-IsSound [] d batch s = s
  each-IsSound (r ∷ rs) d batch s = elim (rounds r d) [
    | inl same ↦ each-IsSound rs (f r d).1 (rw same batch.2) (rw same s)
    | inr c ↦
        each-IsSound rs (f r d).1 (after_round b r.id d (f r d).1 rs batch.0 c batch.1 batch.2)
          (decided-IsSound batch.0 c s)
  ]

module _ (w : World) (now : ℕ) (validator : String) where
  approve-Rounds : Rounds true (λ r. approved_or_error w now validator r (w.verify r.id))
  approve-Rounds r d = go (w.verify r.id)
    where
      go :
          (o : Option (Option String))
          → ((approved_or_error w now validator r o d).1 ≡ d)
            ⊎ Decides r.id true d (approved_or_error w now validator r o d).1
      go none = inl refl
      go (some tx) = inr (approve_report-Decides w now validator r d tx)

  reject-Rounds :
      (reason : String)
      → Rounds false (λ r. rejected_or_error w now validator reason r (w.reject r.id))
  reject-Rounds reason r d = go (w.reject r.id)
    where
      go :
          (o : Option (Option String))
          → ((rejected_or_error w now validator reason r o d).1 ≡ d)
            ⊎ Decides r.id false d (rejected_or_error w now validator reason r o d).1
      go none = inl refl
      go (some tx) = inr (reject_report-Decides w now validator r d reason tx)

-- Requests after which the accounts are kept.
abbrev pub KeptFrom : {A : Type 0} → Desk → A → Desk → Type 0
KeptFrom d a d' = IsSound d → IsSound d'

module _ (w : World) (now : ℕ) (validator : String) (d : Desk) where
  reject_end :
      (r : MilestoneReport) (reason : String) (tx : Option String)
      → IsUndecided r.id d
      → Ends d (KeptFrom d) (modify (reject_report w now validator reason r tx))
  reject_end r reason tx u =
      Ends-call d (KeptFrom d) (λ s. (tt, reject_report w now validator reason r tx s))
        (decided-IsSound u (reject_report-Decides w now validator r d reason tx))

  pub reject-Ends :
      (param : Option ℕ) (reason : Option String)
      → Ends d (KeptFrom d) (reject_milestone w now validator param reason)
  unfolding reject_milestone
  reject-Ends param reason = search (ends_rules, Ends-pending_report-bind, reject_end) depth 16

  approve_each_end :
      (rs : List MilestoneReport)
      → IsBatch d rs
      → Ends d
          (KeptFrom d)
          (call (each (λ r. approved_or_error w now validator r (w.verify r.id)) rs))
  approve_each_end rs batch =
      Ends-call d (KeptFrom d) _ (each-IsSound true _ (approve-Rounds w now validator) rs d batch)

  pub batch_approve-Ends :
      (ids : List ℕ) → Ends d (KeptFrom d) (batch_approve_milestones w now validator ids)
  unfolding batch_approve_milestones
  batch_approve-Ends ids = search (ends_rules, Ends-pending_batch-bind, approve_each_end)

  reject_each_end :
      (reason : String) (rs : List MilestoneReport)
      → IsBatch d rs
      → Ends d
          (KeptFrom d)
          (call (each (λ r. rejected_or_error w now validator reason r (w.reject r.id)) rs))
  reject_each_end reason rs batch =
      Ends-call d (KeptFrom d) _
        (each-IsSound false _ (reject-Rounds w now validator reason) rs d batch)

  pub batch_reject-Ends :
      (ids : List ℕ) (raw : Option String)
      → Ends d (KeptFrom d) (batch_reject_milestones w now validator ids raw)
  unfolding batch_reject_milestones
  batch_reject-Ends ids raw = search (ends_rules, Ends-pending_batch-bind, reject_each_end)

  approve_appeal_end :
      (r : MilestoneReport) (asked : Bool) (tx : Option String)
      → IsUndecided r.id d
      → Ends d (KeptFrom d) (modify (approve_appeal w now validator r asked tx))
  approve_appeal_end r asked tx u =
      Ends-call d (KeptFrom d) (λ s. (tt, approve_appeal w now validator r asked tx s))
        (decided-IsSound u (approve_appeal-Decides w now validator r d asked tx))

  resolved_end :
      (r : MilestoneReport) (yes : Bool) (reason : Option String)
      → IsUndecided r.id d
      → Ends d (KeptFrom d) (resolved w now validator r yes reason)
  resolved_end r true reason u =
      Ends-if d (KeptFrom d) w.configured _ _ (search (ends_rules, approve_appeal_end))
        (approve_appeal_end r false none u)
  resolved_end r false reason u =
      Ends-call d (KeptFrom d)
        (λ s. (tt, reject_appeal w now validator r (clean_reason w reason) s))
        (decided-IsSound u (reject_appeal-Decides w now validator r d (clean_reason w reason)))

  pub resolve_appeal-Ends :
      (param : Option ℕ) (approved : Option Bool) (reason : Option String)
      → Ends d (KeptFrom d) (resolve_appeal w now validator param approved reason)
  unfolding resolve_appeal
  resolve_appeal-Ends param approved reason =
      search (ends_rules, resolved_end, appealed-IsUndecided) depth 16
