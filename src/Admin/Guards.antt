-- ===== src/Admin/Guards.antt =====
-- What the guards of the decisions establish, for one report and for a batch
-- (server/src/controllers/admin-milestones.controller.ts).
use learnvault.Prelude.{
  ℕ, ◌≡◌, refl, String, Option, none, some, List, [], ◌∷◌, All, true, false, not, ◌==◌, any, ==_iff,
  arith, find?-holds,
}
use learnvault.Milestone.Types.{pending, appealed, MilestoneReport, Store, status_eq, has_id}
use learnvault.Milestone.Memory.{get_report_by_id}
use learnvault.Http.{◌>>=◌}
use learnvault.Http.Ends.{Ends, ends_rules, Ends-guards-bind}
use learnvault.Admin.Desk.{Desk, World}
use learnvault.Admin.Decisions.{
  Action, pending_report, pending_batch, load_reports, loaded_or_none, has_duplicates,
  are_milestone_ids,
}
use learnvault.Admin.Accounts.{is_approved, IsUndecided}

module _ (id : ℕ) (r : MilestoneReport) (d : Desk)
    (found : get_report_by_id id d.store ≡ some r) where
  stored-IsUndecided : is_approved (some r.status) ≡ false → IsUndecided r.id d
  unfolding get_report_by_id
  stored-IsUndecided unapproved =
      let own : r.id ≡ id = (==_iff _ _).0 (find?-holds (has_id id) d.store.reports r found) in
      record { status = r.status; stored = rw (own, found) refl; unapproved = unapproved }

  pending-IsUndecided : not (status_eq r.status pending) ≡ false → IsUndecided r.id d
  pending-IsUndecided still = stored-IsUndecided (ground arith)

  pub appealed-IsUndecided : not (status_eq r.status appealed) ≡ false → IsUndecided r.id d
  appealed-IsUndecided still = stored-IsUndecided (ground arith)

pub pending_report-Ends :
    (w : World) (param : Option ℕ) (d : Desk)
    → Ends d (λ r d'. (d' ≡ d) × IsUndecided r.id d) (pending_report w param)
unfolding pending_report
pending_report-Ends w param d = search (ends_rules, pending-IsUndecided) depth 16

-- The reports of a batch are stored, undecided and distinct.
abbrev pub IsBatch : Desk → List MilestoneReport → Type 0
IsBatch d [] = Unit {0}
IsBatch d (r ∷ rs) = IsUndecided r.id d × All (λ x. (r.id == x.id) ≡ false) rs × IsBatch d rs

record Loaded (o : Option MilestoneReport) (l : Option (List MilestoneReport))
    (rs : List MilestoneReport) : Type 0 where
  row : MilestoneReport
  rest : List MilestoneReport
  found : o ≡ some row
  loaded : l ≡ some rest
  whole : rs ≡ row ∷ rest

Loaded-cases :
    (o : Option MilestoneReport) (l : Option (List MilestoneReport)) (rs : List MilestoneReport)
    → loaded_or_none o l ≡ some rs
    → Loaded o l rs
Loaded-cases none l rs e = absurd (cc)
Loaded-cases (some r) none rs e = absurd (cc)
Loaded-cases (some r) (some rest) rs e = record {
  row = r;
  rest = rest;
  found = refl;
  loaded = refl;
  whole = cc;
}

module _ (s : Store) where
  load_others :
      (id : ℕ) (ids : List ℕ) (rs : List MilestoneReport)
      → load_reports ids s ≡ some rs
      → any (λ x. x == id) ids ≡ false
      → All (λ r. (id == r.id) ≡ false) rs
  unfolding get_report_by_id
  load_others id [] rs e h = let same : rs ≡ [] = cc in rw same tt
  load_others id (x ∷ ids) rs e h =
      let l = Loaded-cases (get_report_by_id x s) (load_reports ids s) rs e in
      let own : has_id x l.row ≡ true = find?-holds (has_id x) s.reports l.row l.found in
      let rest = load_others id ids l.rest l.loaded (ground arith) in
      rw l.whole (ground arith, rest)

module _ (d : Desk) where
  load-IsBatch :
      (ids : List ℕ) (rs : List MilestoneReport)
      → load_reports ids d.store ≡ some rs
      → has_duplicates ids ≡ false
      → any (λ r. not (status_eq r.status pending)) rs ≡ false
      → IsBatch d rs
  unfolding get_report_by_id
  load-IsBatch [] rs e distinct still = let same : rs ≡ [] = cc in rw same tt
  load-IsBatch (x ∷ ids) rs e distinct still =
      let l = Loaded-cases (get_report_by_id x d.store) (load_reports ids d.store) rs e in
      let own : l.row.id ≡ x =
        (==_iff _ _).0 (find?-holds (has_id x) d.store.reports l.row l.found) in
      let tests : any (λ r. not (status_eq r.status pending)) (l.row ∷ l.rest) ≡ false =
        rw l.whole at still in
      let others : All (λ r. (x == r.id) ≡ false) l.rest =
        load_others d.store x ids l.rest l.loaded (ground arith) in
      let rest = load-IsBatch ids l.rest l.loaded (ground arith) (ground arith) in
      rw l.whole (pending-IsUndecided x l.row d l.found (ground arith), rw own others, rest)

  load_all-IsBatch :
      (ids : List ℕ) (rs : List MilestoneReport)
      → not (are_milestone_ids ids) ≡ false
      → load_reports ids d.store ≡ some rs
      → any (λ r. not (status_eq r.status pending)) rs ≡ false
      → IsBatch d rs
  load_all-IsBatch ids rs valid e still = load-IsBatch ids rs e (ground arith) still

  pub pending_batch-Ends :
      (w : World) (text : String) (ids : List ℕ)
      → Ends d (λ rs d'. (d' ≡ d) × IsBatch d rs) (pending_batch w text ids)
  unfolding pending_batch
  pending_batch-Ends w text ids = search (ends_rules, load_all-IsBatch) depth 16

-- What may follow the guards.
module _ {A : Type 0} (w : World) (d : Desk) (R : A → Desk → Type 0) where
  pub Ends-pending_report-bind :
      (param : Option ℕ) (k : MilestoneReport → Action A)
      → ((r : MilestoneReport) → IsUndecided r.id d → Ends d R (k r))
      → Ends d R (pending_report w param >>= k)
  Ends-pending_report-bind param k h =
      Ends-guards-bind d R (λ r. IsUndecided r.id d) (pending_report w param) k
        (pending_report-Ends w param d) h

  pub Ends-pending_batch-bind :
      (text : String) (ids : List ℕ) (k : List MilestoneReport → Action A)
      → ((rs : List MilestoneReport) → IsBatch d rs → Ends d R (k rs))
      → Ends d R (pending_batch w text ids >>= k)
  Ends-pending_batch-bind text ids k h =
      Ends-guards-bind d R (IsBatch d) (pending_batch w text ids) k
        (pending_batch-Ends d w text ids) h
