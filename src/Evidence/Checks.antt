-- ===== src/Evidence/Checks.antt =====
-- What a verified result says of the pull request, and of the report that is approved with it
-- (server/src/services/github-oracle.service.ts, server/src/controllers/admin-milestones.controller.ts).
use learnvault.Prelude.{
  ℕ, ◌≡◌, ◌≤◌, ◌⊎◌, refl, ap, sym, ◌∙◌, String, Option, none, some, List, [], Bool, Bool-cases, inl,
  inr, true, false, ◌&&◌, eq_iff, arith,
}
use learnvault.Http.{done, is_blank}
use learnvault.Milestone.Types.{MilestoneReport, OracleResult}
use learnvault.Milestone.Memory.{get_report_by_id}
use learnvault.Admin.Desk.{Desk, World, answered}
use learnvault.Admin.Decisions.{is_empty, approve_milestone}
use learnvault.Admin.Oracle.{approved-IsVerified}
use learnvault.Evidence.Url.{ParsedPullRequest, parse_pull_request_url}
use learnvault.Evidence.Oracle.{
  Github, Pull, GithubOraclePayload, build_evidence_payload, window_check, to_time, normalize_login,
  is_author, author_matches, is_after, is_before, unless, evaluate_checks, result_of, fetched,
  verify_parsed, verify_milestone_report_evidence, resolve_github_login,
  resolve_milestone_window_start, or_empty, or_false,
}

unless-is_empty :
    (ok : Bool) (reason : String) (rest : List String)
    → is_empty (unless ok reason rest) ≡ ok && is_empty rest
unless-is_empty true reason rest = refl
unless-is_empty false reason rest = refl

and_assoc : (a b c : Bool) → (a && b) && c ≡ a && (b && c)
and_assoc true b c = refl
and_assoc false b c = refl

merged_true : (o : Option Bool) → or_false o ≡ true → o ≡ some true
merged_true none e = absurd (cc)
merged_true (some b) e = ap some e

two_reasons : (a b : Bool) (x y : String) → is_empty (unless a x (unless b y [])) ≡ a && b
two_reasons true true x y = refl
two_reasons true false x y = refl
two_reasons false b x y = refl

module _ (g : Github) where
  window-is_empty :
      (start end merged : Option ℕ)
      → is_empty (window_check g start end merged).1 ≡ (window_check g start end merged).0
  window-is_empty none none merged = refl
  window-is_empty none (some e) none = refl
  window-is_empty (some s) e none = refl
  window-is_empty none (some e) (some t) = two_reasons true (is_before g (some e) t) "" _
  window-is_empty (some s) e (some t) = two_reasons (is_after g (some s) t) (is_before g e t) _ _

  -- A check of a pull request is passed exactly if it gives no reason against it.
  evaluate-is_empty :
      (payload : GithubOraclePayload) (expected : Option String) (start end : Option ℕ)
      → (evaluate_checks g payload expected start end).verified
        ≡ is_empty (evaluate_checks g payload expected start end).reasons
  evaluate-is_empty payload expected start end =
      rw
        (
          unless-is_empty payload.merged,
          unless-is_empty (author_matches g payload expected),
          window-is_empty start end (to_time g payload.merged_at),
        )
        (and_assoc payload.merged (author_matches g payload expected) _)

  -- Not before the moment from which the window is open, if there is one.
  abbrev IsFrom : Option ℕ → ℕ → Type 0
  IsFrom none t = Unit {0}
  IsFrom (some start) t = start ≤ t

  -- A merge at a moment that is not after the report's submission, nor before its milestone was created.
  record IsTimely (r : MilestoneReport) (merged_at : Option String) : Type 0 where
    moment : ℕ
    merged : to_time g merged_at ≡ some moment
    submitted : moment ≤ r.submitted_at
    created : IsFrom (resolve_milestone_window_start g r.course_id r.milestone_id) moment

  -- The evidence of a report is the URL of a pull request that was merged in time, and by the account that
  -- the lookup of the scholar's profile gives, if it gives one.
  pub record IsProven (r : MilestoneReport) : Type 0 where
    parsed : ParsedPullRequest
    pull : Pull
    url : parse_pull_request_url g.number_of (or_empty r.evidence_github) ≡ some parsed
    fetch : g.fetch parsed.owner parsed.repo parsed.pull_number ≡ some pull
    merged : pull.merged ≡ some true
    author :
        (is_blank (resolve_github_login g r.scholar_address) ≡ true)
        ⊎ (normalize_login g pull.login
            ≡ normalize_login g (resolve_github_login g r.scholar_address))
    timely : IsTimely r pull.merged_at

  merged-IsTimely :
      (r : MilestoneReport) (merged_at : Option String) (start merged_time : Option ℕ)
      → resolve_milestone_window_start g r.course_id r.milestone_id ≡ start
      → to_time g merged_at ≡ merged_time
      → (window_check g start (some r.submitted_at) merged_time).0 ≡ true
      → IsTimely r merged_at
  merged-IsTimely r m none none s e h = absurd (cc)
  merged-IsTimely r m (some x) none s e h = absurd (cc)
  merged-IsTimely r m none (some t) s e h = record {
    moment = t;
    merged = e;
    submitted = ground arith;
    created = rw s tt;
  }
  merged-IsTimely r m (some x) (some t) s e h = record {
    moment = t;
    merged = e;
    submitted = ground arith;
    created = rw s (ground arith);
  }

  authored :
      (payload : GithubOraclePayload) (expected : Option String)
      → author_matches g payload expected ≡ true
      → (is_blank expected ≡ true)
        ⊎ (normalize_login g payload.author_login ≡ normalize_login g expected)
  authored payload expected h = elim (Bool-cases (is_blank expected)) [
    | inl b ↦ inl b
    | inr b ↦
        let own : is_author g payload expected ≡ true = rw b at h in
        inr ((eq_iff _ _).0 (ground arith))
  ]

  fetched-IsProven :
      (r : MilestoneReport) (result : OracleResult) (p : ParsedPullRequest) (o : Option Pull)
      → parse_pull_request_url g.number_of (or_empty r.evidence_github) ≡ some p
      → g.fetch p.owner p.repo p.pull_number ≡ o
      → fetched g p
          (resolve_github_login g r.scholar_address)
          (resolve_milestone_window_start g r.course_id r.milestone_id)
          (some r.submitted_at)
          o
        ≡ answered result
      → result.verified ≡ true
      → IsProven r
  fetched-IsProven r result p none url fetch e v = absurd (cc)
  fetched-IsProven r result p (some pull) url fetch e v =
      let login = resolve_github_login g r.scholar_address in
      let start = resolve_milestone_window_start g r.course_id r.milestone_id in
      let payload = build_evidence_payload p pull in
      let passed : (evaluate_checks g payload login start (some r.submitted_at)).verified ≡ true =
        let same : result_of g payload (evaluate_checks g payload login start (some r.submitted_at))
            ≡ result =
          cc in
        ap (λ (x : OracleResult). x.verified) same ∙ v in
      record {
        parsed = p;
        pull = pull;
        url = url;
        fetch = fetch;
        merged = merged_true pull.merged (ground arith);
        author = authored payload login (ground arith);
        timely =
            merged-IsTimely r pull.merged_at start (to_time g pull.merged_at) refl refl
              (ground arith);
      }

  -- A result that is verified says so of the evidence.
  verified-IsProven :
      (r : MilestoneReport) (result : OracleResult)
      → verify_milestone_report_evidence g r ≡ answered result
      → result.verified ≡ true
      → IsProven r
  unfolding verify_milestone_report_evidence
  verified-IsProven r result e v =
      go (parse_pull_request_url g.number_of (or_empty r.evidence_github)) refl e
    where
      go :
          (o : Option ParsedPullRequest)
          → parse_pull_request_url g.number_of (or_empty r.evidence_github) ≡ o
          → verify_parsed g
              (resolve_github_login g r.scholar_address)
              (resolve_milestone_window_start g r.course_id r.milestone_id)
              (some r.submitted_at)
              o
            ≡ answered result
          → IsProven r
      go none url e = absurd (cc)
      go (some p) url e =
          fetched-IsProven r result p (g.fetch p.owner p.repo p.pull_number) url refl e v

-- Where the oracle is the check of GitHub evidence: a report with such evidence that an admin
-- approves by itself, without asking to override the oracle, is proven: its evidence is the URL of
-- a pull request that is merged, not after the submission of the report nor before the creation of
-- its milestone, if the lookup of the milestone gives one, and by the account that the lookup of
-- the scholar's profile gives, if it gives one. A lookup whose query fails gives nothing.
pub approved-IsProven :
    (g : Github) (w : World) (now : ℕ) (validator : String) (id : ℕ) (d : Desk)
    (r : MilestoneReport)
    → ((r : MilestoneReport) → w.oracle r ≡ verify_milestone_report_evidence g r)
    → get_report_by_id id d.store ≡ some r
    → is_blank r.evidence_github ≡ false
    → (approve_milestone w now validator (some id) false d).0 ≡ done tt
    → IsProven g r
approved-IsProven g w now validator id d r oracle stored evidence approved =
    let v = approved-IsVerified w now validator id d r stored evidence approved in
    verified-IsProven g r v.result (sym (oracle r) ∙ v.asked) v.verified
