-- ===== src/Evidence/Tests.antt =====
-- The check of GitHub evidence on one pull request.
use Prim.Native.String.{◌++◌}
use learnvault.Prelude.{arith, ◌≡◌, refl, some, none, [], ◌∷◌, true, false}
use learnvault.Milestone.Types.{pending, MilestoneReport}
use learnvault.Milestone.Memory.{get_report_by_id}
use learnvault.Http.{done, answer, or_fail, read, call, reject_if, ◌>>=◌}
use learnvault.Admin.Desk.{answered, Desk, World}
use learnvault.Admin.Decisions.{pending_report, approve_milestone}
use learnvault.Admin.History.{opened}
use learnvault.Evidence.Url.{parse_pull_request_url, parse-url}
use learnvault.Evidence.Oracle.{
  Github, Pull, verify_milestone_report_evidence, evaluate_checks, build_evidence_payload,
}
use learnvault.Evidence.Checks.{IsProven, approved-IsProven}

abbrev pull : Pull
pull = record {
  merged = some true;
  merge_commit_sha = some "sha";
  merged_at = some "day 3";
  login = some "ada";
  html_url = none;
}

-- Milestone 1 was created at moment 2, and ada is the account of the scholar.
abbrev github : Github
github = record {
  fetch = λ owner repo n. some pull;
  to_time = λ text. some 3;
  trim = λ s. s;
  lower = λ s. s;
  hash = λ p. "hash";
  detail = λ p e. "detail";
  number_of = λ n. n;
  real_pool = true;
  user_profiles = some (record { address = "GA"; github = some "@ada" } ∷ []);
  milestones =
      some (record { course_slug = "c1"; on_chain_milestone_id = 1; created_at = some 2 } ∷ []);
}

abbrev world : World
world = record {
  configured = true;
  verify = λ id. some (some "tx");
  reject = λ id. none;
  release = λ id. none;
  oracle = λ r. verify_milestone_report_evidence github r;
  mints = λ a. true;
  milestone_count = λ c. 2;
  pin = λ scholar course. none;
  mint_nft = λ scholar uri. none;
  read_day = λ n. n;
  today = 1;
  trim = λ s. s;
  sanitize = λ s. s;
  text_length = λ s. 5;
}

abbrev waiting : MilestoneReport
waiting = record {
  id = 1;
  scholar_address = "GA";
  course_id = "c1";
  milestone_id = 1;
  evidence_github = some "https://github.com/ada/engine/pull/12#notes";
  evidence_ipfs_cid = none;
  evidence_description = none;
  status = pending;
  submitted_at = 4;
  resubmission_count = 0;
  appeal_reason = none;
  appeal_submitted_at = none;
  oracle_verified = none;
  oracle_evidence_hash = none;
  oracle_checked_at = none;
  oracle_detail = none;
}

abbrev start : Desk
start =
    opened (record { rows = []; events = [] }) (record { streaks = []; activity = []; mints = [] })
      (record { referrals = []; next_id = 1; mints = [] }) []

abbrev one_report : Desk
one_report = record start {
  store = record { reports = waiting ∷ []; audit_log = []; report_seq = 2; audit_seq = 1 };
}

one_approved : (approve_milestone world 5 "admin" (some 1) false one_report).0 ≡ done tt
unfolding approve_milestone pending_report get_report_by_id verify_milestone_report_evidence
    parse_pull_request_url answer or_fail read call reject_if ◌>>=◌
one_approved = refl

approved-IsProven_example : IsProven github waiting
unfolding get_report_by_id
approved-IsProven_example =
    approved-IsProven github world 5 "admin" 1 one_report waiting (λ r. refl) refl refl one_approved

parse-url_example :
    parse_pull_request_url
      (λ n. n)
      ("https://github.com/" ++ "ada" ++ "/" ++ "engine" ++ "/pull/" ++ "12" ++ "#notes")
    ≡ some (record { owner = "ada"; repo = "engine"; pull_number = 12 })
parse-url_example =
    parse-url (λ n. n) "ada" "engine" "12" "#notes" (λ n h. refl) refl refl refl (omega arith) refl

-- Without a number, or with text straight after it, there is no pull request.
refused :
    (parse_pull_request_url (λ n. n) "https://github.com/ada/engine/pull/" ≡ none)
    × (parse_pull_request_url (λ n. n) "https://github.com/ada/engine/pull/12x" ≡ none)
    × (parse_pull_request_url (λ n. n) "http://github.com/ada/engine/pull/12" ≡ none)
unfolding parse_pull_request_url
refused = (refl, refl, refl)

-- Merged a day before the milestone was created.
early :
    (evaluate_checks github
      (build_evidence_payload (record { owner = "ada"; repo = "engine"; pull_number = 12 }) pull)
      none
      (some 4)
      none).reasons
    ≡ "Pull request was merged before the milestone window opened." ∷ []
early = refl

-- Where the queries fail, neither the author nor the start of the window is checked.
abbrev unreachable : Github
unreachable = record github { user_profiles = none; milestones = none }

fails_open :
    verify_milestone_report_evidence unreachable
      (record waiting { scholar_address = "GB"; submitted_at = 9 })
    ≡ answered (record { verified = true; evidence_hash = "hash"; detail = "detail" })
unfolding verify_milestone_report_evidence parse_pull_request_url
fails_open = refl
