-- ===== src/Evidence/Oracle.antt =====
-- The check of a report's GitHub evidence, server/src/services/github-oracle.service.ts. What the API
-- answers, the parsing of dates, the hash and the JSON of a result are parameters; the date of a submission
-- or of a milestone is a moment already.
use Prim.Native.Char.{code}
use Prim.Native.String.{◌++◌}
use learnvault.Prelude.{
  ℕ, String, Option, none, some, List, [], ◌∷◌, Bool, true, false, not, ◌&&◌, ◌==◌, find?, ltb,
  str_eq, if◌then◌else◌,
}
use learnvault.Http.{is_blank}
use learnvault.Milestone.Types.{MilestoneReport, OracleResult}
use learnvault.Admin.Desk.{OracleAnswer, answered, invalid_url, api_error}
use learnvault.Evidence.Url.{ParsedPullRequest, parse_pull_request_url}

-- What the API says of a pull request, of which any part may be missing.
pub record Pull : Type 0 where
  pub merged : Option Bool
  pub merge_commit_sha : Option String
  pub merged_at : Option String
  pub login : Option String
  pub html_url : Option String

pub record GithubOraclePayload : Type 0 where
  pub owner : String
  pub repo : String
  pub pull_number : ℕ
  pub merged : Bool
  pub merge_commit_sha : Option String
  pub merged_at : Option String
  pub author_login : Option String
  pub html_url : Option String

pub record Evaluation : Type 0 where
  pub merged : Bool
  pub author_matches : Bool
  pub within_window : Bool
  pub verified : Bool
  pub reasons : List String

pub record UserProfile : Type 0 where
  pub address : String
  pub github : Option String

-- A row of milestones with the slug of its course.
pub record MilestoneRow : Type 0 where
  pub course_slug : String
  pub on_chain_milestone_id : ℕ
  pub created_at : Option ℕ

-- `fetch` gives none where the API's answer is no success, `to_time` none where the text is no date.
-- `number_of` is `Number` of digits. A table is none where the query of it fails.
pub record Github : Type 0 where
  pub fetch : String → String → ℕ → Option Pull
  pub number_of : ℕ → ℕ
  pub to_time : String → Option ℕ
  pub trim : String → String
  pub lower : String → String
  pub hash : GithubOraclePayload → String
  pub detail : GithubOraclePayload → Evaluation → String
  pub real_pool : Bool
  pub user_profiles : Option (List UserProfile)
  pub milestones : Option (List MilestoneRow)

abbrev pub or_false : Option Bool → Bool
or_false none = false
or_false (some b) = b

abbrev pub build_evidence_payload : ParsedPullRequest → Pull → GithubOraclePayload
build_evidence_payload parsed pull = record {
  owner = parsed.owner;
  repo = parsed.repo;
  pull_number = parsed.pull_number;
  merged = or_false pull.merged;
  merge_commit_sha = pull.merge_commit_sha;
  merged_at = pull.merged_at;
  author_login = pull.login;
  html_url = pull.html_url;
}

abbrev pub or_empty : Option String → String
or_empty none = ""
or_empty (some text) = text

abbrev pub or_unknown : Option String → String
or_unknown none = "unknown"
or_unknown (some text) = text

-- `.replace(/^@/, "")`
abbrev pub strip_at : String → String
strip_at String.[] = ""
strip_at (String.◌∷◌ c s) = if code c == 64 then s else String.◌∷◌ c s

-- A reason, unless the check passes.
abbrev pub unless : Bool → String → List String → List String
unless ok reason rest = if ok then rest else reason ∷ rest

module _ (g : Github) where
  abbrev pub to_time : Option String → Option ℕ
  to_time none = none
  to_time (some text) = if str_eq text "" then none else g.to_time text

  abbrev pub normalize_login : Option String → String
  normalize_login login = g.lower (strip_at (g.trim (or_empty login)))

  abbrev pub is_author : GithubOraclePayload → Option String → Bool
  is_author payload expected =
      not (str_eq (normalize_login payload.author_login) "")
      && str_eq (normalize_login payload.author_login) (normalize_login expected)

  -- Where no login is expected, any author will do.
  abbrev pub author_matches : GithubOraclePayload → Option String → Bool
  author_matches payload expected = if is_blank expected then true else is_author payload expected

  abbrev pub is_after : Option ℕ → ℕ → Bool
  is_after none t = true
  is_after (some start) t = not (ltb t start)

  abbrev pub is_before : Option ℕ → ℕ → Bool
  is_before none t = true
  is_before (some end) t = not (ltb end t)

  -- Whether the pull request was merged in the window, and the reasons why not.
  abbrev pub window_check : Option ℕ → Option ℕ → Option ℕ → Bool × List String
  window_check none none merged_time = (true, [])
  window_check start end none =
      (false, "Pull request has no merge timestamp to validate against the milestone window." ∷ [])
  window_check start end (some t) = (
    is_after start t && is_before end t,
    unless (is_after start t) "Pull request was merged before the milestone window opened."
        (unless (is_before end t) "Pull request was merged after the milestone window closed." []),
  )

  abbrev pub evaluate_checks :
      GithubOraclePayload → Option String → Option ℕ → Option ℕ → Evaluation
  evaluate_checks payload expected start end =
      let (within_window, late) = window_check start end (to_time payload.merged_at) in
      let by_author = author_matches payload expected in
      record {
        merged = payload.merged;
        author_matches = by_author;
        within_window = within_window;
        verified = payload.merged && by_author && within_window;
        reasons = unless payload.merged "Pull request is not merged." (
            unless by_author
              ("Pull request author \""
                ++ or_unknown payload.author_login
                ++ "\" does not match linked GitHub account \""
                ++ or_empty expected
                ++ "\".")
              late);
      }

  abbrev pub result_of : GithubOraclePayload → Evaluation → OracleResult
  result_of payload e = record {
    verified = e.verified;
    evidence_hash = g.hash payload;
    detail = g.detail payload e;
  }

  abbrev pub fetched :
      ParsedPullRequest → Option String → Option ℕ → Option ℕ → Option Pull → OracleAnswer
  fetched parsed expected start end none = api_error
  fetched parsed expected start end (some pull) =
      let payload = build_evidence_payload parsed pull in
      answered (result_of payload (evaluate_checks payload expected start end))

  abbrev pub verify_parsed :
      Option String → Option ℕ → Option ℕ → Option ParsedPullRequest → OracleAnswer
  verify_parsed expected start end none = invalid_url
  verify_parsed expected start end (some p) =
      fetched p expected start end (g.fetch p.owner p.repo p.pull_number)

  abbrev pub verify_github_evidence : String → Option String → Option ℕ → Option ℕ → OracleAnswer
  verify_github_evidence url expected start end =
      verify_parsed expected start end (parse_pull_request_url g.number_of url)

  abbrev pub github_of : Option UserProfile → Option String
  github_of none = none
  github_of (some p) = p.github

  -- A query that fails gives null, as a missing row does.
  abbrev pub login_in : String → Option (List UserProfile) → Option String
  login_in scholar none = none
  login_in scholar (some rows) = github_of (find? (λ p. str_eq p.address scholar) rows)

  abbrev pub resolve_github_login : String → Option String
  resolve_github_login scholar = if g.real_pool then login_in scholar g.user_profiles else none

  abbrev pub created_of : Option MilestoneRow → Option ℕ
  created_of none = none
  created_of (some m) = m.created_at

  abbrev pub created_in : String → ℕ → Option (List MilestoneRow) → Option ℕ
  created_in course milestone none = none
  created_in course milestone (some rows) =
      created_of
        (find? (λ m. str_eq m.course_slug course && m.on_chain_milestone_id == milestone) rows)

  abbrev pub resolve_milestone_window_start : String → ℕ → Option ℕ
  resolve_milestone_window_start course milestone =
      if g.real_pool then created_in course milestone g.milestones else none

  -- For a report that has evidence.
  unfoldable pub verify_milestone_report_evidence : MilestoneReport → OracleAnswer
  verify_milestone_report_evidence r =
      verify_github_evidence (or_empty r.evidence_github) (resolve_github_login r.scholar_address)
        (resolve_milestone_window_start r.course_id r.milestone_id) (some r.submitted_at)
