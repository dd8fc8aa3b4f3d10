-- ===== src/Evidence/Url.antt =====
-- `parsePullRequestUrl` of server/src/services/github-oracle.service.ts, the expression PR_URL_RE as a
-- parser of the characters from left to right: each of its parts ends at the first character that it does
-- not take, so there is nothing to go back to.
use Prim.Native.Char.{Char, code}
use Prim.Native.String.{[], ◌∷◌, ◌++◌}
use Prim.Native.String.append
use learnvault.Prelude.{
  ◌≤◌, ◌^◌, ℕ, ◌≡◌, refl, sym, ap, ◌∙◌, ◌+◌, ◌-◌, ◌*◌, String, Option, none, some, Bool, true,
  false, not, ◌&&◌, ◌||◌, ◌==◌, leb, if◌then◌else◌, arith,
}

pub record ParsedPullRequest : Type 0 where
  pub owner : String
  pub repo : String
  pub pull_number : ℕ

abbrev pub is_slash : Char → Bool
is_slash c = code c == 47

-- `\d`
abbrev pub is_digit : Char → Bool
is_digit c = leb 48 (code c) && leb (code c) 57

-- What `.` does not match.
abbrev pub is_line_end : Char → Bool
is_line_end c = code c == 10 || code c == 13 || code c == 8232 || code c == 8233

abbrev pub strip_prefix : String → String → Option String
strip_prefix [] s = some s
strip_prefix (c ∷ p) [] = none
strip_prefix (c ∷ p) (d ∷ s) =
    let rest = strip_prefix p s in if code c == code d then rest else none

abbrev pub prefixed : Char → Option (String × String) → Option (String × String)
prefixed c none = none
prefixed c (some (text, rest)) = some (c ∷ text, rest)

-- The text before the first slash, and the text after it.
abbrev pub till_slash : String → Option (String × String)
till_slash [] = none
till_slash (c ∷ s) =
    let rest = prefixed c (till_slash s) in if is_slash c then some ([], s) else rest

-- `([^/]+)\/`
abbrev pub segment : String → Option (String × String)
segment [] = none
segment (c ∷ s) = if is_slash c then none else prefixed c (till_slash s)

-- The number that the digits before the rest continue.
abbrev pub digits : ℕ → String → ℕ × String
digits n [] = (n, [])
digits n (c ∷ s) =
    let more = digits (n * 10 + (code c - 48)) s in if is_digit c then more else (n, c ∷ s)

-- `(\d+)`
abbrev pub number : String → Option (ℕ × String)
number [] = none
number (c ∷ s) = if is_digit c then some (digits 0 (c ∷ s)) else none

abbrev pub is_one_line : String → Bool
is_one_line [] = true
is_one_line (c ∷ s) = not (is_line_end c) && is_one_line s

-- `(?:[/?#].*)?$`
abbrev pub is_end : String → Bool
is_end [] = true
is_end (c ∷ s) = (is_slash c || code c == 63 || code c == 35) && is_one_line s

-- `Number` of the digits' value is a parameter: it is that value as far as a double holds it exactly.
module _ (number_of : ℕ → ℕ) where
  abbrev pub ended : String → String → Option (ℕ × String) → Option ParsedPullRequest
  ended owner repo none = none
  ended owner repo (some (n, rest)) =
      if is_end rest
      then some (record { owner = owner; repo = repo; pull_number = number_of n })
      else none

  abbrev pub with_pull : String → String → Option String → Option ParsedPullRequest
  with_pull owner repo none = none
  with_pull owner repo (some s) = ended owner repo (number s)

  abbrev pub with_repo : String → Option (String × String) → Option ParsedPullRequest
  with_repo owner none = none
  with_repo owner (some (repo, s)) = with_pull owner repo (strip_prefix "pull/" s)

  abbrev pub with_owner : Option (String × String) → Option ParsedPullRequest
  with_owner none = none
  with_owner (some (owner, s)) = with_repo owner (segment s)

  abbrev pub with_host : Option String → Option ParsedPullRequest
  with_host none = none
  with_host (some s) = with_owner (segment s)

  unfoldable pub parse_pull_request_url : String → Option ParsedPullRequest
  parse_pull_request_url url = with_host (strip_prefix "https://github.com/" url)

abbrev all : (Char → Bool) → String → Bool
all p [] = true
all p (c ∷ s) = p c && all p s

-- A name in a URL: not empty, and without a slash.
abbrev is_name : String → Bool
is_name [] = false
is_name (c ∷ s) = all (λ c. not (is_slash c)) (c ∷ s)

-- Digits, at least one, and their value.
abbrev is_numeral : String → Bool
is_numeral [] = false
is_numeral (c ∷ s) = all is_digit (c ∷ s)

abbrev value_from : ℕ → String → ℕ
value_from n [] = n
value_from n (c ∷ s) = value_from (n * 10 + (code c - 48)) s

abbrev pub value : String → ℕ
value s = value_from 0 s

strip_prefix-append : (p s : String) → strip_prefix p (p ++ s) ≡ some s
strip_prefix-append [] s = rw (append.nil s) refl
strip_prefix-append (c ∷ p) s = rw (append.cons c p s) (ground (arith, strip_prefix-append p s))

slash : (s : String) → "/" ++ s ≡ "/" ∷ s
slash s = append.cons "/" "" s ∙ (rw (append.nil s) refl)

till_slash-append :
    (name s : String)
    → all (λ c. not (is_slash c)) name ≡ true
    → till_slash (name ++ "/" ++ s) ≡ some (name, s)
till_slash-append [] s h = rw (append.nil ("/" ++ s), slash s) refl
till_slash-append (c ∷ name) s h =
    let own : is_slash c ≡ false = ground arith in
    rw (append.cons c name ("/" ++ s), own, till_slash-append name s (ground arith)) refl

segment-append :
    (name s : String) → is_name name ≡ true → segment (name ++ "/" ++ s) ≡ some (name, s)
segment-append [] s h = absurd (cc)
segment-append (c ∷ name) s h =
    let own : is_slash c ≡ false = ground arith in
    rw (append.cons c name ("/" ++ s), own, till_slash-append name s (ground arith)) refl

digits-end : (n : ℕ) (rest : String) → is_end rest ≡ true → digits n rest ≡ (n, rest)
digits-end n [] h = refl
digits-end n (c ∷ s) h = let own : is_digit c ≡ false = ground arith in rw own refl

digits-append :
    (n : ℕ) (ds rest : String)
    → all is_digit ds ≡ true
    → is_end rest ≡ true
    → digits n (ds ++ rest) ≡ (value_from n ds, rest)
digits-append n [] rest h e = rw (append.nil rest) (digits-end n rest e)
digits-append n (c ∷ ds) rest h e =
    let own : is_digit c ≡ true = ground arith in
    rw (append.cons c ds rest, own)
      (digits-append (n * 10 + (code c - 48)) ds rest (ground arith) e)

number-append :
    (ds rest : String)
    → is_numeral ds ≡ true
    → is_end rest ≡ true
    → number (ds ++ rest) ≡ some (value ds, rest)
number-append [] rest h e = absurd (cc)
number-append (c ∷ ds) rest h e =
    let own : is_digit c ≡ true = ground arith in
    rw (append.cons c ds rest, own)
      (ap some (digits-append (0 * 10 + (code c - 48)) ds rest (ground arith) e))

pull_prefix : (s : String) → "/pull/" ++ s ≡ "/" ++ "pull/" ++ s
pull_prefix s = append.cons "/" "pull/" s ∙ sym (slash ("pull/" ++ s))

-- The numbers up to which a double holds every one.
abbrev pub exact_limit : ℕ
exact_limit = 2 ^ 53

-- Where Number gives back the numbers up to 2 to the power 53: a URL of a pull request on GitHub,
-- with an owner and a repository that are not empty and hold no slash, a number in digits of a
-- value up to that one, and perhaps a slash, a question mark or a hash with one line of text after
-- it, is read as that owner, that repository and the number that the digits write.
pub parse-url :
    (number_of : ℕ → ℕ) (owner repo ds rest : String)
    → ((n : ℕ) → n ≤ exact_limit → number_of n ≡ n)
    → is_name owner ≡ true
    → is_name repo ≡ true
    → is_numeral ds ≡ true
    → value ds ≤ exact_limit
    → is_end rest ≡ true
    → parse_pull_request_url number_of
        ("https://github.com/" ++ owner ++ "/" ++ repo ++ "/pull/" ++ ds ++ rest)
      ≡ some (record { owner = owner; repo = repo; pull_number = value ds })
unfolding parse_pull_request_url
parse-url number_of owner repo ds rest exact o r d small e =
    rw
      (
        strip_prefix-append "https://github.com/" (owner ++ "/" ++ repo ++ "/pull/" ++ ds ++ rest),
        segment-append owner (repo ++ "/pull/" ++ ds ++ rest) o,
        pull_prefix (ds ++ rest),
        segment-append repo ("pull/" ++ ds ++ rest) r,
        strip_prefix-append "pull/" (ds ++ rest),
        number-append ds rest d e,
        e,
        exact (value ds) small,
      )
      refl
