-- ===== src/Bounty/Request.antt =====
-- What the handlers of server/src/controllers/bounty.controller.ts share: the state behind a request
-- and the checks of its caller and its id. What reads and prints texts and numbers is a record of
-- functions.
use learnvault.Prelude.{ℕ, String, Option, none, some, List, str_eq, if◌then◌else◌}
use learnvault.Bounty.Types.{Db}
use learnvault.Http
use learnvault.Http.{or_fail, positive_id}

-- What `releaseEscrow` and `mintLrnReward` log, each with the bounty and the learner.
pub record Payment : Type 0 where
  pub bounty_id : ℕ
  pub learner_addr : String

pub record Server : Type 0 where
  pub db : Db
  pub releases : List Payment
  pub mints : List Payment

-- `parse_reward` is `Number.parseFloat` printed again, none where the number is not finite or not
-- positive; `lrn_amount` is `Math.ceil(Number(x) * 10)`, 0 where that is not positive; `print` prints a
-- number. `numeric` is the number as NUMERIC(20, 7) stores it, rounded, none where it does not fit or
-- CHECK (reward_usdc > 0) refuses it.
pub record Env : Type 0 where
  pub lower : String → String
  pub trim : String → String
  pub text_length : String → ℕ
  pub parse_reward : Option String → Option String
  pub numeric : String → Option String
  pub lrn_amount : String → ℕ
  pub print : ℕ → String

abbrev pub Action : Type 0 → Type 0
Action A = Http.Action Server A

-- A query of the store.
abbrev pub query : {A : Type 0} → (Db → A × Db) → Server → A × Server
query f s = ((f s.db).0, record s { db = (f s.db).1 })

abbrev pub normalize_address : Env → Option String → Option String
normalize_address env none = none
normalize_address env (some a) =
    if str_eq (env.trim a) "" then none else some (env.lower (env.trim a))

abbrev pub caller : Env → Option String → Action String
caller env who = or_fail (normalize_address env who) 401 "Authentication required"

abbrev pub bounty_id : Option ℕ → Action ℕ
bounty_id id = or_fail (positive_id id) 400 "Invalid bounty ID"
