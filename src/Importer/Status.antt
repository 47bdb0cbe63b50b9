-- ===== src/Importer/Status.antt =====
-- The importer's shared status and the small methods that read and change it
-- (internal/subimporter/importer.go). Every method holds the importer's lock, so each is one step.
-- The log buffer is not kept; counters are Go ints that stay far below 2 ^ 63.
use listnun.Prelude.{
  ℕ, ◌+◌, Bool, true, false, not, Option, List, [], ◌∷◌, ◌++◌, Text, ltb, length, if◌then◌else◌,
}

-- Status.Status; `idle` is StatusNone.
pub data Phase : Type 0 where
  idle importing stopping finished failed : Phase

-- SessionOpt.Mode, which the handler holds to these two. In the status `none` stands for the empty
-- text of a cleared import.
pub data Mode : Type 0 where
  subscribe blocklist : Mode

pub data Reason : Type 0 where
  no_email invalid_email blocked_domain columns : Reason

pub record Problem : Type 0 where
  pub row : ℕ
  pub value : Text
  pub reason : Reason

pub record Status : Type 0 where
  pub name : Text
  pub total : ℕ
  pub imported : ℕ
  pub added : ℕ
  pub risky : ℕ
  pub skipped : ℕ
  pub failed : ℕ
  pub pending : ℕ
  pub status : Phase
  pub problems : List Problem
  pub mode_name : Option Mode

-- The status that Go's zero values give, but for the three fields that the code sets.
unfoldable pub fresh : Phase → Text → Option Mode → Status
fresh phase name mode = record {
  name = name;
  total = 0;
  imported = 0;
  added = 0;
  risky = 0;
  skipped = 0;
  failed = 0;
  pending = 0;
  status = phase;
  problems = [];
  mode_name = mode;
}

abbrev pub max_problems : ℕ
max_problems = 1000

-- addProblem: the count stays exact when the list is full.
unfoldable pub add_problem : Problem → Status → Status
add_problem p s = record s {
  skipped = s.skipped + 1;
  problems = if ltb (length s.problems) max_problems then s.problems ++ (p ∷ []) else s.problems;
}

unfoldable pub set_status : Phase → Status → Status
set_status phase s = record s { status = phase }

abbrev pub is_working : Phase → Bool
is_working importing = true
is_working stopping = true
is_working _ = false

-- isDone
unfoldable pub is_done : Status → Bool
is_done s = not (is_working s.status)

unfoldable pub increment_import_count : ℕ → ℕ → Status → Status
increment_import_count n added s = record s { imported = s.imported + n; added = s.added + added }

unfoldable pub set_pending : ℕ → Status → Status
set_pending n s = record s { pending = n }

unfoldable pub increment_failed : ℕ → Status → Status
increment_failed n s = record s { failed = s.failed + n }

-- What the completion hook receives.
pub record ImportNotif : Type 0 where
  pub name : Text
  pub mode : Option Mode
  pub status : Phase
  pub imported : ℕ
  pub added : ℕ
  pub skipped : ℕ
  pub failed : ℕ
  pub total : ℕ

-- The value that sendNotif hands to PostCB.
unfoldable pub notif : Phase → Status → ImportNotif
notif phase s = record {
  name = s.name;
  mode = s.mode_name;
  status = phase;
  imported = s.imported;
  added = s.added;
  skipped = s.skipped;
  failed = s.failed;
  total = s.total;
}
