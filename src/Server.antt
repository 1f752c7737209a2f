-- ===== src/Server.antt =====
-- video-converter-master/internal/server/http.go: requests, answers and what the handlers share.
-- A handler is a method of the tracker's monad that always answers; the text of an error
-- is left out of the answer.
pub mod Assign
pub mod Reports
pub mod Operator
pub mod Cancel
pub mod Fleet
pub mod Lawful
pub mod Limiter
pub mod Submit
pub mod Verdicts
pub mod Video
pub mod Upload
pub mod Settings
use Prim.Native.Char.{Char, code}
use Prim.Native.String.{len}
use dark_stream.Common.{
  ℕ, zero, suc, Bool, true, false, ◌&&◌, ◌||◌, not, List, [], ◌∷◌, Option, none, some, String,
  if◌then◌else◌, ltb, leb, ◌==◌, str_eq, ℤ, pos, negsuc,
}
use dark_stream.Models.{Job, WorkerHeartbeat, Status, WorkerSettings, JobProgress}
use dark_stream.Metrics.{Effect}
use dark_stream.Tracker.{M, pure}

pub data Method : Type 0 where
  get post put delete other : Method

abbrev method_rank : Method → ℕ
method_rank get = 0
method_rank post = 1
method_rank put = 2
method_rank delete = 3
method_rank other = 4

abbrev pub method_eq : Method → Method → Bool
method_eq a b = method_rank a == method_rank b

-- The JSON that a handler writes: one job, a bare array of jobs, or an object.
pub data Body : Type 0 where
  empty : Body
  one_job : Job → Body
  bare_list : List Job → Body
  batch : List Job → Body
  retried : ℕ → Body
  pruned : ℕ → Body
  cancelled_jobs : ℕ → ℕ → List String → Body
  job_id : String → Body
  worker_list : List WorkerHeartbeat → Body
  file_size : ℕ → Body
  worker_settings : WorkerSettings → Body
  job_progress : JobProgress → Body
  job_status : Job → Body

pub record Response : Type 0 where
  pub code : ℕ
  pub body : Body
  pub effects : List Effect

-- An answer that is a status code only, as `http.Error` and `WriteHeader` give it.
abbrev pub status_only : ℕ → Response
status_only n = record { code = n; body = empty; effects = [] }

abbrev pub refuse : ℕ → M Response
refuse n = pure (status_only n)

abbrev pub answer : Body → List Effect → M Response
answer b effects = pure (record { code = 200; body = b; effects = effects })

-- The guard on the method that the handlers begin with.
abbrev pub only : Method → Method → M Response → M Response
only expected actual handler = if method_eq actual expected then handler else refuse 405

-- `parseInt` of a query parameter, if it is given and can be read.
pub data Param : Type 0 where
  missing malformed : Param
  number : ℤ → Param

-- The limit that a request asks for; `none` where the handler answers 400.
abbrev pub limit_of : ℕ → Param → Option ℕ
limit_of default missing = some default
limit_of default malformed = none
limit_of default (number (pos zero)) = none
limit_of default (number (pos (suc n))) = some (suc n)
limit_of default (number (negsuc _)) = none

-- The code points of a text.
abbrev pub codes : String → List ℕ
codes String.[] = []
codes (String.◌∷◌ c s) = code c ∷ codes s

abbrev between : ℕ → ℕ → ℕ → Bool
between low high c = leb low c && leb c high

-- `[a-zA-Z0-9_-]`.
abbrev is_id_code : ℕ → Bool
is_id_code c = between 97 122 c || between 65 90 c || between 48 57 c || c == 95 || c == 45

abbrev all_id_codes : List ℕ → Bool
all_id_codes [] = true
all_id_codes (c ∷ cs) = is_id_code c && all_id_codes cs

unfoldable pub validate_job_id : String → Bool
validate_job_id id = if str_eq id "" || ltb 100 (len id) then false else all_id_codes (codes id)

-- What `authenticateRequest` reads of a request: the header, and the parameter api_key.
pub record Credentials : Type 0 where
  pub authorization : String
  pub api_key : String

abbrev strip_prefix : List ℕ → List ℕ → Option (List ℕ)
strip_prefix [] s = some s
strip_prefix (p ∷ ps) [] = none
strip_prefix (p ∷ ps) (c ∷ cs) = let rest = strip_prefix ps cs in if p == c then rest else none

abbrev codes_eq : List ℕ → List ℕ → Bool
codes_eq [] [] = true
codes_eq [] (_ ∷ _) = false
codes_eq (_ ∷ _) [] = false
codes_eq (c ∷ cs) (d ∷ ds) = c == d && codes_eq cs ds

abbrev or_default : List ℕ → Option (List ℕ) → List ℕ
or_default d none = d
or_default d (some key) = key

-- The key of the header if it begins with "Bearer ", or else that of the parameter.
abbrev pub provided_key : Credentials → List ℕ
provided_key c =
    or_default (codes c.api_key) (strip_prefix (codes "Bearer ") (codes c.authorization))

unfoldable pub authenticate_request : String → Credentials → Bool
authenticate_request api_key c =
    if str_eq api_key ""
    then true
    else if codes_eq (provided_key c) []
    then false
    else codes_eq (provided_key c) (codes api_key)

-- `authMiddleware`, and `requireAPIKeyAuth`: the handler runs for an authenticated request only.
unfoldable pub require_auth : String → Credentials → M Response → M Response
require_auth api_key c handler = if authenticate_request api_key c then handler else refuse 401
