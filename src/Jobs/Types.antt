-- ===== src/Jobs/Types.antt =====
-- jobs/types.go: JSON strings, the input of a batch, and the values that go to Redis as JSON.
use alya.Prelude.{ℕ, Bool, true, String, List, Option, some, none, str_eq, if◌then◌else◌}
use alya.Prelude.Int.{ℤ}
use alya.Jobs.Status.{StatusEnum}

pub record JsonStr : Type 0 where
  pub value : String
  pub valid : Bool

-- `NewJSONstr`; `is_json` is the verdict of `json.Unmarshal`.
unfoldable pub new_json_str : (String → Bool) → String → Option JsonStr
new_json_str is_json s =
    if str_eq s ""
    then some (record { value = "{}"; valid = true })
    else if is_json s
    then some (record { value = s; valid = true })
    else none

pub record BatchInput : Type 0 where
  pub line : ℤ
  pub input : JsonStr

-- A map from a logical file's name to the object's name.
abbrev pub Files : Type 0
Files = List (String × String)

-- `BatchSummary_t`
pub record BatchSummary : Type 0 where
  pub status : String
  pub output_files : Files
  pub nsuccess : ℤ
  pub nfailed : ℤ
  pub naborted : ℤ

-- `wscutils.ErrorMessage`, as the service fills it.
pub record ErrorMessage : Type 0 where
  pub msg_id : ℕ
  pub err_code : String
  pub field : String
  pub vals : List String

-- A value of the JSON object in `blobrows`.
pub data Blob : Type 0 where
  text : String → Blob
  null : Blob
  other : Blob

-- `BatchDetails_t`, what `MarkDone` is given.
pub record BatchDetails : Type 0 where
  pub id : String
  pub app : String
  pub op : String
  pub context : JsonStr
  pub status : StatusEnum
  pub output_files : Files
  pub nsuccess : ℤ
  pub nfailed : ℤ
  pub naborted : ℤ

-- The values that a processor returns; the files are the `blobRows` of a batch job, or the
-- `outputFiles` of a slow query.
abbrev pub JobResult : Type 0
JobResult = StatusEnum × JsonStr × List ErrorMessage × Files

-- What a run of a processor comes to.
pub data Outcome : Type 0 where
  panics fails : Outcome
  returns : JobResult → Outcome
