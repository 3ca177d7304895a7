-- ===== src/Jobs/FileXfr/Defs.antt =====
-- How a function of the file transfer runs: on a site, which is the service's world with the object
-- store, the table of batch files and the files of the watched directories. Any call may fail, as the
-- environment decides by the number of calls made so far. Log lines are left out.
use alya.Prelude.{ℕ, ◌+◌, List, ◌∷◌, Option, none, some, String, Bool, ◌&&◌, str_eq, if◌then◌else◌}
use alya.Prelude.Result.{Result, ok, err}
use alya.Jobs.Machine
use alya.Jobs.Machine.{Env, World, M}
use alya.Jobs.Types.{JsonStr, BatchInput}

pub record Object : Type 0 where
  pub contents : String
  pub content_type : String

-- A row of `batch_files`; the columns that are not set are left out.
pub record BatchFile : Type 0 where
  pub object_id : String
  pub size : ℕ
  pub checksum : String
  pub received_at : ℕ
  pub status : Bool
  pub batch_id : ℕ

pub data TransferError : Type 0 where
  store_error : TransferError
  no_object : TransferError
  file_error : TransferError
  insert_error : TransferError
  invalid_batch_id : TransferError
  no_file_chk : TransferError
  file_chk_failed : TransferError
  file_chk_registered : TransferError
  glob_error : TransferError
  submit_error : (e : Machine.Error) → TransferError

-- `objects` is by bucket and object id, and `files` by path.
pub record Site : Type 0 where
  pub world : World
  pub objects : String → String → Option Object
  pub batch_files : List BatchFile
  pub files : String → Option String
  pub calls : ℕ

-- What a file checking function answers; the object id and the error that it also returns are not
-- looked at by the server.
pub record FileVerdict : Type 0 where
  pub is_good : Bool
  pub batchctx : JsonStr
  pub batch_input : List BatchInput
  pub app : String
  pub op : String

abbrev pub FileChk : Type 0
FileChk = String → String → JsonStr → FileVerdict

pub record FileXfrConfig : Type 0 where
  pub max_object_id_length : ℕ
  pub incoming_bucket : String
  pub failed_bucket : String

pub record FileXfrServer : Type 0 where
  pub file_chk_map : List (String × FileChk)
  pub config : FileXfrConfig

-- What is taken from outside: besides the service's environment, the calls that fail, the text
-- functions, and what the file system tells.
pub record XfrEnv : Type 0 where
  pub jobs : Env
  pub fails : ℕ → Bool
  pub clock : ℕ → ℕ
  pub byte_length : String → ℕ
  pub first_bytes : ℕ → String → String
  pub sanitize_filename : String → String
  pub detect_mime : String → String
  pub lower_ext : String → String
  pub md5_hex : String → String
  pub base_name : String → String
  pub join_path : String → String → String
  pub trim_separator : String → String
  pub glob : ℕ → String → String → Option (List String)
  pub mod_time : ℕ → String → Option ℕ

abbrev pub T : Type 0 → Type 0
T A = Site → Result TransferError A × Site

infixl 5 ◌>>=◌ ◌>>◌
unfoldable pub ◌>>=◌ : {A B : Type 0} → T A → (A → T B) → T B
◌>>=◌ m f s = let (r, s') = m s in elim r [ ok a ↦ f a s' | err e ↦ (err e, s') ]

abbrev pub ◌>>◌ : {B : Type 0} → T (Unit {0}) → T B → T B
m >> k = m >>= λ _. k

unfoldable pub pure : {A : Type 0} → A → T A
pure a s = (ok a, s)

unfoldable pub throw : {A : Type 0} → TransferError → T A
throw e s = (err e, s)

abbrev pub or_throw : {A : Type 0} → Option A → TransferError → T A
or_throw none e = throw e
or_throw (some a) e = pure a

-- The error is logged, and the function goes on.
unfoldable pub log_error : {A : Type 0} → T A → T (Unit {0})
log_error m s = let (r, s') = m s in (ok tt, s')

-- A call of the service.
unfoldable pub in_service : {A : Type 0} → M A → T A
in_service m s =
    let (r, w) = m s.world in
    (
      elim r [ Machine.Result.ok a ↦ ok a | Machine.Result.err e ↦ err (submit_error e) ],
      record s { world = w },
    )

abbrev pub put_object :
    String → String → Object → (String → String → Option Object) → String → String → Option Object
put_object bucket id o objects b k = if str_eq bucket b && str_eq id k then some o else objects b k

abbrev pub delete_object :
    String → String → (String → String → Option Object) → String → String → Option Object
delete_object bucket id objects b k = if str_eq bucket b && str_eq id k then none else objects b k

module _ (env : XfrEnv) where
  unfoldable pub call : TransferError → T (Unit {0})
  call e s = (if env.fails s.calls then err e else ok tt, record s { calls = s.calls + 1 })

  -- `Get`, and the reading of what it returns.
  unfoldable pub store_get : String → String → T Object
  store_get bucket id = call store_error >> λ s. elim (s.objects bucket id) [
    | none ↦ (err no_object, s)
    | some o ↦ (ok o, s)
  ]

  unfoldable pub store_put : String → String → Object → T (Unit {0})
  store_put bucket id o =
      call store_error >> λ s. (ok tt, record s { objects = put_object bucket id o s.objects })

  unfoldable pub store_delete : String → String → T (Unit {0})
  store_delete bucket id =
      call store_error >> λ s. (ok tt, record s { objects = delete_object bucket id s.objects })

  unfoldable pub insert_batch_file : BatchFile → T (Unit {0})
  insert_batch_file row =
      call insert_error >> λ s. (ok tt, record s { batch_files = row ∷ s.batch_files })

  unfoldable pub now : T ℕ
  now s = (ok (env.clock s.calls), s)

  unfoldable pub open_file : String → T String
  open_file path = call file_error >> λ s. elim (s.files path) [
    | none ↦ (err file_error, s)
    | some contents ↦ (ok contents, s)
  ]

  unfoldable pub remove_file : String → T (Unit {0})
  remove_file path = call file_error >> λ s.
      (ok tt, record s { files = λ p. if str_eq path p then none else s.files p })

-- Named on an `unfolding` line, it opens all of the above.
unfoldable pub transfer : Unit {0}
unfolding ◌>>=◌ pure throw log_error in_service call store_get store_put store_delete
    insert_batch_file now open_file remove_file
transfer = tt
