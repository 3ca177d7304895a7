-- ===== src/Jobs/Fixture.antt =====
-- The concrete tables, world and environment that the tests run on.
use alya.Prelude.{
  ℕ, List, [], ◌∷◌, some, none, Bool, true, false, ◌&&◌, ◌==◌, ◌+◌, if◌then◌else◌, str_eq, arith,
}
use alya.Prelude.Int.{ℤ, pos, is_zero}
use alya.Jobs.Status.{StatusEnum, queued, success}
use alya.Jobs.Types.{returns, JsonStr, BatchInput, BatchSummary}
use alya.Jobs.Db.{Batch, BatchRow, Db}
use alya.Jobs.Tables.{IsValid}
use alya.Jobs.Machine.{Env, World}

abbrev pub a_batch : StatusEnum → Batch
a_batch s = record {
  id = 7;
  app = "crm";
  op = "load";
  context = "{}";
  status = s;
  reqat = 1;
  doneat = none;
  outputfiles = none;
  nsuccess = none;
  nfailed = none;
  naborted = none;
}

abbrev pub a_row : ℕ → ℤ → StatusEnum → BatchRow
a_row n line s = record {
  rowid = n;
  batch = 7;
  line = line;
  input = "{}";
  status = s;
  reqat = 1;
  doneat = none;
  res = none;
  blobrows = none;
  messages = none;
  doneby = none;
}

abbrev pub a_row_at : ℕ → ℕ → ℤ → BatchRow
a_row_at t n line = record (a_row n line queued) { reqat = t }

-- A batch of two rows, the first of which has succeeded.
abbrev pub tables : StatusEnum → StatusEnum → Db
tables b r = record {
  batches = a_batch b ∷ [];
  batchrows = a_row 1 (pos 1) success ∷ a_row 2 (pos 2) r ∷ [];
  next_rowid = 3;
}

pub tables-IsValid : (b r : StatusEnum) → IsValid (tables b r)
tables-IsValid b r = record {
  unique_rowids = ((omega arith, tt), (tt, tt));
  below_sequence = (omega arith, (omega arith, tt));
  unique_ids = (tt, tt);
}

abbrev pub no_tables : Db
no_tables = record { batches = []; batchrows = []; next_rowid = 1 }

abbrev pub a_world : Db → World
a_world d = record {
  db = d;
  pending = λ e. e;
  open_txs = 0;
  redis = record { get = λ k. none; members = λ k. [] };
  objects = [];
  blocks = [];
  marked = [];
  calls = 0;
}

-- A summary with nothing in it but its status is written as that status.
abbrev pub is_plain : BatchSummary → Bool
is_plain s =
    str_eq s.status "queued"
    && elim s.output_files [ [] ↦ true | x ∷ xs ↦ false ]
    && elim s.nsuccess [ pos n ↦ n == 0 | _ ↦ false ]
    && elim s.nfailed [ pos n ↦ n == 0 | _ ↦ false ]
    && elim s.naborted [ pos n ↦ n == 0 | _ ↦ false ]

abbrev pub plain : BatchSummary
plain = record {
  status = "queued";
  output_files = [];
  nsuccess = pos 0;
  nfailed = pos 0;
  naborted = pos 0;
}

abbrev pub a_context : JsonStr
a_context = record { value = "{}"; valid = true }

-- The only UUID is 7, written `b7`; `fails` says which calls fail.
abbrev pub env_failing : (ℕ → Bool) → Env
env_failing fails = record {
  fails = fails;
  clock = λ n. 1000 + n;
  fresh_uuid = λ n. 7;
  parse_uuid = λ s. if str_eq s "b7" then some 7 else none;
  uuid_string = λ n. "b7";
  to_lower = λ s. if str_eq s "LOAD" then "load" else s;
  is_json = λ s. true;
  fits_struct = λ s. true;
  marshal_files = λ fs. some "{}";
  unmarshal_files = λ s. some [];
  marshal_summary = λ s. if is_plain s then some "plain" else none;
  unmarshal_summary = λ s. if str_eq s "plain" then some plain else none;
  marshal_messages = λ ms. some "[]";
  unmarshal_blobs = λ s. some [];
  trim_space = λ s. s;
  lock_granted = λ n. true;
  object_name = λ n. "object";
  has_initializer = λ s. true;
  init_ok = λ n. true;
  has_batch_processor = λ s. true;
  has_slow_query_processor = λ s. false;
  do_batch_job =
      λ key context line input n. if is_zero line then none else some (success, a_context, [], []);
  do_slow_query = λ key context input n. returns (success, a_context, [], []);
  mark_done_panics = λ n. false;
  close_panics = λ n. false;
  format_int64 = λ n. if n == 2 then "2" else "0";
  parse_int64 = λ s. if str_eq s "2" then some 2 else none;
  cache_dur_sec = 60;
}

abbrev pub an_env : Env
an_env = env_failing (λ n. false)

abbrev pub two_lines : List BatchInput
two_lines =
    record { line = pos 1; input = a_context } ∷ record { line = pos 2; input = a_context } ∷ []
