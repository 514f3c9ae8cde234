-- ===== src/Interceptor/Options.antt =====
-- The options of src/common/decorators, and the defaults that src/common/interceptors give them.
use hanghae_plus_backend.Prelude.{ℕ, String, Option, none, some, ◌==◌, if◌then◌else◌, str_eq}
use hanghae_plus_backend.Async.{Thrown, bad_request}

-- A text, or a function of the arguments of the handler.
pub data Given (Args : Type 0) : Type 0 where
  fixed : String → Given Args
  computed : (Args → String) → Given Args

-- `typeof option === 'function' ? option(args) : option`
abbrev pub given : {Args : Type 0} → Given Args → Args → String
given (fixed s) args = s
given (computed f) args = f args

-- `option || n`
abbrev pub number_or : Option ℕ → ℕ → ℕ
number_or none n = n
number_or (some m) n = if m == 0 then n else m

-- `option || s`
abbrev pub text_or : Option String → String → String
text_or none s = s
text_or (some t) s = if str_eq t "" then s else t

pub record OptimisticLockOptions (Args : Type 0) : Type 0 where
  pub key : Given Args
  pub max_retries : Option ℕ
  pub retry_delay : Option ℕ
  pub error_message : Option String

pub record PessimisticLockOptions (Args : Type 0) : Type 0 where
  pub key : Given Args
  pub timeout : Option ℕ
  pub error_message : Option String

pub record DbOptimisticLockOptions (Args : Type 0) : Type 0 where
  pub table : String
  pub column : String
  pub value : Given Args
  pub version_column : Option String
  pub max_retries : Option ℕ
  pub retry_delay : Option ℕ
  pub error_message : Option String

pub data LockMode : Type 0 where
  for_update for_share : LockMode

pub record DbPessimisticLockOptions (Args : Type 0) : Type 0 where
  pub table : String
  pub column : String
  pub value : Given Args
  pub lock_mode : Option LockMode
  pub timeout : Option ℕ
  pub error_message : Option String

-- `lockMode || 'FOR UPDATE'`
abbrev pub mode_or_update : Option LockMode → LockMode
mode_or_update none = for_update
mode_or_update (some m) = m

abbrev pub resource_busy : String
resource_busy = "리소스가 사용 중입니다. 잠시 후 다시 시도해주세요."

-- `throw new BadRequestException(option || text)`
abbrev pub refusal : Option String → String → Thrown
refusal option s = bad_request (text_or option s)
