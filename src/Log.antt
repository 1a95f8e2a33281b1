-- ===== src/Log.antt =====
-- The log levels of src/util/Log.h and .cc, and the test before each message. The classes that are
-- copied from ns-3 there (`ParameterLogger`) are left out.
pub mod Levels
pub mod Tests
use Prim.Native.Nat.{bit_and}
use Prim.Native.String.{String}
use omnetpp_federate.Prelude.{ℕ, Bool, not, List, [], ◌∷◌, ◌++◌, ◌==◌, if◌then◌else◌}

-- `omnetpp::LogLevel`
pub data OmnetppLevel : Type 0 where
  loglevel_trace loglevel_debug loglevel_detail loglevel_info : OmnetppLevel
  loglevel_warn loglevel_error loglevel_fatal loglevel_off : OmnetppLevel

-- The single severities of `enum LogLevel`, by their bits.
pub data Severity : Type 0 where
  log_error log_warn log_debug log_info log_function log_logic : Severity

abbrev pub bit_of : Severity → ℕ
bit_of log_error = 0x00000001
bit_of log_warn = 0x00000002
bit_of log_debug = 0x00000004
bit_of log_info = 0x00000008
bit_of log_function = 0x00000010
bit_of log_logic = 0x00000020

-- `LOG_LEVEL_ERROR` and so on: a severity and those above it.
abbrev log_level_of : Severity → ℕ
log_level_of log_error = 0x00000001
log_level_of log_warn = 0x00000003
log_level_of log_debug = 0x00000007
log_level_of log_info = 0x0000000f
log_level_of log_function = 0x0000001f
log_level_of log_logic = 0x0000003f

-- The value that `g_log_level` has before it is set.
abbrev default_level : ℕ
default_level = log_level_of log_warn

-- The new value of `g_log_level`.
pub set_log_level : OmnetppLevel → ℕ
set_log_level loglevel_trace = log_level_of log_logic
set_log_level loglevel_debug = log_level_of log_function
set_log_level loglevel_detail = log_level_of log_info
set_log_level loglevel_info = log_level_of log_debug
set_log_level loglevel_warn = log_level_of log_warn
set_log_level loglevel_error = log_level_of log_error
set_log_level loglevel_fatal = log_level_of log_error
set_log_level loglevel_off = 0

pub is_log_enabled : ℕ → ℕ → Bool
is_log_enabled g level = not (bit_and g level == 0)

-- `NS_LOG`: what is on the stream behind the macro.
pub ns_log : ℕ → String → Severity → List String → List String → List String
unfolding is_log_enabled
ns_log g component level msg out =
    if is_log_enabled g (bit_of level) then out ++ (component ∷ ": " ∷ msg) ++ ("\n" ∷ []) else out
