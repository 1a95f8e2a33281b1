-- ===== src/Log/Levels.antt =====
-- The bit masks of src/util/Log.h against an order of the severities.
use Prim.Native.String.{String}
use omnetpp_federate.Prelude.{ℕ, ◌≡◌, refl, List, [], ◌∷◌, ◌++◌, leb, if◌then◌else◌}
use omnetpp_federate.Log.{
  OmnetppLevel, loglevel_trace, loglevel_debug, loglevel_detail, loglevel_info, loglevel_warn,
  loglevel_error, loglevel_fatal, loglevel_off, Severity, log_error, log_warn, log_debug, log_info,
  log_function, log_logic, bit_of, set_log_level, is_log_enabled, ns_log,
}

-- The worst severity comes first.
abbrev rank : Severity → ℕ
rank log_error = 1
rank log_warn = 2
rank log_debug = 3
rank log_info = 4
rank log_function = 5
rank log_logic = 6

-- How many of them a level lets through.
abbrev depth : OmnetppLevel → ℕ
depth loglevel_trace = 6
depth loglevel_debug = 5
depth loglevel_detail = 4
depth loglevel_info = 3
depth loglevel_warn = 2
depth loglevel_error = 1
depth loglevel_fatal = 1
depth loglevel_off = 0

enabled_rank :
    (o : OmnetppLevel) (s : Severity)
    → is_log_enabled (set_log_level o) (bit_of s) ≡ leb (rank s) (depth o)
unfolding is_log_enabled set_log_level
enabled_rank loglevel_trace log_error = refl
enabled_rank loglevel_trace _ = refl
enabled_rank loglevel_debug log_error = refl
enabled_rank loglevel_debug _ = refl
enabled_rank loglevel_detail log_error = refl
enabled_rank loglevel_detail _ = refl
enabled_rank loglevel_info log_error = refl
enabled_rank loglevel_info _ = refl
enabled_rank loglevel_warn log_error = refl
enabled_rank loglevel_warn _ = refl
enabled_rank loglevel_error log_error = refl
enabled_rank loglevel_error _ = refl
enabled_rank loglevel_fatal log_error = refl
enabled_rank loglevel_fatal _ = refl
enabled_rank loglevel_off log_error = refl
enabled_rank loglevel_off _ = refl

-- Under each OMNeT++ level a message is printed behind its component exactly if its severity is among
-- the worst ones, as many as the level is deep; else nothing is printed. The bits of the level and of
-- the severity decide as that one comparison does.
pub ns_log-rank :
    (o : OmnetppLevel) (component : String) (s : Severity) (msg out : List String)
    → ns_log (set_log_level o) component s msg out
      ≡ (if leb (rank s) (depth o) then out ++ (component ∷ ": " ∷ msg) ++ ("\n" ∷ []) else out)
unfolding ns_log
ns_log-rank o component s msg out = rw (enabled_rank o s) refl
