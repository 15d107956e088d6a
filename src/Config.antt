-- ===== src/Config.antt =====
-- src/util/Config.cc, include/vemory/util/Config.h: the settings file. `out` and `error` are never
-- null here: a failure is an error message, and `*out` is then left alone. Strings are their bytes.
pub mod Outcome
pub mod Text
pub mod Laws
pub mod Ignored
mod Tests
use vemory.Prelude.{
  ℕ, zero, suc, ◌+◌, ◌*◌, ◌^◌, Bool, true, false, not, ◌&&◌, ◌||◌, Option, none, some, List, [],
  ◌∷◌, ◌++◌, Bytes, bytes_eq, ◌=?◌, ltb, ◌==◌, if◌then◌else◌, codes, length,
}
use vemory.Decimal.{decimal}
use vemory.Request.{is_empty}
use Outcome.{Result, ok, err, ◌>>=◌}
use Text.{trim, to_lower, parse_uint, parse_bool, is_valid_log_level, find_eq, last_byte, unbracket}

pub data AofFsyncPolicy : Type 0 where
  no_sync every_sec always : AofFsyncPolicy

pub data AofIoMode : Type 0 where
  auto thread iouring : AofIoMode

pub record Config : Type 0 where
  pub port : ℕ
  pub bind : Bytes
  pub log_level : Bytes
  pub kv_reserve : ℕ
  pub default_capacity : ℕ
  pub max_entries : ℕ
  pub persistence_dir : Bytes
  pub load_on_startup : Bool
  pub aof : Bool
  pub aof_fsync : AofFsyncPolicy
  pub aof_io : AofIoMode
  pub aof_flush_interval_ms : ℕ
  pub slaveof : Bool
  pub slaveof_host : Bytes
  pub slaveof_port : ℕ
  pub warnings : List Bytes

-- The members' initial values.
abbrev pub default_config : Config
default_config = record {
  port = 8888;
  bind = codes "0.0.0.0";
  log_level = codes "info";
  kv_reserve = 100000;
  default_capacity = 1024;
  max_entries = 0;
  persistence_dir = codes "data";
  load_on_startup = false;
  aof = false;
  aof_fsync = every_sec;
  aof_io = auto;
  aof_flush_interval_ms = 1000;
  slaveof = false;
  slaveof_host = [];
  slaveof_port = 0;
  warnings = [];
}

unfoldable pub is_known_section : Bytes → Bool
is_known_section section =
    (section =? codes "server")
    || (section =? codes "logging")
    || (section =? codes "storage")
    || (section =? codes "index")
    || (section =? codes "persistence")

-- `warnings.push_back`
abbrev pub warn : Config → Bytes → Config
warn cfg w = record cfg { warnings = cfg.warnings ++ w ∷ [] }

-- The end of `ApplyKey`.
unfoldable pub unknown_key : Config → Bytes → Bytes → Result Config
unknown_key cfg section key = ok (warn cfg (codes "unknown key " ++ (section ++ (b'.' ∷ key))))

-- The branches of `ApplyKey`, one for each section.
unfoldable pub apply_server : Config → Bytes → Bytes → Result Config
apply_server cfg key value =
    if key =? codes "port"
    then elim (parse_uint value) [
      | none ↦ err (codes "invalid server.port: " ++ value)
      | some v ↦
          if v == 0 || ltb 65535 v
          then err (codes "invalid server.port: " ++ value)
          else ok (record cfg { port = v })
    ]
    else if key =? codes "bind"
    then (if is_empty value
        then err (codes "invalid server.bind: empty")
        else ok (record cfg { bind = value }))
    else unknown_key cfg (codes "server") key

unfoldable pub apply_logging : Config → Bytes → Bytes → Result Config
apply_logging cfg key value =
    if key =? codes "level"
    then (let level = to_lower value in
        if is_valid_log_level level
        then ok (record cfg { log_level = level })
        else err (codes "invalid logging.level: " ++ value))
    else unknown_key cfg (codes "logging") key

unfoldable pub apply_storage : Config → Bytes → Bytes → Result Config
apply_storage cfg key value =
    if key =? codes "kv_reserve"
    then elim (parse_uint value) [
      | none ↦ err (codes "invalid storage.kv_reserve: " ++ value)
      | some v ↦ ok (record cfg { kv_reserve = v })
    ]
    else unknown_key cfg (codes "storage") key

unfoldable pub apply_index : Config → Bytes → Bytes → Result Config
apply_index cfg key value =
    if key =? codes "default_capacity"
    then elim (parse_uint value) [
      | none ↦ err (codes "invalid index.default_capacity: " ++ value)
      | some v ↦
          if v == 0
          then err (codes "invalid index.default_capacity: " ++ value)
          else ok (record cfg { default_capacity = v })
    ]
    else if key =? codes "max_entries"
    then elim (parse_uint value) [
      | none ↦ err (codes "invalid index.max_entries: " ++ value)
      | some v ↦ ok (record cfg { max_entries = v })
    ]
    else unknown_key cfg (codes "index") key

unfoldable pub apply_fsync : Config → Bytes → Result Config
apply_fsync cfg value =
    let lower = to_lower value in
    if lower =? codes "no"
    then ok (record cfg { aof_fsync = no_sync })
    else if lower =? codes "everysec"
    then ok (record cfg { aof_fsync = every_sec })
    else if lower =? codes "always"
    then ok (record cfg { aof_fsync = always })
    else err (
        codes "invalid persistence.aof_fsync: "
        ++ (value ++ codes " (expected no|everysec|always)"))

unfoldable pub apply_io : Config → Bytes → Result Config
apply_io cfg value =
    let lower = to_lower value in
    if lower =? codes "auto"
    then ok (record cfg { aof_io = auto })
    else if lower =? codes "thread"
    then ok (record cfg { aof_io = thread })
    else if lower =? codes "iouring"
    then ok (record cfg { aof_io = iouring })
    else err
        (codes "invalid persistence.aof_io: " ++ (value ++ codes " (expected auto|thread|iouring)"))

unfoldable pub apply_interval : Config → Bytes → Result Config
apply_interval cfg value = elim (parse_uint value) [
  | none ↦ err (codes "invalid persistence.aof_flush_interval_ms: " ++ value)
  | some v ↦
      if ltb v 1 || ltb 600000 v
      then err (codes "invalid persistence.aof_flush_interval_ms: " ++ value)
      else ok (record cfg { aof_flush_interval_ms = v })
]

unfoldable pub apply_persistence : Config → Bytes → Bytes → Result Config
apply_persistence cfg key value =
    if key =? codes "dir"
    then ok (record cfg { persistence_dir = value })
    else if key =? codes "load_on_startup"
    then elim (parse_bool value) [
      | none ↦ err (codes "invalid persistence.load_on_startup: " ++ value)
      | some v ↦ ok (record cfg { load_on_startup = v })
    ]
    else if key =? codes "aof"
    then elim (parse_bool value) [
      | none ↦ err (codes "invalid persistence.aof: " ++ value)
      | some v ↦ ok (record cfg { aof = v })
    ]
    else if key =? codes "aof_fsync"
    then apply_fsync cfg value
    else if key =? codes "aof_io"
    then apply_io cfg value
    else if key =? codes "aof_flush_interval_ms"
    then apply_interval cfg value
    else unknown_key cfg (codes "persistence") key

-- `ApplyKey`
unfoldable pub apply_key : Config → Bytes → Bytes → Bytes → Result Config
apply_key cfg section key value =
    if not (is_known_section section)
    then ok cfg
    else if section =? codes "server"
    then apply_server cfg key value
    else if section =? codes "logging"
    then apply_logging cfg key value
    else if section =? codes "storage"
    then apply_storage cfg key value
    else if section =? codes "index"
    then apply_index cfg key value
    else apply_persistence cfg key value

-- The variables of the loop of `LoadConfig`, less the number of the line.
pub record Loading : Type 0 where
  pub cfg : Config
  pub section : Bytes
  pub warned_sections : List Bytes

-- `unordered_set::insert(...).second` is the negation of this.
unfoldable pub is_warned : Bytes → List Bytes → Bool
is_warned s [] = false
is_warned s (x ∷ xs) = (s =? x) || is_warned s xs

-- A section header whose name, trimmed and in lower case, is `name`.
unfoldable pub enter_section : Loading → Bytes → Result Loading
enter_section l name =
    if is_empty name
    then err (codes "empty section name")
    else if not (is_known_section name) && not (is_warned name l.warned_sections)
    then ok (record {
      cfg = warn l.cfg (codes "unknown section [" ++ (name ++ codes "]"));
      section = name;
      warned_sections = name ∷ l.warned_sections;
    })
    else ok (record l { section = name })

unfoldable pub key_value : Loading → Bytes → Bytes → Result Loading
key_value l key value =
    if is_empty l.section
    then err (codes "key outside of section")
    else if is_empty key
    then err (codes "empty key")
    else do cfg ← apply_key l.cfg l.section key value; ok (record l { cfg = cfg })

-- Whether the loop skips a trimmed line: an empty one, or a comment.
unfoldable pub is_ignored : Bytes → Bool
is_ignored [] = true
is_ignored (c ∷ cs) = c == b'#' || c == b';'

-- A trimmed line that is not skipped.
unfoldable pub statement : Loading → Bytes → Result Loading
statement l [] = ok l
statement l (c ∷ cs) =
    if c == b'['
    then (if not (last_byte (c ∷ cs) == b']') || ltb (length (c ∷ cs)) 3
        then err (codes "bad section header")
        else enter_section l (to_lower (trim (unbracket (c ∷ cs)))))
    else elim (find_eq (c ∷ cs)) [
      | none ↦ err (codes "expected key = value")
      | some (key, value) ↦ key_value l (to_lower (trim key)) (trim value)
    ]

-- One round of the loop.
unfoldable pub load_line : Loading → Bytes → Result Loading
load_line l line = if is_ignored (trim line) then ok l else statement l (trim line)

-- The message of a failure, with the number of its line.
abbrev pub at_line : ℕ → Result Loading → Result Loading
at_line n (ok l) = ok l
at_line n (err e) = err (codes "line " ++ (decimal n ++ (codes ": " ++ e)))

-- The loop from line `n` on.
unfoldable pub load_lines : ℕ → Loading → List Bytes → Result Loading
load_lines n l [] = ok l
load_lines n l (line ∷ lines) = do l' ← at_line n (load_line l line); load_lines (suc n) l' lines

-- The lines that `std::getline` gives: the last one may lack its end.
abbrev pub onto_first : ℕ → List Bytes → List Bytes
onto_first c [] = (c ∷ []) ∷ []
onto_first c (line ∷ lines) = (c ∷ line) ∷ lines

unfoldable pub get_lines : Bytes → List Bytes
get_lines [] = []
get_lines (c ∷ cs) =
    let lines = get_lines cs in if c == b'\n' then [] ∷ lines else onto_first c lines

abbrev pub start : Loading
start = record { cfg = default_config; section = []; warned_sections = [] }

-- `LoadConfig`: `none` is a file that does not open.
unfoldable pub load_config : Bytes → Option Bytes → Result Config
load_config path none = err (codes "cannot open config file: " ++ path)
load_config path (some content) = do l ← load_lines 1 start (get_lines content); ok l.cfg
