-- ===== src/Config/Laws.antt =====
-- What holds of every configuration that is loaded.
use vemory.Prelude.{
  ℕ, suc, ◌^◌, ◌<◌, ◌≤◌, ◌≡◌, ◌≢◌, Bool, true, false, Option, none, some, List, [], ◌∷◌, Bytes,
  bytes_eq, arith, subst,
}
use vemory.Config.{
  Config, default_config, unknown_key, apply_server, apply_logging, apply_storage, apply_index,
  apply_fsync, apply_io, apply_interval, apply_persistence, apply_key, Loading, enter_section,
  key_value, statement, load_line, at_line, load_lines, start, get_lines, load_config,
}
use vemory.Config.Outcome.{Result, ok, err, ◌>>=◌}
use vemory.Request.{read_digits, c_str}
use vemory.Config.Text.{
  trim, to_lower, unbracket, wrapped, wrapped_digits, strtoull, parse_uint, is_valid_log_level,
}

-- The ranges of the values.
abbrev pub IsValid : Config → Type 0
IsValid c =
    (1 ≤ c.port)
    × (c.port ≤ 65535)
    × (c.bind ≢ [])
    × (is_valid_log_level c.log_level ≡ true)
    × (c.kv_reserve < 2 ^ 64)
    × (1 ≤ c.default_capacity)
    × (c.default_capacity < 2 ^ 64)
    × (c.max_entries < 2 ^ 64)
    × (1 ≤ c.aof_flush_interval_ms)
    × (c.aof_flush_interval_ms ≤ 600000)
    × (c.slaveof ≡ false)

-- A result that is an error, or satisfies `P`.
abbrev pub Safely {ℓ} : {A : Type ℓ} → (A → Type 0) → Result A → Type 0
Safely P (ok a) = P a
Safely P (err e) = Unit {0}

wrapped-lt : (neg : Bool) (n : ℕ) → wrapped neg n < 2 ^ 64
unfolding wrapped
wrapped-lt neg n = ground arith

abbrev Bounded : Option (ℕ × Bytes) → Type 0
Bounded none = Unit {0}
Bounded (some (v, rest)) = v < 2 ^ 64

wrapped_digits-lt : (neg : Bool) (cs : Bytes) → Bounded (wrapped_digits neg cs)
unfolding wrapped_digits
wrapped_digits-lt neg cs = ground (arith, wrapped-lt neg (read_digits 0 cs).0)

strtoull-lt : (s : Bytes) → Bounded (strtoull s)
unfolding strtoull
strtoull-lt s = grind (arith, wrapped_digits-lt)

abbrev IsWord : Option ℕ → Type 0
IsWord none = Unit {0}
IsWord (some v) = v < 2 ^ 64

parse_uint-IsWord : (s : Bytes) → IsWord (parse_uint s)
unfolding parse_uint
parse_uint-IsWord s = ground (arith, strtoull-lt (c_str s))

apply_server-IsValid : (c : Config) (k v : Bytes) → IsValid c → Safely IsValid (apply_server c k v)
unfolding apply_server unknown_key
apply_server-IsValid c k v h = ground (arith, h)

apply_logging-IsValid :
    (c : Config) (k v : Bytes) → IsValid c → Safely IsValid (apply_logging c k v)
unfolding apply_logging unknown_key
apply_logging-IsValid c k v h = ground (arith, h)

apply_storage-IsValid :
    (c : Config) (k v : Bytes) → IsValid c → Safely IsValid (apply_storage c k v)
unfolding apply_storage unknown_key
apply_storage-IsValid c k v h = ground (arith, h, parse_uint-IsWord v)

apply_index-IsValid : (c : Config) (k v : Bytes) → IsValid c → Safely IsValid (apply_index c k v)
unfolding apply_index unknown_key
apply_index-IsValid c k v h = ground (arith, h, parse_uint-IsWord v)

apply_interval-IsValid : (c : Config) (v : Bytes) → IsValid c → Safely IsValid (apply_interval c v)
unfolding apply_interval
apply_interval-IsValid c v h = ground (arith, h)

apply_fsync-IsValid : (c : Config) (v : Bytes) → IsValid c → Safely IsValid (apply_fsync c v)
unfolding apply_fsync
apply_fsync-IsValid c v h = ground (arith, h)

apply_io-IsValid : (c : Config) (v : Bytes) → IsValid c → Safely IsValid (apply_io c v)
unfolding apply_io
apply_io-IsValid c v h = ground (arith, h)

apply_persistence-IsValid :
    (c : Config) (k v : Bytes) → IsValid c → Safely IsValid (apply_persistence c k v)
unfolding apply_persistence unknown_key
apply_persistence-IsValid c k v h =
    ground
      (arith, h, apply_interval-IsValid c v h, apply_fsync-IsValid c v h, apply_io-IsValid c v h)

apply_key-IsValid :
    (c : Config) (section k v : Bytes) → IsValid c → Safely IsValid (apply_key c section k v)
unfolding apply_key
apply_key-IsValid c section k v h = ground (
  arith,
  h,
  apply_server-IsValid c k v h,
  apply_logging-IsValid c k v h,
  apply_storage-IsValid c k v h,
  apply_index-IsValid c k v h,
  apply_persistence-IsValid c k v h,
)

abbrev LoadsValid : Loading → Type 0
LoadsValid l = IsValid l.cfg

enter_section-IsValid :
    (l : Loading) (name : Bytes) → LoadsValid l → Safely LoadsValid (enter_section l name)
unfolding enter_section
enter_section-IsValid l name h = ground (arith, h)

key_value-IsValid : (l : Loading) (k v : Bytes) → LoadsValid l → Safely LoadsValid (key_value l k v)
unfolding key_value
key_value-IsValid l k v h = ground (arith, apply_key-IsValid l.cfg l.section k v h)

statement-IsValid :
    (l : Loading) (line : Bytes) → LoadsValid l → Safely LoadsValid (statement l line)
unfolding statement
statement-IsValid l [] h = h
statement-IsValid l (c ∷ cs) h = grind (
  arith,
  enter_section-IsValid l (to_lower (trim (unbracket (c ∷ cs)))) h,
  λ (k v : Bytes). key_value-IsValid l k v h,
)

load_line-IsValid :
    (l : Loading) (line : Bytes) → LoadsValid l → Safely LoadsValid (load_line l line)
unfolding load_line
load_line-IsValid l line h = ground (arith, statement-IsValid l (trim line) h)

at_line_then :
    (n : ℕ) (r : Result Loading) (f : Loading → Result Loading)
    → Safely LoadsValid r
    → ((l : Loading) → LoadsValid l → Safely LoadsValid (f l))
    → Safely LoadsValid (at_line n r >>= f)
at_line_then n (ok l) f h keep = keep l h
at_line_then n (err e) f h keep = tt

load_lines-IsValid :
    (n : ℕ) (l : Loading) (lines : List Bytes)
    → LoadsValid l
    → Safely LoadsValid (load_lines n l lines)
unfolding load_lines
load_lines-IsValid n l [] h = h
load_lines-IsValid n l (line ∷ lines) h =
    at_line_then n (load_line l line) _ (load_line-IsValid l line h)
      (λ l' h'. load_lines-IsValid (suc n) l' lines h')

default_config-IsValid : IsValid default_config
unfolding is_valid_log_level
default_config-IsValid = ground arith

finish-IsValid :
    (r : Result Loading) (c : Config)
    → Safely LoadsValid r
    → (r >>= λ l. ok l.cfg) ≡ ok c
    → IsValid c
finish-IsValid (ok l) c h e = subst (Safely IsValid) e h
finish-IsValid (err m) c h e = cc

-- A configuration that `LoadConfig` accepts, whatever the file holds, has its values in their ranges:
-- a port from 1 to 65535, a `bind` that is not empty, a known log level, a flush interval from 1 to
-- 600000 ms, an index capacity that is not 0, sizes of 64 bits, and no master, which no file sets.
pub load_config-IsValid :
    (path content : Bytes) (c : Config) → load_config path (some content) ≡ ok c → IsValid c
unfolding load_config
load_config-IsValid path content c e =
    finish-IsValid (load_lines 1 start (get_lines content)) c
      (load_lines-IsValid 1 start (get_lines content) default_config-IsValid) e
