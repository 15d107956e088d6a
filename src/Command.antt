-- ===== src/Command.antt =====
-- src/protocol/CommandType.cc, include/vemory/protocol/CommandType.h: the command names.
pub mod Laws
mod Tests
use vemory.Prelude.{
  ℕ, Bool, true, false, ◌&&◌, ◌+◌, leb, ◌==◌, if◌then◌else◌, Bytes, [], ◌∷◌, codes, length,
}

pub data CommandType : Type 0 where
  vset vget vdel set del get ping echo save psync unknown : CommandType

-- `std::tolower` in the C locale.
abbrev pub tolower : ℕ → ℕ
tolower c = if leb b'A' c && leb c b'Z' then c + 32 else c

-- The loop of `EqualsIgnoreCase`, over strings of one length.
unfoldable pub same_letters : Bytes → Bytes → Bool
same_letters (x ∷ xs) (y ∷ ys) = tolower x == tolower y && same_letters xs ys
same_letters _ _ = true

unfoldable pub equals_ignore_case : Bytes → Bytes → Bool
equals_ignore_case a b = if length a == length b then same_letters a b else false

unfoldable pub parse_command_type : Bytes → CommandType
parse_command_type name =
    if equals_ignore_case name (codes "VSET")
    then vset
    else if equals_ignore_case name (codes "VGET")
    then vget
    else if equals_ignore_case name (codes "VDEL")
    then vdel
    else if equals_ignore_case name (codes "SET")
    then set
    else if equals_ignore_case name (codes "DEL")
    then del
    else if equals_ignore_case name (codes "GET")
    then get
    else if equals_ignore_case name (codes "PING")
    then ping
    else if equals_ignore_case name (codes "ECHO")
    then echo
    else if equals_ignore_case name (codes "SAVE")
    then save
    else if equals_ignore_case name (codes "PSYNC")
    then psync
    else unknown
