-- ===== src/Command/Tests.antt =====
-- Names in both cases.
use vemory.Prelude.{◌≡◌, ◌↔◌, refl, true, codes, map}
use vemory.Command.{tolower, equals_ignore_case, parse_command_type}
use vemory.Command.Laws.{equals_ignore_case_iff, parse_command_type-congr}

equals_ignore_case_iff_example :
    (equals_ignore_case (codes "vSeT") (codes "VSET") ≡ true)
    ↔ (map tolower (codes "vSeT") ≡ map tolower (codes "VSET"))
equals_ignore_case_iff_example = equals_ignore_case_iff (codes "vSeT") (codes "VSET")

parse_command_type-congr_example :
    parse_command_type (codes "vSeT") ≡ parse_command_type (codes "VSET")
parse_command_type-congr_example = parse_command_type-congr (codes "vSeT") (codes "VSET") refl
