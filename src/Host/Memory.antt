-- ===== src/Host/Memory.antt =====
-- cmd/demohost/mem.go: the memory of the machine and of the sessions. What the system's commands and
-- files give is an argument, `none` where they fail.
pub mod Containers
use bigfleet_demo.Common.{
  ℕ, zero, suc, ◌+◌, ◌*◌, ◌/◌, ◌^◌, Bool, true, false, not, ◌&&◌, ◌||◌, Option, none, some, List,
  [], ◌∷◌, ◌++◌, Text, codes, leb, ltb, eqb, if◌then◌else◌, length, select, text_eq,
}
use mathlib.Core.List.{reverse}
use bigfleet_demo.Common.Decimal.{value_from}
use bigfleet_demo.Host.Http.{cut_prefix, is_space, is_empty, trim_space}

-- `strings.Fields`, with the field read so far.
unfoldable pub fields_from : Text → Text → List Text
fields_from cur [] = if is_empty cur then [] else cur ∷ []
fields_from cur (c ∷ s) =
    let next = fields_from [] s in
    let more = fields_from (cur ++ c ∷ []) s in
    if is_space c then (if is_empty cur then next else cur ∷ next) else more

unfoldable pub fields : Text → List Text
fields s = fields_from [] s

-- `strings.Split` on one character, with the part read so far.
unfoldable pub split_from : ℕ → Text → Text → List Text
split_from sep cur [] = cur ∷ []
split_from sep cur (c ∷ s) =
    let next = split_from sep [] s in
    let more = split_from sep (cur ++ c ∷ []) s in if eqb c sep then cur ∷ next else more

unfoldable pub split : ℕ → Text → List Text
split sep s = split_from sep [] s

abbrev pub are_digits : Text → Bool
are_digits [] = true
are_digits (c ∷ s) = leb b'0' c && (leb c b'9' && are_digits s)

-- `strconv.Atoi` of a number without a sign, as the commands print them.
unfoldable pub parse_int : Text → Option ℕ
parse_int s =
    let n = value_from 0 s in
    if not (is_empty s) && (are_digits s && ltb n 9_223_372_036_854_775_808) then some n else none

-- The text before the first occurrence of a pattern.
unfoldable pub text_before : Text → Text → Option Text
text_before p [] = none
text_before p (c ∷ s) = elim (cut_prefix p (c ∷ s)) [
  | some r ↦ some []
  | none ↦ elim (text_before p s) [ none ↦ none | some t ↦ some (c ∷ t) ]
]

unfoldable pub is_listed : Text → List Text → Bool
is_listed id [] = false
is_listed id (i ∷ ids) = text_eq i id || is_listed id ids

-- Whether a container is one of these sessions'.
unfoldable pub is_theirs : List Text → Text → Bool
is_theirs ids n = elim (cut_prefix (codes "kwok-") n) [
  | none ↦ false
  | some rest ↦ elim (text_before (codes "-cluster") rest) [
    | none ↦ false
    | some id ↦ not (is_empty id) && is_listed id ids
  ]
]

-- A figure in MB, as an exact fraction.
pub record Figure : Type 0 where
  pub num : ℕ
  pub den : ℕ

unfoldable pub add_figure : Figure → Figure → Figure
add_figure a b = record { num = a.num * b.den + b.num * a.den; den = a.den * b.den }

-- `strconv.ParseFloat` of digits with a point or without; 0 for any other text.
unfoldable pub parse_float : Text → Figure
parse_float s =
    let whole : Option (Text × Text) = elim (split b'.' s) [
      | [] ↦ none
      | a ∷ [] ↦ some (a, [])
      | a ∷ b ∷ [] ↦ some (a, b)
      | a ∷ b ∷ c ∷ rest ↦ none
    ] in
    figure whole
  where
    figure : Option (Text × Text) → Figure
    figure none = record { num = 0; den = 1 }
    figure (some (a, b)) =
        if are_digits (a ++ b)
        then record { num = value_from 0 (a ++ b); den = 10 ^ length b }
        else record { num = 0; den = 1 }

unfoldable pub cut_suffix : Text → Text → Option Text
cut_suffix suffix s = elim (cut_prefix (reverse suffix) (reverse s)) [
  | none ↦ none
  | some r ↦ some (reverse r)
]

-- The suffixes in the order of the switch, each with its multiple.
abbrev pub units : List (Text × ℕ × ℕ)
units =
    (codes "GiB", 1024, 1)
    ∷ (codes "MiB", 1, 1)
    ∷ (codes "KiB", 1, 1024)
    ∷ (codes "GB", 1000, 1)
    ∷ (codes "MB", 1, 1)
    ∷ (codes "kB", 1, 1024)
    ∷ (codes "B", 1, 1024 * 1024)
    ∷ []

unfoldable pub parse_unit : List (Text × ℕ × ℕ) → Text → Figure
parse_unit [] s = parse_float (trim_space s)
parse_unit ((suffix, num, den) ∷ us) s = elim (cut_suffix suffix s) [
  | none ↦ parse_unit us s
  | some r ↦ let v = parse_float (trim_space r) in record { num = v.num * num; den = v.den * den }
]

unfoldable pub parse_mem_mb : Text → Figure
parse_mem_mb s = parse_unit units (trim_space s)

-- The part of a line before its first slash.
unfoldable pub used_part : Text → Text
used_part ln = elim (split b'/' ln) [ [] ↦ [] | a ∷ rest ↦ a ]

unfoldable pub sum_lines : List Text → Figure
sum_lines [] = record { num = 0; den = 1 }
sum_lines (ln ∷ lns) =
    let rest = sum_lines lns in
    if is_empty ln then rest else add_figure (parse_mem_mb (used_part ln)) rest

-- The output of `docker ps`, and that of `docker stats` for the containers that it is asked about.
unfoldable pub docker_mb : List Text → Option Text → (List Text → Option Text) → ℕ
docker_mb ids ps stats_of = elim ps [
  | none ↦ 0
  | some out ↦ elim (select (is_theirs ids) (fields out)) [
    | [] ↦ 0
    | n ∷ names ↦ elim (stats_of (n ∷ names)) [
      | none ↦ 0
      | some so ↦ let total = sum_lines (split 10 (trim_space so)) in total.num / total.den
    ]
  ]
]

unfoldable pub sum_ints : List Text → ℕ
sum_ints [] = 0
sum_ints (f ∷ fs) = elim (parse_int f) [ none ↦ sum_ints fs | some kb ↦ kb + sum_ints fs ]

unfoldable pub pids_of : (Text → Option Text) → List Text → List Text
pids_of file [] = []
pids_of file (id ∷ ids) = elim (file id) [
  | none ↦ pids_of file ids
  | some b ↦ fields b ++ pids_of file ids
]

-- The file of each session, and the output of `ps` for the processes that it is asked about.
unfoldable pub host_rss_mb : (Text → Option Text) → (List Text → Option Text) → List Text → ℕ
host_rss_mb file ps ids = elim (pids_of file ids) [
  | [] ↦ 0
  | p ∷ pids ↦ elim (ps (p ∷ pids)) [ none ↦ 0 | some out ↦ sum_ints (fields out) / 1024 ]
]

unfoldable pub measure_demo_mb :
    (Text → Option Text)
    → (List Text → Option Text)
    → Option Text
    → (List Text → Option Text)
    → List Text
    → ℕ
measure_demo_mb file ps docker_ps stats_of ids = elim ids [
  | [] ↦ 0
  | i ∷ is ↦ host_rss_mb file ps (i ∷ is) + docker_mb (i ∷ is) docker_ps stats_of
]

pub data Os : Type 0 where
  darwin linux other : Os

unfoldable pub mem_total : List Text → ℕ
mem_total [] = 0
mem_total (ln ∷ lns) =
    let rest = mem_total lns in
    elim (cut_prefix (codes "MemTotal:") ln) [
      | none ↦ rest
      | some r ↦ elim (fields ln) [
        | [] ↦ rest
        | f ∷ [] ↦ rest
        | f ∷ kb ∷ fs ↦ elim (parse_int kb) [ none ↦ rest | some n ↦ n / 1024 ]
      ]
    ]

-- The output of `sysctl` or the file /proc/meminfo.
unfoldable pub machine_total_mb : Os → Option Text → ℕ
machine_total_mb darwin out = elim out [
  | none ↦ 0
  | some s ↦ elim (parse_int (trim_space s)) [ none ↦ 0 | some b ↦ b / 1024 / 1024 ]
]
machine_total_mb linux out = elim out [ none ↦ 0 | some s ↦ mem_total (split 10 s) ]
machine_total_mb other out = 0
