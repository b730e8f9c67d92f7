-- ===== src/Startup/Log.antt =====
-- logger.go: the logger that `New` builds and what `pinoReplace` makes of an attribute. The writing of
-- lines and the formatting of times are log/slog's and time's; slog hands `pinoReplace` the attributes of
-- a call too, not only its own time and level.
use bundler_go.Base.{
  ℤ, leb_ℤ, ◌≡◌, refl, Text, codes, text_eq, Bool, true, false, Option, none, some, if◌then◌else◌,
  Bool-cases, inl, inr, arith, Result, ok, err,
}
use bundler_go.Startup.Levels.{
  Level, level_debug, level_info, level_warn, level_error, pino_label, main_parse_level,
  main_level_of, Named, main_Named,
}

-- The kinds of `slog.Value` that the code tells apart.
pub data Value (Time : Type 0) : Type 0 where
  time : Time → Value Time
  level : Level → Value Time
  text : Text → Value Time
  number : ℤ → Value Time

pub record Attr (Time : Type 0) : Type 0 where
  pub key : Text
  pub value : Value Time

module _ {Time : Type 0} (format_kst : Time → Text) where
  -- `a.Value.Time()` panics on another kind.
  unfoldable pub replace_time : Value Time → Option (Attr Time)
  replace_time (time t) = some (record { key = codes "time"; value = text (format_kst t) })
  replace_time (level l) = none
  replace_time (text s) = none
  replace_time (number n) = none

  -- A value that is no level counts as the zero level.
  unfoldable pub level_value : Value Time → Level
  level_value (time t) = level_info
  level_value (level l) = l
  level_value (text s) = level_info
  level_value (number n) = level_info

  -- `pinoReplace`, none where it panics
  unfoldable pub pino_replace : Attr Time → Option (Attr Time)
  unfolding replace_time level_value pino_label
  pino_replace a =
      if text_eq a.key (codes "time")
      then replace_time a.value
      else if text_eq a.key (codes "level")
      then some (record { key = codes "level"; value = text (pino_label (level_value a.value)) })
      else some a

-- `slog.Handler` as `build` makes it, with the attributes of every line.
pub record Logger : Type 0 where
  pub json : Bool
  pub threshold : Level
  pub module_name : Text
  pub pid : ℤ
  pub hostname : Text

-- `resolveHostname`
unfoldable pub resolve_hostname : Result Text → Text
resolve_hostname (ok h) = h
resolve_hostname (err e) = codes "unknown"

-- `New` and `build`
unfoldable pub build : Text → Level → Bool → ℤ → Result Text → Logger
unfolding resolve_hostname
build name threshold pretty pid host = record {
  json = if pretty then false else true;
  threshold = threshold;
  module_name = name;
  pid = pid;
  hostname = resolve_hostname host;
}

-- Whether a line is written: slog's documented test.
abbrev pub writes : Logger → Level → Bool
writes log l = leb_ℤ log.threshold l

-- What a reader of the line makes of its label.
label_level : Level → Level
label_level l =
    if leb_ℤ level_error l
    then level_error
    else if leb_ℤ level_warn l
    then level_warn
    else if leb_ℤ level_info l
    then level_info
    else level_debug

label_level_lem : (l : Level) → main_level_of (pino_label l) ≡ label_level l
unfolding main_level_of pino_label label_level
label_level_lem l = elim (Bool-cases (leb_ℤ level_error l)) [
  | inl a ↦ rw (a, main_level_of, pino_label)
  | inr a ↦ elim (Bool-cases (leb_ℤ level_warn l)) [
    | inl b ↦ rw (a, b, main_level_of, pino_label)
    | inr b ↦ elim (Bool-cases (leb_ℤ level_info l)) [
      | inl c ↦ rw (a, b, c, main_level_of, pino_label)
      | inr c ↦ elim (Bool-cases (leb_ℤ level_debug l)) [
        | inl d ↦ rw (a, b, c, d, main_level_of, pino_label)
        | inr d ↦ rw (a, b, c, d, main_level_of, pino_label)
      ]
    ]
  ]
]

label_level-above : (t l : Level) → Named t → leb_ℤ t l ≡ true → leb_ℤ t (label_level l) ≡ true
unfolding label_level
label_level-above t l (inl e) h = ground arith
label_level-above t l (inr (inl e)) h = ground arith
label_level-above t l (inr (inr (inl e))) h = ground arith
label_level-above t l (inr (inr (inr e))) h = ground arith

-- A line that is written under the level of LOG_LEVEL carries a label that is read, by main's own reader,
-- as a level at or above that one: a filter of the lines by their labels keeps all that the logger wrote.
written-label :
    {Time : Type 0} (format_kst : Time → Text) (setting name : Text) (pretty : Bool) (pid : ℤ)
    (host : Result Text) (l : Level)
    → writes (build name (main_parse_level setting) pretty pid host) l ≡ true
    → (s : Text) × (pino_replace format_kst (record { key = codes "level"; value = level l })
        ≡ some (record { key = codes "level"; value = text s }))
      × (leb_ℤ (main_parse_level setting) (main_level_of s) ≡ true)
unfolding build pino_replace
written-label format_kst setting name pretty pid host l h = (
  pino_label l,
  refl,
  rw (label_level_lem l) (label_level-above (main_parse_level setting) l (main_Named setting) h),
)
