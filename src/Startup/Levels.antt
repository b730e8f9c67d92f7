-- ===== src/Startup/Levels.antt =====
-- logger.go and main.go: the level of the log, which both read out of LOG_LEVEL.
use bundler_go.Base.{
  ℤ, pos, negsuc, leb_ℤ, ◌≡◌, ◌≢◌, ◌↔◌, refl, sym, ap, ◌∙◌, Text, codes, Bool, true, false, ◌||◌,
  ◌⊎◌, if◌then◌else◌, text_eq, text_eq_sound, to_lower, trim_space, Bool-cases, inl, inr, arith,
}

-- `slog.Level`; a number between two of the levels can be configured elsewhere, not by a text.
abbrev pub Level : Type 0
Level = ℤ

abbrev pub level_debug : Level
level_debug = negsuc 3

abbrev pub level_info : Level
level_info = pos 0

abbrev pub level_warn : Level
level_warn = pos 4

abbrev pub level_error : Level
level_error = pos 8

-- `ParseLevel` of the logger, on the text in lower case without white space around it
unfoldable pub level_of : Text → Level
level_of s =
    if text_eq s (codes "trace") || text_eq s (codes "debug")
    then level_debug
    else if text_eq s (codes "warn") || text_eq s (codes "warning")
    then level_warn
    else if text_eq s (codes "error") || text_eq s (codes "fatal")
    then level_error
    else level_info

unfoldable pub logger_parse_level : Text → Level
unfolding level_of
logger_parse_level s = level_of (to_lower (trim_space s))

-- `parseLevel` of main
unfoldable pub main_level_of : Text → Level
main_level_of s =
    if text_eq s (codes "debug") || text_eq s (codes "trace")
    then level_debug
    else if text_eq s (codes "warn") || text_eq s (codes "warning")
    then level_warn
    else if text_eq s (codes "error")
    then level_error
    else level_info

unfoldable pub main_parse_level : Text → Level
unfolding main_level_of
main_parse_level s = main_level_of (to_lower (trim_space s))

-- `pinoLabel`
unfoldable pub pino_label : Level → Text
pino_label l =
    if leb_ℤ level_error l
    then codes "error"
    else if leb_ℤ level_warn l
    then codes "warn"
    else if leb_ℤ level_info l
    then codes "info"
    else if leb_ℤ level_debug l
    then codes "debug"
    else codes "trace"

fatal_differs : level_of (codes "fatal") ≢ main_level_of (codes "fatal")
unfolding level_of main_level_of
fatal_differs h = cc

agree : (s : Text) → text_eq s (codes "fatal") ≡ false → level_of s ≡ main_level_of s
unfolding level_of main_level_of
agree s f = ground (arith, f)

-- The two readers of LOG_LEVEL, the logger's and main's own, agree on every text but those that say
-- "fatal", in any letter case and with any white space around it.
pub parse_level_agree :
    (s : Text)
    → (logger_parse_level s ≡ main_parse_level s) ↔ (to_lower (trim_space s) ≢ codes "fatal")
unfolding logger_parse_level main_parse_level
parse_level_agree s =
    let t = to_lower (trim_space s) in
    (
      λ h e. fatal_differs (ap level_of (sym e) ∙ h ∙ ap main_level_of e),
      λ h. elim (Bool-cases (text_eq t (codes "fatal"))) [
        | inl e ↦ absurd (h (text_eq_sound t (codes "fatal") e))
        | inr e ↦ agree t e
      ],
    )

-- The levels that a text can name.
abbrev pub Named : Level → Type 0
Named l = (l ≡ level_debug) ⊎ ((l ≡ level_info) ⊎ ((l ≡ level_warn) ⊎ (l ≡ level_error)))

chosen :
    (a b c : Bool)
    → Named
        (if a then level_debug else if b then level_warn else if c then level_error else level_info)
chosen true b c = inl refl
chosen false true c = inr (inr (inl refl))
chosen false false true = inr (inr (inr refl))
chosen false false false = inr (inl refl)

logger_Named : (s : Text) → Named (logger_parse_level s)
unfolding logger_parse_level level_of
logger_Named s = chosen _ _ _

pub main_Named : (s : Text) → Named (main_parse_level s)
unfolding main_parse_level main_level_of
main_Named s = chosen _ _ _

-- What both readers make of a label.
pub Reads : Level → Type 0
Reads l = (logger_parse_level (pino_label l) ≡ l) × (main_parse_level (pino_label l) ≡ l)

label-Reads : (l : Level) → Named l → Reads l
unfolding Reads logger_parse_level main_parse_level level_of main_level_of pino_label to_lower
    trim_space
label-Reads l (inl e) = rw e (refl, refl)
label-Reads l (inr (inl e)) = rw e (refl, refl)
label-Reads l (inr (inr (inl e))) = rw e (refl, refl)
label-Reads l (inr (inr (inr e))) = rw e (refl, refl)

-- The label that the log gives a level which was read out of a text, by either reader, is read as that
-- level again, by both.
pino_label-parse :
    (s : Text)
    → (logger_parse_level (pino_label (logger_parse_level s)) ≡ logger_parse_level s)
      × (main_parse_level (pino_label (logger_parse_level s)) ≡ logger_parse_level s)
      × (logger_parse_level (pino_label (main_parse_level s)) ≡ main_parse_level s)
      × (main_parse_level (pino_label (main_parse_level s)) ≡ main_parse_level s)
unfolding Reads
pino_label-parse s =
    let (a, b) = label-Reads (logger_parse_level s) (logger_Named s) in
    let (c, d) = label-Reads (main_parse_level s) (main_Named s) in (a, b, c, d)
