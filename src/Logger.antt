-- ===== src/Logger.antt =====
-- internal/logger/logger.go: levels, the choice of a handler and of the output, and the lines of the
-- text format. slog's JSON handler is a library's: a parameter that renders a record.
pub mod Lines
use tsdnsreflector.Prelude.{
  ℕ, ◌+◌, Text, Bool, true, false, not, ◌&&◌, ◌||◌, Option, none, some, List, [], ◌∷◌, ◌++◌, ◌==◌,
  codes, leb, is_empty, text_eq, if◌then◌else◌,
}
use tsdnsreflector.Prelude.Int.{ℤ, pos, negsuc, ltz}
use tsdnsreflector.Config.Runtime.{LoggingConfig}

-- The bytes of `strings.ToLower` as far as an ASCII word can be its result: A to Z, and the two
-- other characters that have an ASCII letter as their lower case, U+0130 and U+212A.
unfoldable pub to_lower : Text → Text
to_lower [] = []
to_lower (a ∷ []) = (if leb b'A' a && leb a b'Z' then a + 32 else a) ∷ []
to_lower (a ∷ b ∷ []) =
    let rest = to_lower (b ∷ []) in
    if (a == 196) && (b == 176)
    then b'i' ∷ []
    else if leb b'A' a && leb a b'Z'
    then (a + 32) ∷ rest
    else a ∷ rest
to_lower (a ∷ b ∷ c ∷ s) =
    let one = to_lower (b ∷ c ∷ s) in
    let two = to_lower (c ∷ s) in
    let three = to_lower s in
    if (a == 196) && (b == 176)
    then b'i' ∷ two
    else if (a == 226) && (b == 132) && (c == 170)
    then b'k' ∷ three
    else if leb b'A' a && leb a b'Z'
    then (a + 32) ∷ one
    else a ∷ one

-- slog's levels.
abbrev pub level_debug : ℤ
level_debug = negsuc 3

abbrev pub level_info : ℤ
level_info = pos 0

abbrev pub level_warn : ℤ
level_warn = pos 4

abbrev pub level_error : ℤ
level_error = pos 8

unfoldable pub parse_level : Text → ℤ
unfolding to_lower text_eq
parse_level level =
    let l = to_lower level in
    if text_eq l (codes "debug")
    then level_debug
    else if text_eq l (codes "info")
    then level_info
    else if text_eq l (codes "warn") || text_eq l (codes "warning")
    then level_warn
    else if text_eq l (codes "error")
    then level_error
    else level_info

-- An attribute, its value as text.
abbrev pub Attr : Type 0
Attr = Text × Text

pub record Record : Type 0 where
  pub timestamp : Text
  pub level : ℤ
  pub message : Text
  pub attrs : List Attr

-- The JSON handler keeps the attributes of `With`; the text handler has none.
pub data Handler : Type 0 where
  json : (attrs : List Attr) → Handler
  tsnet_style : Handler

pub data Output : Type 0 where
  stdout : Output
  file : Text → Output

pub record Logger : Type 0 where
  pub handler : Handler
  pub level : ℤ
  pub output : Output

-- `os.OpenFile` succeeds on a name.
module _ (opens : Text → Bool) where
  unfoldable pub new : LoggingConfig → Logger
  unfolding parse_level
  new cfg = record {
    handler = if text_eq (to_lower cfg.format) (codes "json") then json [] else tsnet_style;
    level = parse_level cfg.level;
    output =
        if is_empty cfg.log_file
        then stdout
        else if opens cfg.log_file
        then file cfg.log_file
        else stdout;
  }

  abbrev pub default_config : LoggingConfig
  default_config = record {
    level = codes "info";
    format = codes "text";
    log_queries = false;
    log_file = [];
  }

  unfoldable pub default : Logger
  unfolding new
  default = new default_config

  -- `UpdateConfig` replaces the logger.
  unfoldable pub update_config : LoggingConfig → Logger → Logger
  unfolding new
  update_config cfg l = new cfg

-- `tsnetStyleHandler.Enabled`, and the JSON handler's.
unfoldable pub enabled : Logger → ℤ → Bool
enabled l level = not (ltz level l.level)

unfoldable pub attrs_text : List Attr → Text
attrs_text [] = []
attrs_text ((key, value) ∷ attrs) = b' ' ∷ (key ++ b'=' ∷ (value ++ attrs_text attrs))

-- `tsnetStyleHandler.Handle`
unfoldable pub line : Record → Text
unfolding attrs_text
line r = r.timestamp ++ codes " tsdnsreflector: " ++ r.message ++ attrs_text r.attrs ++ b'\n' ∷ []

-- `WithAttrs`: the text handler returns itself.
unfoldable pub with_attrs : List Attr → Handler → Handler
with_attrs attrs (json kept) = json (kept ++ attrs)
with_attrs attrs tsnet_style = tsnet_style

unfoldable pub with_zone : Text → Logger → Logger
unfolding with_attrs
with_zone zone l = record l { handler = with_attrs ((codes "zone", zone) ∷ []) l.handler }

module _ (render : List Attr → Record → Text) where
  abbrev pub text_of : Handler → Record → Text
  text_of (json kept) r = render kept r
  text_of tsnet_style r = line r

  -- What a call writes: nothing below the logger's level.
  unfoldable pub log : Logger → Record → Text
  unfolding enabled line
  log l r = if enabled l r.level then text_of l.handler r else []

  -- `ZoneInfo`, `ZoneError`, `ZoneDebug` and `ZoneWarn`, by their level.
  unfoldable pub zone_log : ℤ → Text → Text → Text → List Attr → Logger → Text
  unfolding log
  zone_log level zone timestamp message args l = log l (record {
    timestamp = timestamp;
    level = level;
    message = message;
    attrs = (codes "zone", zone) ∷ args;
  })
