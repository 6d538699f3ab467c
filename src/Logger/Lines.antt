-- ===== src/Logger/Lines.antt =====
-- What loggers write.
use tsdnsreflector.Prelude.{◌≡◌, refl, Text, List}
use tsdnsreflector.Logger.{Attr, Record, Logger, tsnet_style, log, with_zone, with_attrs}

-- In the text format a logger of `WithZone` writes what the logger without the zone writes.
pub log-with_zone :
    (render : List Attr → Record → Text) (zone : Text) (l : Logger) (r : Record)
    → l.handler ≡ tsnet_style
    → log render (with_zone zone l) r ≡ log render l r
unfolding log with_zone with_attrs
log-with_zone render zone l r text = rw text refl
