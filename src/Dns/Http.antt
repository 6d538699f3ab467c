-- ===== src/Dns/Http.antt =====
-- The handlers of the HTTP server, with the JSON and the text that they write.
use tsdnsreflector.Prelude.{
  ℕ, Text, Option, none, some, List, [], ◌∷◌, codes, text_eq, if◌then◌else◌,
}
use tsdnsreflector.Dns.Startup.{HttpServer}

pub record Response : Type 0 where
  pub status : ℕ
  pub headers : List (Text × Text)
  pub body : Text

unfoldable pub health_handler : Response
health_handler = record {
  status = 200;
  headers = (codes "Content-Type", codes "application/json") ∷ [];
  body = codes "{\"status\":\"ok\",\"service\":\"tsdnsreflector\"}";
}

unfoldable pub metrics_handler : Response
metrics_handler = record {
  status = 301;
  headers = (codes "Location", codes "/metrics") ∷ [];
  body = codes "Metrics available at /metrics\n";
}

abbrev pub at_path : Option Text → Text → Response → Option Response → Option Response
at_path none path r other = other
at_path (some p) path r other = if text_eq p path then some r else other

-- The response on a path that has a handler of its own.
unfoldable pub handle_http : HttpServer → Text → Option Response
unfolding health_handler metrics_handler
handle_http h path =
    at_path h.health path health_handler (at_path h.metrics path metrics_handler none)
