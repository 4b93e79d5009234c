-- ===== src/Service/Console.antt =====
-- The page of the console (serveConsoleTemplate of service.go).
use discovery_self.Base.{ℕ, ◌++◌, codes, text_eq, Bool, ◌&&◌, not, if◌then◌else◌, itoa}
use discovery_self.Model.{Request}
use discovery_self.Service.{Service}

-- What the console handler answers; a page is its template's name with the port to fill in.
pub data Reply : Type 0 where
  status : ℕ → Reply
  banner : Reply
  console : ℕ → Reply

-- `asset` says whether the template is in the binary (templates.go).
unfoldable pub serve_console_template : Service → Bool → Request → Reply
serve_console_template service asset r =
    if not (text_eq r.method (codes "GET"))
    then status 405
    else if text_eq r.path (codes "/")
    then banner
    else if not (text_eq r.path (codes "/console"))
    then status 404
    else if not (text_eq r.host (codes "localhost:" ++ itoa service.port))
        && not (text_eq r.host (codes "127.0.0.1:" ++ itoa service.port))
    then status 403
    else if not asset
    then status 404
    else console service.port
