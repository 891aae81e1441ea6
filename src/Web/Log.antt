-- ===== src/Web/Log.antt =====
-- internal/web/middleware.go: logWriter, and what reqLogMiddleware writes of a request. The duration of
-- the request and the level are left out.
use model_lib.Base.{
  ℕ, Bool, true, false, ◌&&◌, not, ◌==◌, leb, if◌then◌else◌, Option, none, some, List, [], ◌∷◌,
  Bytes, codes, length, take,
}
use model_lib.Identity.{Identity}
use model_lib.Web.{Response, Body, index_page, result_page, no_body}

-- The calls of a handler on its http.ResponseWriter.
pub data Call : Type 0 where
  write_header : ℕ → Call
  write : Call

abbrev informational : ℕ → Bool
informational code = leb 100 code && leb code 199 && not (code == 101)

-- The status that net/http has sent. A call of WriteHeader sends one if there is none yet, and an
-- informational one does not count; a call of Write sends 200 if there is none yet.
abbrev pub send : Call → Option ℕ → Option ℕ
send (write_header code) none = if informational code then none else some code
send write none = some 200
send call (some status) = some status

-- At the end of the request net/http sends 200 if the handler sent nothing.
abbrev pub settled : Option ℕ → ℕ
settled none = 200
settled (some status) = status

-- logWriter, with the status that its ResponseWriter has sent
pub record LogWriter : Type 0 where
  pub response_writer : Option ℕ
  pub status_code : ℕ
  pub wrote_header : Bool

-- WriteHeader is logWriter's own, Write that of the ResponseWriter.
unfoldable pub call_log_writer : Call → LogWriter → LogWriter
call_log_writer (write_header code) w = record {
  response_writer = send (write_header code) w.response_writer;
  status_code = if w.wrote_header then w.status_code else code;
  wrote_header = true;
}
call_log_writer write w = record w { response_writer = send write w.response_writer }

unfoldable pub call_all : List Call → LogWriter → LogWriter
call_all [] w = w
call_all (c ∷ cs) w = call_all cs (call_log_writer c w)

-- As reqLogMiddleware makes it.
abbrev pub new_log_writer : LogWriter
new_log_writer = record { response_writer = none; status_code = 200; wrote_header = false }

-- How ExecuteTemplate ends: the page is written, or it fails before anything of it is written, or after.
pub data Rendering : Type 0 where
  executed failed_early failed_late : Rendering

-- renderTemplate, whose http.Error writes a status and a text behind what was written.
abbrev pub render_template : Rendering → List Call
render_template executed = write ∷ []
render_template failed_early = write_header 500 ∷ write ∷ []
render_template failed_late = write ∷ write_header 500 ∷ write ∷ []

-- The calls that write a response; the templates are taken to render.
abbrev pub calls_of : ℕ → Body → List Call
calls_of status (index_page bytes mib token) = render_template executed
calls_of status (result_page id endpoint) = render_template executed
calls_of status no_body = write_header status ∷ []
calls_of status body = write_header status ∷ write ∷ []

unfoldable pub log_writer_of : Response → LogWriter
log_writer_of response = call_all (calls_of response.status response.body) new_log_writer

-- A line of the log.
pub record Entry : Type 0 where
  pub req_id : Bytes
  pub method : Bytes
  pub path : Bytes
  pub status : ℕ
  pub pid : Bytes

-- The first bytes of the participant's id, for the identity that getIdentity finds.
abbrev pub pid_of : Option Identity → Bytes
pid_of none = codes "-"
pid_of (some visitor) =
    if leb 8 (length visitor.participant_id) then take 8 visitor.participant_id else codes "-"
