-- ===== src/Web/Logging.antt =====
-- internal/web/middleware.go: the log of the requests, against what is answered.
use mathlib.Core.Path.{subst}
use model_lib.Base.{
  ℕ, ◌≡◌, refl, sym, ap, ◌∙◌, arith, Bool, true, false, leb, Option, none, some, List, [], ◌∷◌,
  ◌++◌, Bytes, codes, length, take, All,
}
use model_lib.Config.{Config}
use model_lib.Encoding.Base64.{IsByte}
use model_lib.RateLimit.{KeyStore}
use model_lib.Submissions.{World}
use model_lib.Web.{Writer, Response, Handled, answered, panicked}
use model_lib.Web.Answering.{IsOpen}
use model_lib.Web.Headers.{SecuredFacts, ProperFacts}
use model_lib.Web.Log.{
  Call, write_header, write, Entry, LogWriter, send, call_log_writer, call_all, new_log_writer,
  settled,
}
use model_lib.Web.Middleware.{Incoming, is_exempt, entry, with_recovery, serve}
use model_lib.Web.Visitors.{
  IsVisitor, Visits, ServedFacts, handled, no_random, answered_same, serve-ServedFacts,
}
use model_lib.Identity.{Identity, CookieProvider, new_cookie_provider, is_valid_uuid}

-- The status that a sequence of calls asks for first.
abbrev pub first_header : List Call → ℕ
first_header [] = 200
first_header (write_header code ∷ cs) = code
first_header (write ∷ cs) = first_header cs

abbrev pub is_final : Call → Bool
is_final (write_header code) = leb 200 code
is_final write = true

abbrev pub first_call : List Call → ℕ
first_call [] = 200
first_call (write_header code ∷ cs) = code
first_call (write ∷ cs) = 200

sent_stays :
    (cs : List Call) (w : LogWriter) (n : ℕ)
    → w.response_writer ≡ some n
    → (call_all cs w).response_writer ≡ some n
unfolding call_all call_log_writer
sent_stays [] w n h = h
sent_stays (write_header code ∷ cs) w n h =
    sent_stays cs _ n (ap (λ (x : Option ℕ). send (write_header code) x) h)
sent_stays (write ∷ cs) w n h = sent_stays cs _ n (ap (λ (x : Option ℕ). send write x) h)

status_stays :
    (cs : List Call) (w : LogWriter)
    → w.wrote_header ≡ true
    → (call_all cs w).status_code ≡ w.status_code
unfolding call_all call_log_writer
status_stays [] w h = refl
status_stays (write_header code ∷ cs) w h = status_stays cs _ refl ∙ rw h refl
status_stays (write ∷ cs) w h = status_stays cs _ h

status_first :
    (cs : List Call) (w : LogWriter)
    → w.wrote_header ≡ false
    → w.status_code ≡ 200
    → (call_all cs w).status_code ≡ first_header cs
unfolding call_all call_log_writer
status_first [] w h new = new
status_first (write_header code ∷ cs) w h new = status_stays cs _ refl ∙ rw h refl
status_first (write ∷ cs) w h new = status_first cs _ h new

sent_first :
    (cs : List Call)
    → All (λ c. is_final c ≡ true) cs
    → settled (call_all cs new_log_writer).response_writer ≡ first_call cs
unfolding call_all call_log_writer
sent_first [] final = refl
sent_first (write_header code ∷ cs) (final, rest) =
    ap settled (sent_stays cs _ code (ground (arith, final)))
sent_first (write ∷ cs) (final, rest) = ap settled (sent_stays cs _ 200 refl)

-- Over any calls of a handler with final statuses, logWriter has the status of the first WriteHeader,
-- or 200 without one, and net/http sends the one of the first call, which is 200 for a Write: so the
-- two are the same if the first call is a WriteHeader.
pub call_all-StatusFacts :
    (cs : List Call)
    → All (λ c. is_final c ≡ true) cs
    → ((call_all cs new_log_writer).status_code ≡ first_header cs)
      × (settled (call_all cs new_log_writer).response_writer ≡ first_call cs)
      × ((code : ℕ) (rest : List Call)
          → cs ≡ write_header code ∷ rest
          → (call_all cs new_log_writer).status_code
            ≡ settled (call_all cs new_log_writer).response_writer)
call_all-StatusFacts cs final = (
  logged,
  sent,
  λ code rest same. logged ∙ ap first_header same ∙ sym (ap first_call same) ∙ sym sent,
)
  where
    logged : (call_all cs new_log_writer).status_code ≡ first_header cs
    logged = status_first cs new_log_writer refl refl

    sent : settled (call_all cs new_log_writer).response_writer ≡ first_call cs
    sent = sent_first cs final

-- A line of the log about a request and its answer.
pub record LineFacts (mac : Bytes → Bytes → Bytes) (p : CookieProvider) (r : Incoming)
    (response : Response) (line : Entry) : Type 0 where
  pub request : (line.method ≡ r.method) × (line.path ≡ r.path)
  pub status : line.status ≡ response.status
  pub no_visitor : is_exempt r.path ≡ true → line.pid ≡ codes "-"
  pub of_visitor :
      is_exempt r.path ≡ false
      → (visitor : Identity) × Visits mac p r visitor
        × (is_valid_uuid visitor.participant_id ≡ true)
        × (line.pid ≡ take 8 visitor.participant_id)

long : (s : Bytes) → is_valid_uuid s ≡ true → leb 8 (length s) ≡ true
unfolding is_valid_uuid
long s h = ground arith

line-LineFacts :
    (mac : Bytes → Bytes → Bytes) (p : CookieProvider) (r : Incoming) (response : Response)
    (visitor : Option Identity)
    → IsVisitor mac p r visitor
    → ProperFacts response
    → LineFacts mac p r response (entry r visitor response)
line-LineFacts mac p r response none who h = record {
  request = (refl, refl);
  status = h.logged;
  no_visitor = λ exempt. refl;
  of_visitor = λ asked. cc (who, asked);
}
line-LineFacts mac p r response (some visitor) (asked, uuid, whose) h = record {
  request = (refl, refl);
  status = h.logged;
  no_visitor = λ exempt. cc (exempt, asked);
  of_visitor = λ _. (visitor, whose, uuid, rw (long visitor.participant_id uuid) refl);
}

-- The log after a request.
pub data LogFacts (mac : Bytes → Bytes → Bytes) (p : CookieProvider) (T : Type 0) (r : Incoming)
    (log : List Entry) (y : Response × (T × List Entry)) : Type 0 where
  one_line :
      (line : Entry)
      → LineFacts mac p r y.0 line
      → y.1.1 ≡ log ++ line ∷ []
      → LogFacts mac p T r log y
  no_line : r.random ≡ none → y.0.status ≡ 500 → y.1.1 ≡ log → LogFacts mac p T r log y

module _ (mac : Bytes → Bytes → Bytes) (p : CookieProvider) (T : Type 0) (r : Incoming)
    (log : List Entry) where
  recovered-LogFacts :
      (y : Handled × (T × List Entry))
      → ServedFacts mac p T r log y
      → LogFacts mac p T r log (with_recovery y)
  recovered-LogFacts (answered response, u) (handled h) =
      let same : response ≡ h.response = answered_same response h.response h.same in
      one_line (entry r h.visitor response)
        (line-LineFacts mac p r response h.visitor h.who (subst ProperFacts (sym same) h.proper))
        (rw same h.noted)
  recovered-LogFacts (answered response, u) (no_random rs none_left same status kept) =
      no_line none_left (ap (λ (x : Response). x.status) (answered_same response rs same) ∙ status)
        kept
  recovered-LogFacts (panicked v, u) (handled h) = cc (h.same)
  recovered-LogFacts (panicked v, u) (no_random rs none_left same status kept) = cc same

-- Every request leaves one line in the log, with its method and path, the status that is answered,
-- and the first eight bytes of the id of its participant, which is a UUID, or "-" on the two paths
-- without an identity. Its participant is the one that Resolve reads from its cookie, or, where
-- Resolve refuses the cookie, the one whose id GenerateParticipantID makes for it. Only where the
-- random source fails, and the status is 500, there is no line. The random source gives 16 bytes,
-- the router finds no handler but the two checks for the two paths without an identity, and what it
-- answers itself keeps the headers, does not ask for an identity, and has its status written.
pub serve-LogFacts :
    (mac : Bytes → Bytes → Bytes) (sha : Bytes → Bytes) (K : KeyStore) (Network Ip : Type 0)
    (parse_ip : Bytes → Option Ip) (split_host : Bytes → Option Bytes)
    (contains : Network → Ip → Bool) (cfg : Config Network) (others : Incoming → Writer → Response)
    (r : Incoming) (w : Writer) (t : KeyStore.Store K × World) (log : List Entry)
    → ((b : Bytes) → r.random ≡ some b → All IsByte b × (length b ≡ 16))
    → (is_exempt r.path ≡ true → IsOpen r.route)
    → ((v : Writer) → SecuredFacts v → ProperFacts (others r v))
    → LogFacts mac
        (new_cookie_provider cfg)
        (KeyStore.Store K × World)
        r
        log
        (serve mac sha K parse_ip split_host contains cfg others r w (t, log))
unfolding serve
serve-LogFacts mac sha K Network Ip parse_ip split_host contains cfg others r w t log random routed
      rest =
    recovered-LogFacts mac (new_cookie_provider cfg) (KeyStore.Store K × World) r log _ (
      serve-ServedFacts mac sha K Network Ip parse_ip split_host contains cfg others r w t log
        random routed rest)
