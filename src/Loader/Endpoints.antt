-- ===== src/Loader/Endpoints.antt =====
-- static/js/loader.js: the table of the endpoints, and the address of a request.
use fprime_gds.Base.{ℕ, List, Option, some, false, Bool, [], ◌∷◌, ◌++◌, true, suc, none, zero}
use fprime_gds.Base.Text.{Text, codes, join}
use fprime_gds.Base.Decimal.{show_ℕ}

-- One entry of `this.endpoints`; `last` in milliseconds, `timer` the handle of its interval.
pub record Context : Type 0 where
  pub name : Text
  pub url : Text
  pub startup : Bool
  pub last : Option ℕ
  pub running : Bool
  pub queued : Bool
  pub timer : Option ℕ

unfoldable pub endpoint : Text → Text → Bool → Context
endpoint name url startup = record {
  name = name;
  url = url;
  startup = startup;
  last = none;
  running = false;
  queued = false;
  timer = none;
}

-- The table of the constructor.
unfoldable pub endpoints : List Context
unfolding endpoint
endpoints =
    endpoint (codes "session") (codes "/session") true
    ∷ endpoint (codes "command-dict") (codes "/dictionary/commands") true
    ∷ endpoint (codes "event-dict") (codes "/dictionary/events") true
    ∷ endpoint (codes "channel-dict") (codes "/dictionary/channels") true
    ∷ endpoint (codes "command_history") (codes "/commands") false
    ∷ endpoint (codes "events") (codes "/events") false
    ∷ endpoint (codes "channels") (codes "/channels") false
    ∷ endpoint (codes "logdata") (codes "/logdata") false
    ∷ endpoint (codes "upfiles") (codes "/upload/files") false
    ∷ endpoint (codes "downfiles") (codes "/download/files") false
    ∷ endpoint (codes "stats") (codes "/stats") false
    ∷ []

-- The pairs of `load` that `filter(pair => pair[1])` keeps: no session, an empty one and a limit
-- that is missing or 0 are dropped.
unfoldable pub session_argument : Option Text → List Text
session_argument none = []
session_argument (some []) = []
session_argument (some (c ∷ cs)) = (codes "session=" ++ c ∷ cs) ∷ []

unfoldable pub limit_argument : Option ℕ → List Text
limit_argument none = []
limit_argument (some zero) = []
limit_argument (some (suc n)) = (codes "limit=" ++ show_ℕ (suc n)) ∷ []

unfoldable pub query : Text → Text
query [] = []
query (c ∷ cs) = codes "?" ++ c ∷ cs

-- The address that `load` opens.
unfoldable pub load_url : Option Text → Option ℕ → Text → Text
unfolding session_argument limit_argument query
load_url session limit url =
    url ++ query (join (codes "&") (session_argument session ++ limit_argument limit))
